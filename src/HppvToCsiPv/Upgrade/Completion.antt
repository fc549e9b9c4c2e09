-- ===== src/HppvToCsiPv/Upgrade/Completion.antt =====
-- A pipeline that ends without an error: what its steps, and then their undo actions, leave.
pub mod Effects
pub mod Converted
use admission_controller.Base.{
  ℕ, suc, String, Bool, true, false, Option, none, some, List, [], ◌∷◌, Error, ◌≡◌, refl, sym, ap,
  ◌∙◌, ◌⊎◌, inl, inr, Option-cases, Bool-cases, Result-cases, err, ok, ◌≢◌, ◌==◌, ==_refl, ==_false,
  if◌then◌else◌,
}
use admission_controller.Api.{PersistentVolume}
use admission_controller.HppvToCsiPv.Upgrade.Cluster.{Cluster}
use admission_controller.HppvToCsiPv.Upgrade.Engine.{
  Poll, nothing, timed_out, stopped, Undo, Outcome, Action, PipelineStep, exit_ok, pipeline_error,
  run,
}
use admission_controller.HppvToCsiPv.Upgrade.Brackets.{undo_after, brackets, run-brackets}

module _ {S : Type 0} (Q : S → Type 0) where
  -- The undo action keeps Q when it is told that the run succeeded.
  abbrev pub KeptBy : Option (Undo S) → Type 0
  KeptBy none = Unit
  KeptBy (some u) = (s : S) → Q s → Q (u true s).1

  -- What a step leaves, if it succeeds: Q if it ends the pipeline, and what the next steps need, K.
  abbrev pub IsGood : (S → Type 0) → Outcome S × S → Type 0
  IsGood K (o, s) =
      KeptBy o.undo
      × (o.failure ≡ none → ((o.continues ≡ false → Q s) × (o.continues ≡ true → K s)))

  abbrev pub Ends : List (PipelineStep S) → S → Type 0
  Ends [] s = Q s
  Ends (step ∷ steps) s = IsGood (Ends steps) (step.action s)

  undo_after-ok :
      (o : Option (Undo S)) (r : Option Error × List Error × S)
      → KeptBy o
      → (r.0 ≡ none → Q r.2)
      → (undo_after o r).0 ≡ none
      → Q (undo_after o r).2
  undo_after-ok none (ret, errs, s) k h e = h e
  undo_after-ok (some u) (none, errs, s) k h e = k s (h refl)
  undo_after-ok (some u) (some x, errs, s) k h e = cc

  module _ (pv_name : String) (poll : ℕ → Poll) where
    brackets-Ends :
        (steps : List (PipelineStep S)) (i : ℕ) (s : S)
        → Ends steps s
        → (brackets pv_name poll steps i s).0 ≡ none
        → Q (brackets pv_name poll steps i s).2
    unfolding brackets
    brackets-Ends [] i s q = λ h. q
    brackets-Ends (step ∷ steps) i s (kept, good) =
        by_poll (poll i) refl (λ g. brackets-Ends steps (suc i) (step.action s).1 g)
      where
        o : Outcome S
        o = (step.action s).0

        s' : S
        s' = (step.action s).1

        by_poll :
            (p : Poll)
            → poll i ≡ p
            → (Ends steps s'
                → (brackets pv_name poll steps (suc i) s').0 ≡ none
                → Q (brackets pv_name poll steps (suc i) s').2)
            → (brackets pv_name poll (step ∷ steps) i s).0 ≡ none
            → Q (brackets pv_name poll (step ∷ steps) i s).2
        by_poll timed_out p ih = rw (p, brackets) λ h. cc
        by_poll stopped p ih = rw (p, brackets) λ h. cc
        by_poll nothing p ih = elim (Option-cases o.failure) [
          | inr (x, f) ↦
              rw (p, brackets) (rw f (undo_after-ok o.undo (some x, [], s') kept λ h. cc))
          | inl f ↦ elim (Bool-cases o.continues) [
            | inl c ↦ rw (p, brackets) (rw (f, c) (undo_after-ok o.undo _ kept (ih ((good f).1 c))))
            | inr c ↦
                rw (p, brackets)
                  (rw (f, c) (undo_after-ok o.undo (none, [], s') kept λ h. (good f).0 c))
          ]
        ]

    pub run-Ends :
        (steps : List (PipelineStep S)) (s : S)
        → Ends steps s
        → (run pv_name poll steps s).0 ≡ none
        → Q (run pv_name poll steps s).2
    run-Ends steps s q = rw run-brackets (brackets-Ends steps 0 s q)
