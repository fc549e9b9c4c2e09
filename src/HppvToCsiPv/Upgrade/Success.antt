-- ===== src/HppvToCsiPv/Upgrade/Success.antt =====
-- A pipeline that nothing stops: the steps proceed one after another, and then the undo actions, told
-- that the run succeeded, report no error.
pub mod Healthy
pub mod Steps
pub mod Replacing
pub mod Upgraded
use admission_controller.Base.{
  ℕ, suc, String, Bool, true, Option, none, some, List, [], ◌∷◌, Error, ◌≡◌, refl,
}
use admission_controller.HppvToCsiPv.Upgrade.Engine.{
  Poll, nothing, Undo, Outcome, PipelineStep, add_error, run,
}
use admission_controller.HppvToCsiPv.Upgrade.Brackets.{undo_after, brackets, run-brackets}

module _ {S : Type 0} where
  -- No error of a step and none of an undo action, and a state as R says
  abbrev pub Succeeds : (S → Type 0) → Option Error × List Error × S → Type 0
  Succeeds R (ret, errs, s) = (ret ≡ none) × (errs ≡ []) × R s

  -- The undo action, told of a success, reports no error and leads from R' to R.
  abbrev pub Leads : (S → Type 0) → (S → Type 0) → Option (Undo S) → Type 0
  Leads R' R none = (s : S) → R' s → R s
  Leads R' R (some u) = (s : S) → R' s → ((u true s).0 ≡ none) × R (u true s).1

  -- The step goes on, with what the later steps need.
  abbrev pub Proceeds : (S → Type 0) → (S → Type 0) → (S → Type 0) → Outcome S × S → Type 0
  Proceeds R' R K (o, s) = (o.failure ≡ none) × (o.continues ≡ true) × Leads R' R o.undo × K s

  -- K, if the state is the one that the step leads to
  abbrev pub EndsIn : Outcome S × S → (S → Type 0) → S → Type 0
  EndsIn r K s = s ≡ r.1 → K s

  -- What the later steps need may be shown for the state that the step leads to.
  pub at_end :
      (R' R K : S → Type 0) (r : Outcome S × S) → Proceeds R' R (EndsIn r K) r → Proceeds R' R K r
  at_end R' R K (o, s) (f, c, leads, k) = (f, c, leads, k refl)

  undo_after-Succeeds :
      (R' R : S → Type 0) (o : Option (Undo S)) (r : Option Error × List Error × S)
      → Leads R' R o
      → Succeeds R' r
      → Succeeds R (undo_after o r)
  undo_after-Succeeds R' R none (ret, errs, s) leads (e, clean, h) = (e, clean, leads s h)
  undo_after-Succeeds R' R (some u) (some x, errs, s) leads (e, clean, h) = absurd (cc e)
  undo_after-Succeeds R' R (some u) (none, x ∷ errs, s) leads (e, clean, h) = absurd (cc clean)
  undo_after-Succeeds R' R (some u) (none, [], s) leads (e, clean, h) =
      let (no_error, h') = leads s h in (refl, rw no_error refl, h')

  -- Every step proceeds, from the index on; R i is what holds after the undo actions of the steps
  -- from i on.
  abbrev pub AllProceed : (ℕ → S → Type 0) → List (PipelineStep S) → ℕ → S → Type 0
  AllProceed R [] i s = R i s
  AllProceed R (step ∷ steps) i s =
      Proceeds (R (suc i)) (R i) (AllProceed R steps (suc i)) (step.action s)

  module _ (pv_name : String) (poll : ℕ → Poll) (quiet : (i : ℕ) → poll i ≡ nothing)
      (R : ℕ → S → Type 0) where
    brackets-Succeeds :
        (steps : List (PipelineStep S)) (i : ℕ) (s : S)
        → AllProceed R steps i s
        → Succeeds (R i) (brackets pv_name poll steps i s)
    unfolding brackets
    brackets-Succeeds [] i s h = (refl, refl, h)
    brackets-Succeeds (step ∷ steps) i s (f, c, leads, rest) =
        let later = brackets-Succeeds steps (suc i) (step.action s).1 rest in
        rw (quiet i, brackets)
          (rw (f, c) (undo_after-Succeeds (R (suc i)) (R i) (step.action s).0.undo _ leads later))

    -- If every step proceeds and `select` finds nothing before any, Run ends without an error, and so
    -- do its undo actions.
    pub run-Succeeds :
        (steps : List (PipelineStep S)) (s : S)
        → AllProceed R steps 0 s
        → Succeeds (R 0) (run pv_name poll steps s)
    run-Succeeds steps s h = rw run-brackets (brackets-Succeeds steps 0 s h)
