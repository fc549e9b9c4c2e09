-- ===== src/HppvToCsiPv/Upgrade/Frame.antt =====
-- What a pipeline leaves as it is, whether it succeeds or fails: in any run, if its undo actions
-- report no error.
pub mod Steps
pub mod Others
use admission_controller.Base.{
  ℕ, suc, String, Bool, Option, none, some, List, [], ◌∷◌, Error, ◌≡◌, refl, ◌∙◌, inl, inr,
  Option-cases, Bool-cases,
}
use admission_controller.HppvToCsiPv.Upgrade.Engine.{
  Poll, nothing, timed_out, stopped, Undo, Outcome, PipelineStep, exit_ok, run,
}
use admission_controller.HppvToCsiPv.Upgrade.Brackets.{
  append_nil_left, no_errors, undo_after, brackets, run-brackets,
}

module _ {S X : Type 0} (view : S → X) where
  -- With no undo action, the view after the step is the one before it; with one, the undo action
  -- brings that back for a run that succeeds and for one that fails, if it reports no error.
  abbrev pub UndoneBy : Option (Undo S) → S → S → Type 0
  UndoneBy none before after = view after ≡ view before
  UndoneBy (some u) before after =
      (ok : Bool) (s : S) → view s ≡ view after → (u ok s).0 ≡ none → view (u ok s).1 ≡ view before

  abbrev pub AllUndone : List (PipelineStep S) → S → Type 0
  AllUndone [] s = Unit
  AllUndone (step ∷ steps) s =
      UndoneBy (step.action s).0.undo s (step.action s).1 × AllUndone steps (step.action s).1

  -- If no undo action reported an error, the view is as before.
  abbrev pub Frames : S → Option Error × List Error × S → Type 0
  Frames before (ret, errs, s) = errs ≡ [] → view s ≡ view before

  undo_after-Frames :
      (o : Option (Undo S)) (before after : S) (r : Option Error × List Error × S)
      → UndoneBy o before after
      → Frames after r
      → Frames before (undo_after o r)
  undo_after-Frames none before after r undone frames clean = frames clean ∙ undone
  undo_after-Frames (some u) before after (ret, errs, s) undone frames clean =
      undone (exit_ok ret) s (frames (append_nil_left errs _ clean))
        (no_errors errs (u (exit_ok ret) s).0 clean)

  module _ (pv_name : String) (poll : ℕ → Poll) where
    brackets-Frames :
        (steps : List (PipelineStep S)) (i : ℕ) (s : S)
        → AllUndone steps s
        → Frames s (brackets pv_name poll steps i s)
    unfolding brackets
    brackets-Frames [] i s r = λ clean. refl
    brackets-Frames (step ∷ steps) i s (r, rs) =
        by_poll (poll i) refl (brackets-Frames steps (suc i) (step.action s).1 rs)
      where
        o : Outcome S
        o = (step.action s).0

        s' : S
        s' = (step.action s).1

        by_poll :
            (p : Poll)
            → poll i ≡ p
            → Frames s' (brackets pv_name poll steps (suc i) s')
            → Frames s (brackets pv_name poll (step ∷ steps) i s)
        by_poll timed_out p ih = rw (p, brackets) (λ clean. refl)
        by_poll stopped p ih = rw (p, brackets) (λ clean. refl)
        by_poll nothing p ih = elim (Option-cases o.failure) [
          | inr (x, f) ↦
              rw (p, brackets)
                (rw f (undo_after-Frames o.undo s s' (some x, [], s') r (λ clean. refl)))
          | inl f ↦ elim (Bool-cases o.continues) [
            | inl c ↦ rw (p, brackets) (rw (f, c) (undo_after-Frames o.undo s s' _ r ih))
            | inr c ↦
                rw (p, brackets)
                  (rw (f, c) (undo_after-Frames o.undo s s' (none, [], s') r (λ clean. refl)))
          ]
        ]

    -- If every step is undone, a run whose undo actions report no error leaves the view as it was.
    pub run-Frames :
        (steps : List (PipelineStep S)) (s : S)
        → AllUndone steps s
        → Frames s (run pv_name poll steps s)
    run-Frames steps s r = rw run-brackets (brackets-Frames steps 0 s r)
