-- ===== src/HppvToCsiPv/Upgrade/Brackets.antt =====
-- Run is a nesting of brackets: each step is undone after all that follows it, and is told whether
-- the whole run failed. From that follows when a failed run restores the state.
use mathlib.Core.List.{append_assoc, append-nil}
use admission_controller.Base.{
  ℕ, suc, String, true, false, Option, none, some, List, [], ◌∷◌, ◌++◌, Error, ◌≡◌, refl, sym, ap,
  ◌∙◌, inl, inr, Option-cases, Bool-cases,
}
use admission_controller.HppvToCsiPv.Upgrade.Engine.{
  Poll, nothing, timed_out, stopped, Undo, Outcome, PipelineStep, exit_ok, add_error, push, recover,
  pipeline_error, run_steps, run,
}

add_error-append :
    (a : Option Error) (errs errs' : List Error)
    → errs ++ add_error a errs' ≡ (errs ++ add_error a []) ++ errs'
add_error-append none errs errs' = rw append-nil
add_error-append (some e) errs errs' = sym (append_assoc errs (e ∷ []) errs')

module _ {S : Type 0} where
  -- the undo action of one step, if it has one, before the errors of the later steps' ones
  abbrev pub undo_after :
      Option (Undo S) → Option Error × List Error × S → Option Error × List Error × S
  undo_after none (ret, errs, s) = (ret, errs, s)
  undo_after (some u) (ret, errs, s) =
      let (err, s') = u (exit_ok ret) s in (ret, errs ++ add_error err [], s')

  abbrev pub then_recover :
      List (Undo S) → Option Error × List Error × S → Option Error × List Error × S
  then_recover undo_actions (ret, errs, s) =
      let (errs', s') = recover (exit_ok ret) undo_actions s in (ret, errs ++ errs', s')

  then_recover-nil : (r : Option Error × List Error × S) → then_recover [] r ≡ r
  unfolding recover
  then_recover-nil (ret, errs, s) =
      ap (λ (es : List Error). let r : Option Error × List Error × S = (ret, es, s) in r)
        (append-nil errs)

  then_recover-push :
      (o : Option (Undo S)) (undo_actions : List (Undo S)) (r : Option Error × List Error × S)
      → then_recover (push o undo_actions) r ≡ then_recover undo_actions (undo_after o r)
  unfolding recover
  then_recover-push none undo_actions r = refl
  then_recover-push (some u) undo_actions (ret, errs, s) =
      let (err, s') = u (exit_ok ret) s in
      let (errs', s'') = recover (exit_ok ret) undo_actions s' in
      ap (λ (es : List Error). let r : Option Error × List Error × S = (ret, es, s'') in r)
        (add_error-append err errs errs')

module _ {S : Type 0} (pv_name : String) (poll : ℕ → Poll) where
  -- The specification: a step, then the later steps, then the step's undo action.
  unfoldable pub brackets : List (PipelineStep S) → ℕ → S → Option Error × List Error × S
  brackets [] i s = (none, [], s)
  brackets (step ∷ steps) i s = elim (poll i) [
    | timed_out ↦ (some (pipeline_error pv_name "timeout"), [], s)
    | stopped ↦ (some (pipeline_error pv_name "stopped"), [], s)
    | nothing ↦
        let (o, s') = step.action s in
        undo_after o.undo (elim o.failure as (λ _. Option Error × List Error × S) [
          | some e ↦ (some e, [], s')
          | none ↦ elim o.continues [ false ↦ (none, [], s') | true ↦ brackets steps (suc i) s' ]
        ])
  ]

  abbrev finish : Option Error × List (Undo S) × S → Option Error × List Error × S
  finish (ret, undo_actions, s) =
      let (errs, s') = recover (exit_ok ret) undo_actions s in (ret, errs, s')

  run_steps-brackets :
      (steps : List (PipelineStep S)) (i : ℕ) (undo_actions : List (Undo S)) (s : S)
      → finish (run_steps pv_name poll steps i undo_actions s)
        ≡ then_recover undo_actions (brackets steps i s)
  unfolding run_steps brackets
  run_steps-brackets [] i undo_actions s = refl
  run_steps-brackets (step ∷ steps) i undo_actions s =
      by_poll (poll i) refl (run_steps-brackets steps (suc i) (push o.undo undo_actions) s')
    where
      o : Outcome S
      o = (step.action s).0

      s' : S
      s' = (step.action s).1

      by_poll :
          (p : Poll)
          → poll i ≡ p
          → finish (run_steps pv_name poll steps (suc i) (push o.undo undo_actions) s')
            ≡ then_recover (push o.undo undo_actions) (brackets steps (suc i) s')
          → finish (run_steps pv_name poll (step ∷ steps) i undo_actions s)
            ≡ then_recover undo_actions (brackets (step ∷ steps) i s)
      by_poll timed_out e ih = rw (e, run_steps, brackets)
      by_poll stopped e ih = rw (e, run_steps, brackets)
      by_poll nothing e ih = elim (Option-cases o.failure) [
        | inr (x, f) ↦
            rw (e, run_steps, brackets)
              (rw f (then_recover-push o.undo undo_actions (some x, [], s')))
        | inl f ↦ elim (Bool-cases o.continues) [
          | inl c ↦
              rw (e, run_steps, brackets) (rw (f, c) (ih ∙ then_recover-push o.undo undo_actions _))
          | inr c ↦
              rw (e, run_steps, brackets)
                (rw (f, c) (then_recover-push o.undo undo_actions (none, [], s')))
        ]
      ]

  -- Run, which keeps its undo actions and recovers at the end, does what the brackets do, with any
  -- steps and whatever `select` finds: each step's undo action comes after all that follows the step,
  -- and is told whether the whole run failed.
  pub run-brackets :
      (steps : List (PipelineStep S)) (s : S) → run pv_name poll steps s ≡ brackets steps 0 s
  unfolding run recover
  run-brackets steps s = run_steps-brackets steps 0 [] s ∙ then_recover-nil (brackets steps 0 s)

pub append_nil_left : (xs ys : List Error) → xs ++ ys ≡ [] → xs ≡ []
append_nil_left [] ys h = refl
append_nil_left (x ∷ xs) ys h = cc

pub no_errors : (xs : List Error) (a : Option Error) → xs ++ add_error a [] ≡ [] → a ≡ none
no_errors xs none h = refl
no_errors [] (some e) h = cc
no_errors (x ∷ xs) (some e) h = cc

-- What a failed run comes back to.
module _ {S : Type 0} where
  -- From every state as R' says, the undo action of a failed run, if it reports no error, leads to one
  -- as R says; with no undo action the state is such a one itself.
  abbrev pub Leads : (S → Type 0) → (S → Type 0) → Option (Undo S) → Type 0
  Leads R' R none = (s : S) → R' s → R s
  Leads R' R (some u) = (s : S) → R' s → (u false s).0 ≡ none → R (u false s).1

  -- The steps can come back to a state as R says, from wherever the run ends: each step for what the
  -- later ones come back to.
  abbrev pub AllRevert : List (PipelineStep S) → (S → Type 0) → S → Type 1
  AllRevert [] R s = Unit
  AllRevert (step ∷ steps) R s =
      R s
      × ((R' : S → Type 0) × Leads R' R (step.action s).0.undo
          × R' (step.action s).1
          × ((step.action s).0.failure ≡ none → AllRevert steps R' (step.action s).1))

  -- If the run failed and no undo action reported an error, the state is as R says.
  abbrev pub Restores : (S → Type 0) → Option Error × List Error × S → Type 0
  Restores R (ret, errs, s) = (e : Error) → ret ≡ some e → errs ≡ [] → R s

  undo_after-Restores :
      (R' R : S → Type 0) (o : Option (Undo S)) (r : Option Error × List Error × S)
      → Leads R' R o
      → Restores R' r
      → Restores R (undo_after o r)
  undo_after-Restores R' R none (ret, errs, s) leads restores e h clean =
      leads s (restores e h clean)
  undo_after-Restores R' R (some u) (none, errs, s) leads restores e h clean = cc
  undo_after-Restores R' R (some u) (some x, errs, s) leads restores e h clean =
      leads s (restores x refl (append_nil_left errs _ clean)) (no_errors errs (u false s).0 clean)

  module _ (pv_name : String) (poll : ℕ → Poll) where
    brackets-Restores :
        (steps : List (PipelineStep S)) (R : S → Type 0) (i : ℕ) (s : S)
        → AllRevert steps R s
        → Restores R (brackets pv_name poll steps i s)
    unfolding brackets
    brackets-Restores [] R i s r = λ e h clean. cc
    brackets-Restores (step ∷ steps) R i s (before, (R', leads, after, rs)) =
        by_poll (poll i) refl λ f. brackets-Restores steps R' (suc i) (step.action s).1 (rs f)
      where
        o : Outcome S
        o = (step.action s).0

        s' : S
        s' = (step.action s).1

        by_poll :
            (p : Poll)
            → poll i ≡ p
            → (o.failure ≡ none → Restores R' (brackets pv_name poll steps (suc i) s'))
            → Restores R (brackets pv_name poll (step ∷ steps) i s)
        by_poll timed_out p ih = rw (p, brackets) (λ e h clean. before)
        by_poll stopped p ih = rw (p, brackets) (λ e h clean. before)
        by_poll nothing p ih = elim (Option-cases o.failure) [
          | inr (x, f) ↦
              rw (p, brackets)
                (rw f (undo_after-Restores R' R o.undo (some x, [], s') leads (λ e h clean. after)))
          | inl f ↦ elim (Bool-cases o.continues) [
            | inl c ↦ rw (p, brackets) (rw (f, c) (undo_after-Restores R' R o.undo _ leads (ih f)))
            | inr c ↦
                rw (p, brackets)
                  (rw (f, c)
                    (undo_after-Restores R' R o.undo (none, [], s') leads (λ e h clean. cc)))
          ]
        ]

    -- If the steps can come back to a state as R says, a run that fails, and whose undo actions
    -- report no error, ends in one.
    pub run-Restores :
        (steps : List (PipelineStep S)) (R : S → Type 0) (s : S)
        → AllRevert steps R s
        → Restores R (run pv_name poll steps s)
    run-Restores steps R s r = rw run-brackets (brackets-Restores steps R 0 s r)

-- A step's own part, told by what `view` shows of the state
module _ {S X : Type 0} (view : S → X) where
  abbrev pub Shows : S → S → Type 0
  Shows before s = view s ≡ view before

  -- With no undo action, what the step left is what it found; with one, undoing it for a failed run
  -- brings that back, if the undo action reports no error.
  abbrev pub RevertsBy : Option (Undo S) → S → S → Type 0
  RevertsBy none before after = view after ≡ view before
  RevertsBy (some u) before after =
      (s : S) → view s ≡ view after → (u false s).0 ≡ none → view (u false s).1 ≡ view before

  pub RevertsBy-Leads :
      (o : Option (Undo S)) (before after : S)
      → RevertsBy o before after
      → Leads (Shows after) (Shows before) o
  RevertsBy-Leads none before after r = λ s h. h ∙ r
  RevertsBy-Leads (some u) before after r = r
