-- ===== src/HppvToCsiPv/Upgrade/Engine.antt =====
-- UpdatePipeline.Run and TimeOut: steps in order, and then the undo actions in reverse order. `S` is
-- what the steps change. What `select` finds before each step is a parameter.
use admission_controller.Base.{
  ℕ, suc, ◌+◌, String, Bool, true, false, Option, none, some, List, [], ◌∷◌, Error, errorf, concat,
}

-- what `select` finds before a step; of two channels that are ready it takes either
pub data Poll : Type 0 where
  nothing timed_out stopped : Poll

-- UndoAction
abbrev pub Undo : Type 0 → Type 0
Undo S = Bool → S → Option Error × S

-- the three results of an Action
pub record Outcome (S : Type 0) : Type 0 where
  pub continues : Bool
  pub undo : Option (Undo S)
  pub failure : Option Error

-- Action
abbrev pub Action : Type 0 → Type 0
Action S = S → Outcome S × S

pub record PipelineStep (S : Type 0) : Type 0 where
  pub name : String
  pub action : Action S
  pub time_out : ℕ  -- nanoseconds

-- TimeOut
unfoldable pub total_time_out : {S : Type 0} → List (PipelineStep S) → ℕ
total_time_out [] = 0
total_time_out (s ∷ steps) = s.time_out + total_time_out steps

abbrev pub exit_ok : Option Error → Bool
exit_ok none = true
exit_ok (some e) = false

abbrev pub add_error : Option Error → List Error → List Error
add_error none errs = errs
add_error (some e) errs = e ∷ errs

abbrev pub push : {S : Type 0} → Option (Undo S) → List (Undo S) → List (Undo S)
push none undo_actions = undo_actions
push (some u) undo_actions = u ∷ undo_actions

module _ {S : Type 0} where
  -- The loop of the deferred `undo`. The slice of undo actions is a stack here, the last one first,
  -- so going down from the last index is going through the list. The errors are only logged.
  unfoldable pub recover : Bool → List (Undo S) → S → List Error × S
  recover ok [] s = ([], s)
  recover ok (u ∷ undo_actions) s =
      let (err, s') = u ok s in
      let (errs, s'') = recover ok undo_actions s' in (add_error err errs, s'')

abbrev pub pipeline_error : String → String → Error
pipeline_error pv_name what = errorf (concat ("UpdatePipeline [" ∷ pv_name ∷ "]: " ∷ what ∷ []))

module _ {S : Type 0} (pv_name : String) (poll : ℕ → Poll) where
  -- The loop over the steps, from step `i`: the value of `ret` after it, the undo actions and the
  -- state.
  unfoldable pub run_steps :
      List (PipelineStep S) → ℕ → List (Undo S) → S → Option Error × List (Undo S) × S
  run_steps [] i undo_actions s = (none, undo_actions, s)
  run_steps (step ∷ steps) i undo_actions s = elim (poll i) [
    | timed_out ↦ (some (pipeline_error pv_name "timeout"), undo_actions, s)
    | stopped ↦ (some (pipeline_error pv_name "stopped"), undo_actions, s)
    | nothing ↦
        let (o, s') = step.action s in
        elim o.failure [
          | some e ↦ (some e, push o.undo undo_actions, s')
          | none ↦ elim o.continues [
            | false ↦ (none, push o.undo undo_actions, s')
            | true ↦ run_steps steps (suc i) (push o.undo undo_actions) s'
          ]
        ]
  ]

  -- Run: what is sent on `ret`, the errors of the undo actions, and the state.
  unfoldable pub run : List (PipelineStep S) → S → Option Error × List Error × S
  run steps s =
      let (ret, undo_actions, s') = run_steps steps 0 [] s in
      let (errs, s'') = recover (exit_ok ret) undo_actions s' in (ret, errs, s'')
