-- ===== src/Webhook/Patch.antt =====
-- createPatch (pkg/hostpathpvresource/server.go): the JSON patch from the old object to the new.
-- The patch library and the order that it sorts by are parameters.
pub mod Render
use admission_controller.Base.{
  ℕ, suc, ◌-◌, List, [], ◌∷◌, ◌++◌, Bytes, Result, ok, err, ◌>>=◌, length, ltb, if◌then◌else◌,
}

-- github.com/mattbaird/jsonpatch, and `sort.Sort(jsonpatch.ByPath(ops))`
pub record JsonPatch : Type 1 where
  pub Operation : Type 0
  pub create_patch : Bytes → Bytes → Result (List Operation)
  pub sort_by_path : List Operation → List Operation
  pub marshal_json : Operation → Result Bytes

abbrev pub open_bracket : ℕ
open_bracket = b'['

abbrev pub close_bracket : ℕ
close_bracket = b']'

abbrev pub comma : ℕ
comma = b','

module _ (lib : JsonPatch) where
  open lib use {Operation, sort_by_path, marshal_json}

  -- The loop over the operations: `i` is the index, `l` their number, `b` the buffer. Inside the
  -- loop `l` is at least 1, so `l - 1` is what Go computes.
  unfoldable pub write_operations : ℕ → ℕ → Bytes → List Operation → Result Bytes
  write_operations i l b [] = ok b
  write_operations i l b (operation ∷ operations) = elim (marshal_json operation) [
    | err e ↦ err e
    | ok buf ↦
        write_operations (suc i) l (if ltb i (l - 1) then (b ++ buf) ++ comma ∷ [] else b ++ buf)
          operations
  ]

  unfoldable pub create_patch : Bytes → Bytes → Result Bytes
  unfolding write_operations
  create_patch old_pod new_pod = do
    operations ← lib.create_patch old_pod new_pod
    let sorted = sort_by_path operations
    b ← write_operations 0 (length sorted) (open_bracket ∷ []) sorted
    ok (b ++ close_bracket ∷ [])
