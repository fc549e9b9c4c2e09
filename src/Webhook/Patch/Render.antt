-- ===== src/Webhook/Patch/Render.antt =====
-- What createPatch produces: a JSON array of the operations, each written once, in the order of
-- their paths.
use mathlib.Core.Path.{ap, ◌∙◌}
use mathlib.Core.Bool.{Bool, true, false}
use mathlib.Core.List.{append-nil, append_assoc}
use admission_controller.Base.{
  ℕ, suc, ◌+◌, ◌-◌, ◌≡◌, refl, inl, inr, List, [], ◌∷◌, ◌++◌, Bytes, Result, ok, err, ◌>>=◌, length,
  ltb, arith, Result-cases, if◌then◌else◌, Error,
}
use admission_controller.Webhook.Patch.{
  JsonPatch, open_bracket, close_bracket, comma, write_operations, create_patch,
}

-- The texts, with a comma between each two.
abbrev pub comma_separated : List Bytes → Bytes
comma_separated [] = []
comma_separated (x ∷ []) = x
comma_separated (x ∷ y ∷ ys) = x ++ comma ∷ comma_separated (y ∷ ys)

-- A JSON array of the texts.
abbrev pub json_array : List Bytes → Bytes
json_array xs = open_bracket ∷ (comma_separated xs ++ close_bracket ∷ [])

module _ (lib : JsonPatch) where
  open lib use {Operation, sort_by_path, marshal_json}

  -- Every operation's text, or the error of the first that has none.
  unfoldable pub marshal_all : List Operation → Result (List Bytes)
  marshal_all [] = ok []
  marshal_all (operation ∷ operations) = do
    x ← marshal_json operation
    xs ← marshal_all operations
    ok (x ∷ xs)

  abbrev appended : Bytes → Result (List Bytes) → Result Bytes
  appended b (ok xs) = ok (b ++ comma_separated xs)
  appended b (err e) = err e

  appended-cons :
      (b x : Bytes) (next : Operation) (operations : List Operation)
      → appended ((b ++ x) ++ comma ∷ []) (marshal_all (next ∷ operations))
        ≡ appended b (marshal_all (next ∷ operations) >>= λ xs. ok (x ∷ xs))
  unfolding marshal_all
  appended-cons b x next operations = elim (Result-cases (marshal_json next)) [
    | inl (y, e) ↦ rw e (elim (Result-cases (marshal_all operations)) [
      | inl (ys, e') ↦ rw e' (ap ok (append_assoc (b ++ x) _ _ ∙ append_assoc b x _))
      | inr (_, e') ↦ rw e'
    ])
    | inr (_, e) ↦ rw e
  ]

  -- a comma follows every operation but the last
  comma_after : (i l n : ℕ) → l ≡ i + suc (suc n) → ltb i (l - 1) ≡ true
  comma_after i l n h = ground arith

  no_comma_after : (i l : ℕ) → l ≡ i + 1 → ltb i (l - 1) ≡ false
  no_comma_after i l h = ground arith

  -- one round of the loop
  write_operations-cons :
      (i l : ℕ) (b x : Bytes) (comes : Bool) (operation : Operation) (operations : List Operation)
      → marshal_json operation ≡ ok x
      → ltb i (l - 1) ≡ comes
      → write_operations lib i l b (operation ∷ operations)
        ≡ write_operations lib
            (suc i)
            l
            (if comes then (b ++ x) ++ comma ∷ [] else b ++ x)
            operations
  unfolding write_operations
  write_operations-cons i l b x comes operation operations e h = rw (e, write_operations) (rw (← h))

  write_operations-fails :
      (i l : ℕ) (b : Bytes) (x : Error) (operation : Operation) (operations : List Operation)
      → marshal_json operation ≡ err x
      → write_operations lib i l b (operation ∷ operations) ≡ err x
  unfolding write_operations
  write_operations-fails i l b x operation operations e = rw (e, write_operations)

  marshal_all-cons :
      (x : Bytes) (operation : Operation) (operations : List Operation)
      → marshal_json operation ≡ ok x
      → marshal_all (operation ∷ operations) ≡ (marshal_all operations >>= λ xs. ok (x ∷ xs))
  unfolding marshal_all
  marshal_all-cons x operation operations e = rw e

  marshal_all-fails :
      (x : Error) (operation : Operation) (operations : List Operation)
      → marshal_json operation ≡ err x
      → marshal_all (operation ∷ operations) ≡ err x
  unfolding marshal_all
  marshal_all-fails x operation operations e = rw e

  write_operations-eq :
      (i l : ℕ) (b : Bytes) (operations : List Operation)
      → l ≡ i + length operations
      → write_operations lib i l b operations ≡ appended b (marshal_all operations)
  write_operations-eq i l b [] h = unfold marshal_all write_operations in rw append-nil
  write_operations-eq i l b (operation ∷ []) h = elim (Result-cases (marshal_json operation)) [
    | inl (x, e) ↦
        rw
          (
            write_operations-cons i l b x false operation [] e (no_comma_after i l (omega arith)),
            marshal_all-cons x operation [] e,
          )
          (unfold marshal_all write_operations in refl)
    | inr (x, e) ↦
        rw (write_operations-fails i l b x operation [] e, marshal_all-fails x operation [] e)
  ]
  write_operations-eq i l b (operation ∷ next ∷ operations) h =
      elim (Result-cases (marshal_json operation)) [
        | inl (x, e) ↦
            rw
              (
                write_operations-cons i l b x true operation (next ∷ operations) e
                    (comma_after i l (length operations) (omega arith)),
                marshal_all-cons x operation (next ∷ operations) e,
              )
              (write_operations-eq (suc i) l ((b ++ x) ++ comma ∷ []) (next ∷ operations)
                  (omega arith)
                ∙ appended-cons b x next operations)
        | inr (x, e) ↦ rw (
          write_operations-fails i l b x operation (next ∷ operations) e,
          marshal_all-fails x operation (next ∷ operations) e,
        )
      ]

  closed :
      (r : Result (List Bytes))
      → (appended (open_bracket ∷ []) r >>= λ b. ok (b ++ close_bracket ∷ []))
        ≡ (r >>= λ xs. ok (json_array xs))
  closed (ok xs) = refl
  closed (err e) = refl

  -- createPatch yields the JSON array of the sorted operations, or the error of the library or of
  -- the first operation in that order that cannot be marshalled.
  pub create_patch-json_array :
      (old_pod new_pod : Bytes)
      → create_patch lib old_pod new_pod ≡ (
          lib.create_patch old_pod new_pod >>= λ operations.
          marshal_all (sort_by_path operations) >>= λ xs. ok (json_array xs))
  unfolding create_patch
  create_patch-json_array old_pod new_pod = elim (Result-cases (lib.create_patch old_pod new_pod)) [
    | inl (operations, e) ↦
        let sorted = sort_by_path operations in
        rw e (
          rw (write_operations-eq 0 (length sorted) (open_bracket ∷ []) sorted (omega arith))
            (closed (marshal_all sorted)))
    | inr (x, e) ↦ rw e
  ]
