-- ===== src/Base/Dict.antt =====
-- Go's `map[string]V`, as an association list: reading, writing and deleting a key. The program
-- never ranges over such a map, so the order of entries stands for nothing.
use admission_controller.Base.Tests.{◌==◌, if◌then◌else◌}
use Prim.Native.String.{String}
use mathlib.Core.Path.{◌≡◌, refl}
use mathlib.Core.Option.{Option, none, some}
use mathlib.Core.List.{List, [], ◌∷◌}
use native.Mathlib.Omega.{arith}
use text.Mathlib.TextEquality.{eq_iff}

abbrev pub Dict {ℓ} : Type ℓ → Type ℓ
Dict V = List (String × V)

module _ {ℓ} {V : Type ℓ} where
  -- `value, ok := m[key]`
  unfoldable pub lookup : String → Dict V → Option V
  lookup key [] = none
  lookup key ((name, value) ∷ entries) = if name == key then some value else lookup key entries

  -- `m[key] = value`
  unfoldable pub insert : String → V → Dict V → Dict V
  insert key value [] = (key, value) ∷ []
  insert key value ((name, old) ∷ entries) =
      let written = insert key value entries in
      if name == key then (key, value) ∷ entries else (name, old) ∷ written

  -- `delete(m, k)`. Every entry of the key goes; a map has at most one.
  unfoldable pub delete : String → Dict V → Dict V
  delete k [] = []
  delete k ((j, w) ∷ m) = let rest = delete k m in if j == k then rest else (j, w) ∷ rest

  pub lookup-nil : (k : String) → lookup k [] ≡ none
  unfolding lookup
  lookup-nil k = refl

  -- Reading after a write, at the same key or at another.
  pub lookup-insert :
      (key other : String) (value : V) (m : Dict V)
      → lookup other (insert key value m) ≡ (if key == other then some value else lookup other m)
  unfolding insert lookup
  lookup-insert key other value [] = refl
  lookup-insert key other value ((name, old) ∷ entries) = ground (
    lookup-insert key other value entries,
    eq_iff name other,
    eq_iff name key,
    eq_iff key other,
    arith,
  )

  pub lookup-delete :
      (k j : String) (m : Dict V) → lookup j (delete k m) ≡ (if k == j then none else lookup j m)
  unfolding lookup delete
  lookup-delete k j [] = ground arith
  lookup-delete k j ((i, w) ∷ m) =
      ground (arith, lookup-delete k j m, eq_iff i k, eq_iff i j, eq_iff k j)

  -- Deleting a key undoes writing it.
  pub delete-insert : (k : String) (v : V) (m : Dict V) → delete k (insert k v m) ≡ delete k m
  unfolding delete insert
  delete-insert k v [] = ground (arith, eq_iff k k)
  delete-insert k v ((i, w) ∷ m) = ground (arith, delete-insert k v m, eq_iff i k, eq_iff k k)

  -- Deleting a key that is not there changes nothing.
  pub delete_absent : (k : String) (m : Dict V) → lookup k m ≡ none → delete k m ≡ m
  unfolding delete lookup
  delete_absent k [] h = refl
  delete_absent k ((i, w) ∷ m) h = ground (arith, delete_absent k m)

  -- Deletions commute with one another and with writes to another key.
  pub delete_comm : (k j : String) (m : Dict V) → delete k (delete j m) ≡ delete j (delete k m)
  unfolding delete
  delete_comm k j [] = refl
  delete_comm k j ((i, w) ∷ m) = ground (arith, delete_comm k j m)

pub ruleset dict_laws = (lookup-insert, lookup-delete)
