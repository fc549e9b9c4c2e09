-- ===== src/Common/Certs/Cut.antt =====
-- What readFile makes of a file that is not as long as its buffer.
use mathlib.Core.List.{append-nil}
use admission_controller.Base.{
  ℕ, zero, suc, ◌-◌, ◌≤◌, String, [], ◌∷◌, ◌++◌, Bytes, ok, ◌≡◌, refl, sym, ap, ◌∙◌, ◌↔◌, length,
  length-append, arith,
}
use admission_controller.Common.Certs.{Files, zeros, filled, read_file}

-- the first bytes of a text
abbrev pub take : ℕ → Bytes → Bytes
take zero xs = []
take (suc n) [] = []
take (suc n) (x ∷ xs) = x ∷ take n xs

length-zeros : (n : ℕ) → length (zeros n) ≡ n
length-zeros zero = refl
length-zeros (suc n) = ap suc (length-zeros n)

length-take : (n : ℕ) (xs : Bytes) → length (take n xs) ≤ n
length-take zero xs = omega arith
length-take (suc n) [] = omega arith
length-take (suc n) (x ∷ xs) = omega (arith, length-take n xs)

take_all : (n : ℕ) (xs : Bytes) → length xs ≤ n → take n xs ≡ xs
take_all zero [] h = refl
take_all zero (x ∷ xs) h = absurd (omega arith)
take_all (suc n) [] h = refl
take_all (suc n) (x ∷ xs) h = ap (λ r. x ∷ r) (take_all n xs (omega arith))

length-filled : (n : ℕ) (xs : Bytes) → length xs ≤ n → length (filled n xs) ≡ n
length-filled n xs h =
    omega (arith, length-append xs (zeros (n - length xs)), length-zeros (n - length xs))

-- the room that the first bytes leave
minus_take : (n : ℕ) (xs : Bytes) → n - length (take n xs) ≡ n - length xs
minus_take zero xs = omega arith
minus_take (suc n) [] = refl
minus_take (suc n) (x ∷ xs) = omega (arith, minus_take n xs)

module _ (files : Files) (file_path : String) (file : files.File) (content : Bytes)
    (opened : files.open_file file_path ≡ ok file) (content_not_empty : 1 ≤ length content)
    (reads : (n : ℕ) → 1 ≤ n → files.read file n ≡ ok (take n content)) where
  read_file-filled : read_file files file_path ≡ filled 5000 (take 5000 content)
  unfolding read_file
  read_file-filled = rw (opened, read_file) (rw (reads 5000 (omega arith)) refl)

  pub length-read_file : length (read_file files file_path) ≡ 5000
  length-read_file =
      rw read_file-filled (length-filled 5000 (take 5000 content) (length-take 5000 content))

  -- For a file that opens and is not empty, and whose Read puts its first bytes into a buffer that is
  -- not empty, `readFile` returns the first 5000 bytes of the content with zeros up to 5000 bytes after
  -- them, so the content itself exactly if that is 5000 bytes long.
  pub read_file-eq_iff :
      (read_file files file_path ≡ take 5000 content ++ zeros (5000 - length content))
      × ((read_file files file_path ≡ content) ↔ (length content ≡ 5000))
  read_file-eq_iff = (
    read_file-filled ∙ ap (λ n. take 5000 content ++ zeros n) (minus_take 5000 content),
    (
      (λ same. sym (ap length same) ∙ length-read_file),
      λ full.
          read_file-filled
          ∙ ap (filled 5000) (take_all 5000 content (omega (arith, full)))
          ∙ ap (λ n. content ++ zeros (5000 - n)) full
          ∙ append-nil content,
    ),
  )
