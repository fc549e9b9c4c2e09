-- ===== src/PodPriority/Main/Split.antt =====
-- `strings.Split(s, ",")`, with which main reads the system namespaces.
use Prim.Native.Char.{Char, code}
use Prim.Native.String.{◌++◌ as push_str}
use mathlib.Core.Path.{subst}
use text.Mathlib.TextEquality.{Char-path}
use text.Mathlib.TextLemmas.{nil-append, cons-append}
use admission_controller.Base.{
  String, false, List, [], ◌∷◌, ◌≡◌, ◌≢◌, refl, sym, ◌∙◌, ◌↔◌, ap, arith, if◌then◌else◌, eqb,
  Bool-cases, inl, inr, All,
}

abbrev comma : Char
comma = ","

-- the first part, with one more character before it
abbrev pub longer : Char → List String → List String
longer c [] = String.◌∷◌ c String.[] ∷ []
longer c (part ∷ parts) = String.◌∷◌ c part ∷ parts

unfoldable pub split : String → List String
split String.[] = "" ∷ []
split (String.◌∷◌ c s) =
    let parts = split s in if eqb (code c) b',' then "" ∷ parts else longer c parts

-- no character of the text is a comma
abbrev pub HasNoComma : String → Type 0
HasNoComma String.[] = Unit
HasNoComma (String.◌∷◌ c s) = (code c ≢ b',') × HasNoComma s

-- `strings.Join(parts, ",")`
abbrev pub join : List String → String
join [] = ""
join (part ∷ []) = part
join (part ∷ other ∷ parts) = push_str part (String.◌∷◌ comma (join (other ∷ parts)))

join-longer : (c : Char) (parts : List String) → join (longer c parts) ≡ String.◌∷◌ c (join parts)
join-longer c [] = refl
join-longer c (part ∷ []) = refl
join-longer c (part ∷ other ∷ parts) = cons-append c part (String.◌∷◌ comma (join (other ∷ parts)))

abbrev IsNonempty : List String → Type 0
IsNonempty [] = ⊥
IsNonempty (_ ∷ _) = Unit

longer-IsNonempty : (c : Char) (parts : List String) → IsNonempty (longer c parts)
longer-IsNonempty c [] = tt
longer-IsNonempty c (_ ∷ _) = tt

split-IsNonempty : (s : String) → IsNonempty (split s)
unfolding split
split-IsNonempty String.[] = tt
split-IsNonempty (String.◌∷◌ c s) = elim (Bool-cases (eqb (code c) b',')) [
  | inl e ↦ rw e tt
  | inr e ↦ rw e (longer-IsNonempty c (split s))
]

join_empty-first :
    (parts : List String) → IsNonempty parts → join ("" ∷ parts) ≡ String.◌∷◌ comma (join parts)
join_empty-first [] h = absurd h
join_empty-first (part ∷ parts) h = nil-append _

join-split : (s : String) → join (split s) ≡ s
unfolding split
join-split String.[] = refl
join-split (String.◌∷◌ c s) = elim (Bool-cases (eqb (code c) b',')) [
  | inl e ↦
      let same : comma ≡ c = Char-path comma c (ground arith) in
      rw e (
        join_empty-first (split s) (split-IsNonempty s)
        ∙ ap (String.◌∷◌ comma) (join-split s)
        ∙ ap (λ d. String.◌∷◌ d s) same)
  | inr e ↦ rw e (join-longer c (split s) ∙ ap (String.◌∷◌ c) (join-split s))
]

longer-HasNoComma :
    (c : Char) (parts : List String)
    → code c ≢ b','
    → All HasNoComma parts
    → All HasNoComma (longer c parts)
longer-HasNoComma c [] h hs = ((h, tt), tt)
longer-HasNoComma c (part ∷ parts) h hs = ((h, hs.0), hs.1)

split-HasNoComma : (s : String) → All HasNoComma (split s)
unfolding split
split-HasNoComma String.[] = (tt, tt)
split-HasNoComma (String.◌∷◌ c s) = elim (Bool-cases (eqb (code c) b',')) [
  | inl e ↦ rw e (tt, split-HasNoComma s)
  | inr e ↦ rw e (longer-HasNoComma c (split s) (ground arith) (split-HasNoComma s))
]

split_last : (part : String) → HasNoComma part → split part ≡ part ∷ []
unfolding split
split_last String.[] h = refl
split_last (String.◌∷◌ c part) h =
    let other : eqb (code c) b',' ≡ false = ground (arith, h.0) in
    rw other (ap (longer c) (split_last part h.1))

split_first :
    (part rest : String)
    → HasNoComma part
    → split (push_str part (String.◌∷◌ comma rest)) ≡ part ∷ split rest
unfolding split
split_first String.[] rest h = ap split (nil-append (String.◌∷◌ comma rest))
split_first (String.◌∷◌ c part) rest h =
    let other : eqb (code c) b',' ≡ false = ground (arith, h.0) in
    ap split (cons-append c part (String.◌∷◌ comma rest))
    ∙ rw other (ap (longer c) (split_first part rest h.1))

split-join :
    (part : String) (parts : List String)
    → All HasNoComma (part ∷ parts)
    → split (join (part ∷ parts)) ≡ part ∷ parts
split-join part [] h = split_last part h.0
split-join part (other ∷ parts) h =
    split_first part (join (other ∷ parts)) h.0 ∙ ap (λ r. part ∷ r) (split-join other parts h.1)

-- The parts of a text are exactly the texts without a comma, at least one, that are the text when they
-- are joined by commas.
pub split-eq_iff :
    (s part : String) (parts : List String)
    → (split s ≡ part ∷ parts) ↔ (All HasNoComma (part ∷ parts) × (join (part ∷ parts) ≡ s))
split-eq_iff s part parts = (
  (λ e. (subst (All HasNoComma) e (split-HasNoComma s), sym (ap join e) ∙ join-split s)),
  λ (h, e). sym (ap split e) ∙ split-join part parts h,
)
