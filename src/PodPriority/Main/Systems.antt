-- ===== src/PodPriority/Main/Systems.antt =====
-- Which pods are of the system, for the flag of main.
use mathlib.Core.Path.{subst}
use admission_controller.Base.{
  String, true, List, [], ◌∷◌, ◌++◌, ◌≡◌, refl, sym, ap, ◌↔◌, inl, inr, All, Any,
}
use admission_controller.Api.{Pod}
use admission_controller.Webhook.Volumes.{Algorithm}
use admission_controller.PodPriority.{new_admission_server, is_system_pod}
use admission_controller.PodPriority.Kinds.{is_system_pod_iff}
use admission_controller.PodPriority.Main.Split.{split, join, HasNoComma, split-eq_iff}

-- Where an entry stands in a list.
place-of :
    (n : String) (xs : List String)
    → Any (λ x. x ≡ n) xs
    → (before : List String) × (after : List String) × (xs ≡ before ++ n ∷ after)
place-of n [] h = absurd h
place-of n (x ∷ xs) (inl e) = ([], xs, ap (λ y. y ∷ xs) e)
place-of n (x ∷ xs) (inr h) =
    let (before, after, e) = place-of n xs h in (x ∷ before, after, ap (λ ys. x ∷ ys) e)

at_place : (n : String) (before after : List String) → Any (λ x. x ≡ n) (before ++ n ∷ after)
at_place n [] after = inl refl
at_place n (x ∷ before) after = inr (at_place n before after)

-- The parts before and after some part of a text
split-parts_iff :
    (s n : String) (before after : List String)
    → (split s ≡ before ++ n ∷ after)
      ↔ (All HasNoComma (before ++ n ∷ after) × (join (before ++ n ∷ after) ≡ s))
split-parts_iff s n [] after = split-eq_iff s n after
split-parts_iff s n (p ∷ before) after = split-eq_iff s p (before ++ n ∷ after)

-- The server that main makes takes a pod for one of the system exactly if the flag's text is a
-- sequence of texts without commas, joined by commas, of which the pod's namespace is one.
pub is_system_pod-split :
    (algorithm : Algorithm) (system_namespaces : String) (pod : Pod)
    → (is_system_pod (new_admission_server algorithm (split system_namespaces)) pod ≡ true) ↔ (
        (before : List String) × (after : List String) × All HasNoComma
          (before ++ pod.namespace ∷ after)
        × (join (before ++ pod.namespace ∷ after) ≡ system_namespaces))
is_system_pod-split algorithm s pod =
    let (found, of_found) = is_system_pod_iff algorithm (split s) pod in
    (
      (λ h.
          let (before, after, e) = place-of pod.namespace (split s) (found h) in
          let (commaless, joined) = (split-parts_iff s pod.namespace before after).0 e in
          (before, after, commaless, joined)),
      λ (before, after, commaless, joined). of_found (
          subst (Any λ n. n ≡ pod.namespace)
            (sym ((split-parts_iff s pod.namespace before after).1 (commaless, joined)))
            (at_place pod.namespace before after)),
    )
