-- ===== src/PodPriority/Kinds.antt =====
-- The kind of a pod, its class and its priority (pkg/podpriority).
use admission_controller.Base.{
  ℕ, ℤ, pos, ◌+◌, String, Bool, true, false, none, List, [], ◌∷◌, ok, ok-injective, ◌≡◌, ◌≢◌, refl,
  ◌↔◌, ◌⊎◌, inl, inr, Any, arith, eq_iff, ne_of_==, ◌∙◌, Bool-cases, Result-cases,
}
use admission_controller.Base.Dict
use admission_controller.Base.Dict.{Dict}
use admission_controller.Api.{Pod, annotation}
use admission_controller.Webhook.Volumes.{Algorithm}
use admission_controller.PodPriority.Classes.{
  PreCreatePriorityClass, pre_create_priority_class_list, get_priority_class_name_by_pod_type,
}
use admission_controller.PodPriority.{
  AdmissionServer, str_map, new_admission_server, critical_pod_ann, is_critical_pod, is_system_pod,
  is_pod_use_host_path_pv, type_str, get_pod_type_str,
}

-- What the three questions about a pod are worth.
abbrev points : Bool → ℕ → ℕ
points true n = n
points false n = 0

-- 5000 for the pods of the system; for the others 1000, 1000 more with a host path volume and 2000
-- more if they are critical.
abbrev pub points_of : Bool → Bool → Bool → ℕ
points_of true critical uses = 5000
points_of false critical uses = 1000 + points uses 1000 + points critical 2000

-- the class that a kind stands for is among those that are created
abbrev pub IsCreated : String × ℤ → Type 0
IsCreated (name, value) =
    Any (λ (p : PreCreatePriorityClass). (p.name ≡ name) × (p.value ≡ value))
      pre_create_priority_class_list

abbrev pub class_of : String → String × ℤ
class_of t = let (name, value, _) = get_priority_class_name_by_pod_type t in (name, value)

-- Every kind has a class of the list, also a kind that is not known.
pub class_of-IsCreated : (t : String) → IsCreated (class_of t)
unfolding get_priority_class_name_by_pod_type
class_of-IsCreated t = ground arith

IsCreated-ne : (c : String × ℤ) → IsCreated c → c.0 ≢ ""
IsCreated-ne (name, v) (inl (e, _)) = λ h. ne_of_== _ "" refl (e ∙ h)
IsCreated-ne (name, v) (inr (inl (e, _))) = λ h. ne_of_== _ "" refl (e ∙ h)
IsCreated-ne (name, v) (inr (inr (inl (e, _)))) = λ h. ne_of_== _ "" refl (e ∙ h)
IsCreated-ne (name, v) (inr (inr (inr (inl (e, _))))) = λ h. ne_of_== _ "" refl (e ∙ h)
IsCreated-ne (name, v) (inr (inr (inr (inr (inl (e, _)))))) = λ h. ne_of_== _ "" refl (e ∙ h)
IsCreated-ne (name, v) (inr (inr (inr (inr (inr h))))) = absurd h

-- No kind's class is the empty name.
pub class_of-ne : (t : String) → (class_of t).0 ≢ ""
class_of-ne t = IsCreated-ne (class_of t) (class_of-IsCreated t)

type_points :
    (critical uses : Bool)
    → (class_of (type_str critical uses)).1 ≡ pos (points_of false critical uses)
unfolding get_priority_class_name_by_pod_type type_str
type_points true true = refl
type_points true false = refl
type_points false true = refl
type_points false false = refl

-- A pod is critical exactly if it has the annotation with a value that is not empty.
pub is_critical_pod_iff :
    (pod : Pod) → (is_critical_pod pod ≡ true) ↔ (annotation pod.annotations critical_pod_ann ≢ "")
unfolding is_critical_pod annotation
is_critical_pod_iff pod = ground (arith, eq_iff (annotation pod.annotations critical_pod_ann) "")

module _ (s : AdmissionServer) (pod : Pod) where
  -- If the kind of a pod is found, the value of the kind's class is 5000 for a pod of the system; for
  -- another pod it is 1000, with 1000 more if the scan of its volumes says yes, and 2000 more if its
  -- critical-pod annotation has a value that is not empty, whichever it is.
  pub priority-points_of :
      (t : String)
      → get_pod_type_str s pod ≡ ok t
      → (uses : Bool) × ((is_system_pod s pod ≡ true) ⊎ (is_pod_use_host_path_pv s pod ≡ ok uses))
        × (critical : Bool) × ((critical ≡ true)
            ↔ (annotation pod.annotations critical_pod_ann ≢ ""))
        × ((class_of t).1 ≡ pos (points_of (is_system_pod s pod) critical uses))
  unfolding get_pod_type_str
  priority-points_of t h =
      let critical = is_critical_pod pod in
      let says = is_critical_pod_iff pod in
      elim (Bool-cases (is_system_pod s pod)) [
        | inl system ↦ (
          false,
          inl system,
          critical,
          says,
          rw (system, ← ok-injective (rw system at h))
              (unfold get_priority_class_name_by_pod_type in refl),
        )
        | inr user ↦ elim (Result-cases (is_pod_use_host_path_pv s pod)) [
          | inl (uses, e) ↦ (
            uses,
            inr e,
            critical,
            says,
            rw (user, ← ok-injective (rw (user, e) at h)) (type_points critical uses),
          )
          | inr (x, e) ↦ absurd (cc (rw (user, e) at h))
        ]
      ]

lookup-str_map :
    (k : String) (m : Dict (Unit {0})) (strs : List String)
    → (Dict.lookup k (str_map m strs) ≢ none)
      ↔ ((Dict.lookup k m ≢ none) ⊎ Any (λ str. str ≡ k) strs)
unfolding str_map
lookup-str_map k m [] = (inl, λ h. elim h [ inl p ↦ p | inr q ↦ absurd q ])
lookup-str_map k m (str ∷ strs) = ground (
  arith,
  lookup-str_map k (Dict.insert str tt m) strs,
  Dict.lookup-insert str k tt m,
  eq_iff str k,
)

-- A pod is of the system exactly if its namespace is one of those that the server was made with.
pub is_system_pod_iff :
    (algorithm : Algorithm) (namespaces : List String) (pod : Pod)
    → (is_system_pod (new_admission_server algorithm namespaces) pod ≡ true)
      ↔ Any (λ namespace. namespace ≡ pod.namespace) namespaces
unfolding is_system_pod new_admission_server
is_system_pod_iff algorithm namespaces pod = ground (
  arith,
  lookup-str_map pod.namespace [] namespaces,
  Dict.lookup-nil {V = Unit {0}} pod.namespace,
)
