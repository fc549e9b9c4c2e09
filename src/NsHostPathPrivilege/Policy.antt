-- ===== src/NsHostPathPrivilege/Policy.antt =====
-- The policy that pkg/nshostpathprivilege enforces.
use admission_controller.Base.{
  String, true, Option, none, some, List, [], ◌∷◌, Bytes, Error, Result, ok, err, ◌≡◌, ◌≢◌, refl,
  ◌↔◌, ◌∙◌, ◌⊎◌, inl, inr, Any, ne_of_==, not, sym, ok-injective, arith, eq_iff, Result-cases,
}
use admission_controller.Api.{
  Pod, Volume, Container, SecurityContext, Namespace, Annotations, annotation, AdmissionRequest,
  AdmissionResponse, AdmissionReview, status_internal_server_error,
}
use admission_controller.Webhook.Response.{to_admission_response, allow_admission_response}
use admission_controller.Webhook.Guards.{
  IsFor, guarded, guarded-some, serve-guarded, create_or_update, guarded_two,
}
use admission_controller.Webhook.Patched.{
  IsDecision, error-IsDecision, allow-IsDecision, if-IsDecision, allowed-error,
}
use mathlib.Core.Path.{subst}
use admission_controller.Webhook.Serve.{Transport, Request}
use admission_controller.Webhook.Serve.Events.{IsPanic, Decodes}
use admission_controller.NsHostPathPrivilege.Lookup.{get_namespace}
use admission_controller.NsHostPathPrivilege.{
  AdmissionServer, namespace_allow_host_path_ann, namespace_allow_privilege_ann, host_path_volume,
  is_pod_use_host_path, is_privileged, annotations_allow, privileged_container, is_pod_privilge,
  allows, is_namespace_allow_host_path, is_namespace_allow_privilege, pod_resource, check_pod,
  check_privilege, review, admit, serve,
}

-- A volume of the pod is a host path.
abbrev pub UsesHostPath : Pod → Type 0
UsesHostPath pod = Any (λ (v : Volume). v.host_path ≢ none) pod.volumes

-- The container asks to be privileged.
abbrev pub IsPrivileged : Container → Type 0
IsPrivileged c =
    (sc : SecurityContext) × (c.security_context ≡ some sc) × (sc.privileged ≡ some true)

-- A container or an init container of the pod is privileged.
abbrev pub UsesPrivilege : Pod → Type 0
UsesPrivilege pod = Any IsPrivileged pod.containers ⊎ Any IsPrivileged pod.init_containers

-- The namespace was found, and its annotation says "true".
abbrev pub Allows : String → Option Namespace → Type 0
Allows key none = ⊥
Allows key (some ns) = annotation ns.annotations key ≡ "true"

host_path_volume_iff :
    (vs : List Volume) → (host_path_volume vs ≡ true) ↔ Any (λ (v : Volume). v.host_path ≢ none) vs
unfolding host_path_volume
host_path_volume_iff [] = (λ e. cc, λ h. absurd h)
host_path_volume_iff (v ∷ vs) = ground (arith, host_path_volume_iff vs)

is_privileged_iff : (c : Container) → (is_privileged c ≡ true) ↔ IsPrivileged c
unfolding is_privileged
is_privileged_iff c = ground arith

privileged_container_iff :
    (cs : List Container) → (privileged_container cs ≡ true) ↔ Any IsPrivileged cs
unfolding privileged_container
privileged_container_iff [] = (λ e. cc, λ h. absurd h)
privileged_container_iff (c ∷ cs) = ground (arith, privileged_container_iff cs, is_privileged_iff c)

is_pod_use_host_path_iff : (pod : Pod) → (is_pod_use_host_path (some pod) ≡ true) ↔ UsesHostPath pod
unfolding is_pod_use_host_path
is_pod_use_host_path_iff pod = host_path_volume_iff pod.volumes

is_pod_privilge_iff : (pod : Pod) → (is_pod_privilge (some pod) ≡ true) ↔ UsesPrivilege pod
unfolding is_pod_privilge
is_pod_privilge_iff pod =
    ground
      (arith, privileged_container_iff pod.containers, privileged_container_iff pod.init_containers)

annotations_allow_iff :
    (key : String) (a : Annotations)
    → (annotations_allow key a ≡ true) ↔ (annotation a key ≡ "true")
unfolding annotations_allow
annotations_allow_iff key none =
    (λ e. cc, λ h. absurd (ne_of_== "" "true" refl (unfold annotation in h)))
annotations_allow_iff key (some m) = ground (arith, eq_iff (annotation (some m) key) "true")

allows_iff : (key : String) (ns : Option Namespace) → (allows key ns ≡ true) ↔ Allows key ns
unfolding allows
allows_iff key none = (λ e. cc, λ h. absurd h)
allows_iff key (some ns) = annotations_allow_iff key ns.annotations

-- what the policy asks of a pod and of its namespace
abbrev pub Permitted : Pod → Option Namespace → Type 0
Permitted pod ns =
    (UsesHostPath pod → Allows namespace_allow_host_path_ann ns)
    × (UsesPrivilege pod → Allows namespace_allow_privilege_ann ns)

-- The check allows a pod exactly if it is permitted: if it uses host paths the namespace was found
-- and allows them, and if it is privileged the namespace was found and allows that.
pub check_pod_iff :
    (pod : Pod) (ns : Option Namespace) (e : Option Error)
    → ((check_pod pod ns e).allowed ≡ true) ↔ Permitted pod ns
unfolding check_pod check_privilege is_namespace_allow_host_path is_namespace_allow_privilege
    to_admission_response allow_admission_response
check_pod_iff pod none e = ground (arith, is_pod_use_host_path_iff pod, is_pod_privilge_iff pod)
check_pod_iff pod (some ns) e = ground (
  arith,
  is_pod_use_host_path_iff pod,
  is_pod_privilge_iff pod,
  allows_iff namespace_allow_host_path_ann (some ns),
  allows_iff namespace_allow_privilege_ann (some ns),
)

check_privilege-IsDecision :
    (pod : Pod) (ns : Option Namespace) (e : Option Error) → IsDecision (check_privilege pod ns e)
unfolding check_privilege
check_privilege-IsDecision pod none e =
    if-IsDecision (is_pod_privilge (some pod)) _ _ (error-IsDecision _) allow-IsDecision
check_privilege-IsDecision pod (some ns) e =
    if-IsDecision (is_pod_privilge (some pod)) _ _
      (if-IsDecision (not (is_namespace_allow_privilege (some ns))) _ _ (error-IsDecision _)
        allow-IsDecision)
      allow-IsDecision

check_pod-IsDecision :
    (pod : Pod) (ns : Option Namespace) (e : Option Error) → IsDecision (check_pod pod ns e)
unfolding check_pod
check_pod-IsDecision pod none e =
    if-IsDecision (is_pod_use_host_path (some pod)) _ _ (error-IsDecision _)
      (check_privilege-IsDecision pod none e)
check_pod-IsDecision pod (some ns) e =
    if-IsDecision (is_pod_use_host_path (some pod)) _ _
      (if-IsDecision (not (is_namespace_allow_host_path (some ns))) _ _ (error-IsDecision _)
        (check_privilege-IsDecision pod (some ns) e))
      (check_privilege-IsDecision pod (some ns) e)

-- The request is to create or update a pod.
abbrev pub IsForPods : AdmissionReview → Type 0
IsForPods = IsFor pod_resource create_or_update

module _ (unmarshal_pod : Bytes → Result Pod) (s : AdmissionServer) where
  review_cases {ℓ} :
      (P : AdmissionResponse → Type ℓ) (request : AdmissionRequest)
      → ((e : Error)
          → unmarshal_pod request.object_raw ≡ err e
          → P (to_admission_response e status_internal_server_error))
      → ((pod : Pod)
          → unmarshal_pod request.object_raw ≡ ok pod
          → let found = (get_namespace s.cluster request.namespace).0 in
            P (check_pod pod found.0 found.1))
      → P (review unmarshal_pod s request)
  unfolding review
  review_cases P request bad good = elim (Result-cases (unmarshal_pod request.object_raw)) [
    | inr (e, h) ↦ rw (h, review) (bad e h)
    | inl (pod, h) ↦ rw (h, review) (good pod h)
  ]

  -- Every review of this webhook is allowed without a patch or an error, or refused with the code
  -- 500.
  pub review-IsDecision : (request : AdmissionRequest) → IsDecision (review unmarshal_pod s request)
  review-IsDecision request =
      review_cases IsDecision request (λ e h. error-IsDecision e)
        (λ pod h. check_pod-IsDecision pod _ _)

  -- A review is allowed exactly if its object decodes to a pod that is permitted in the namespace
  -- of the request, as getNamespace finds it.
  pub review-allowed_iff :
      (request : AdmissionRequest)
      → ((review unmarshal_pod s request).allowed ≡ true) ↔ (
          (pod : Pod) × (unmarshal_pod request.object_raw ≡ ok pod)
          × Permitted pod (get_namespace s.cluster request.namespace).0.0)
  review-allowed_iff request =
      review_cases
        (λ a. (a.allowed ≡ true) ↔ (
          (pod : Pod) × (unmarshal_pod request.object_raw ≡ ok pod)
          × Permitted pod (get_namespace s.cluster request.namespace).0.0))
        request (λ e h. (λ a. cc (a, allowed-error e 500), λ (pod, u, _). cc (u, h)))
        (λ pod h.
          let found = (get_namespace s.cluster request.namespace).0 in
          let checked = check_pod_iff pod found.0 found.1 in
          (
            λ a. (pod, h, checked.0 a),
            λ (pod', u, p).
                checked.1 (subst (λ q. Permitted q found.0) (ok-injective (sym u ∙ h)) p),
          ))

  admit-guarded :
      (ar : AdmissionReview)
      → admit unmarshal_pod s ar ≡ guarded pod_resource create_or_update (review unmarshal_pod s) ar
  unfolding admit
  admit-guarded ar = guarded_two pod_resource (review unmarshal_pod s) ar

  -- A request to create or update a pod is answered by its review.
  pub admit-review :
      (ar : AdmissionReview) (h : IsForPods ar)
      → admit unmarshal_pod s ar ≡ some (review unmarshal_pod s h.0)
  admit-review ar h = admit-guarded ar ∙ guarded-some _ _ _ ar h

  -- The server panics exactly on a JSON request that decodes to a review which does not ask to
  -- create or update a pod.
  pub serve-panics_iff_unchecked :
      (t : Transport) (r : Request)
      → IsPanic (serve unmarshal_pod s t r)
        ↔ ((ar : AdmissionReview) × Decodes t r ar × (¬ IsForPods ar))
  unfolding serve
  serve-panics_iff_unchecked t r =
      serve-guarded pod_resource create_or_update (review unmarshal_pod s) t (admit unmarshal_pod s)
        r admit-guarded
