-- ===== src/Admission/Mutations.antt =====
-- What the two mutating webhooks make of the pod of a request, when they allow it and the API server
-- has applied their patches.
use admission_controller.Base.{
  String, Bool, true, false, some, Result, ok, err, ◌≡◌, refl, sym, ap, ◌∙◌, List, Bytes,
  ok-injective, inl, inr, Result-cases, Bool-cases, eq_iff, ◌≢◌, ◌==◌, if◌then◌else◌,
}
use admission_controller.Api.{Pod, AdmissionRequest, AdmissionResponse}
use admission_controller.Webhook.Patch.{JsonPatch, create_patch}
use admission_controller.Webhook.Patch.Render.{marshal_all, json_array, create_patch-json_array}
use admission_controller.Webhook.Patched.{
  patch_response, patch_response_ok, allowed-patch_response, allowed-error, patch-allow,
}
use admission_controller.Webhook.Volumes.{PodCodec}
use admission_controller.HostPathPvResource
use admission_controller.HostPathPvResource.{is_pod_used_host_path_pv, schedule}
use admission_controller.HostPathPvResource.Decisions.{inspected}
use admission_controller.PodPriority
use admission_controller.PodPriority.{get_pod_type_str, classify, review_pod}
use admission_controller.PodPriority.Kinds.{class_of, class_of-ne}
use admission_controller.Admission.{Patching, IsRelabelled, Encodes, after}

-- the pod with the scheduler, if it uses a host path volume
abbrev pub scheduled_if : String → Pod → Result Bool → Pod
scheduled_if scheduler pod (ok true) = record pod { scheduler_name = scheduler }
scheduled_if scheduler pod (ok false) = pod
scheduled_if scheduler pod (err e) = pod

abbrev pub scheduled : HostPathPvResource.AdmissionServer → AdmissionRequest → Pod → Pod
scheduled s request pod =
    scheduled_if s.scheduler pod (is_pod_used_host_path_pv s (inspected request pod))

-- the pod with the class of its kind
abbrev pub classified_as : Pod → Result String → Pod
classified_as pod (ok type) = record pod {
  priority_class_name = (class_of type).0;
  priority = some (class_of type).1;
}
classified_as pod (err e) = pod

-- the pod with the class of its kind, if it names none
abbrev pub classified : PodPriority.AdmissionServer → AdmissionRequest → Pod → Pod
classified s request pod =
    if pod.priority_class_name == ""
    then classified_as pod (get_pod_type_str s (inspected request pod))
    else pod

scheduled_if-IsRelabelled :
    (scheduler : String) (pod : Pod) (used : Result Bool)
    → IsRelabelled pod (scheduled_if scheduler pod used)
scheduled_if-IsRelabelled scheduler pod (ok true) =
    (scheduler, pod.priority_class_name, pod.priority, refl)
scheduled_if-IsRelabelled scheduler pod (ok false) =
    (pod.scheduler_name, pod.priority_class_name, pod.priority, refl)
scheduled_if-IsRelabelled scheduler pod (err e) =
    (pod.scheduler_name, pod.priority_class_name, pod.priority, refl)

classified_as-IsRelabelled :
    (pod : Pod) (type : Result String) → IsRelabelled pod (classified_as pod type)
classified_as-IsRelabelled pod (ok type) =
    (pod.scheduler_name, (class_of type).0, some (class_of type).1, refl)
classified_as-IsRelabelled pod (err e) =
    (pod.scheduler_name, pod.priority_class_name, pod.priority, refl)

-- what createPatch has put together, if it succeeds
made_of :
    (lib : JsonPatch) (raw json p : Bytes)
    → create_patch lib raw json ≡ ok p
    → (operations : List lib.Operation) × (xs : List Bytes) × (lib.create_patch raw json
        ≡ ok operations)
      × (marshal_all lib (lib.sort_by_path operations) ≡ ok xs)
      × (json_array xs ≡ p)
made_of lib raw json p made =
    let parts = sym (create_patch-json_array lib raw json) ∙ made in
    elim (Result-cases (lib.create_patch raw json)) [
      | inr (e, h) ↦ absurd (cc (rw h at parts))
      | inl (operations, h) ↦ elim (Result-cases (marshal_all lib (lib.sort_by_path operations))) [
        | inr (e, g) ↦ absurd (cc (rw (h, g) at parts))
        | inl (xs, g) ↦ (operations, xs, h, g, ok-injective (rw (h, g) at parts))
      ]
    ]

module _ {codec : PodCodec} {lib : JsonPatch} (patching : Patching codec lib) where
  abbrev E : AdmissionRequest → Pod → Type 0
  E = Encodes patching

  patch_response-Encodes :
      (request : AdmissionRequest) (pod pod' : Pod)
      → E request pod
      → IsRelabelled pod pod'
      → (patch_response (create_patch lib) request.object_raw (codec.marshal_pod pod')).allowed
        ≡ true
      → E
          (after patching
            (patch_response (create_patch lib) request.object_raw (codec.marshal_pod pod'))
            request)
          pod'
  patch_response-Encodes request pod pod' (plain, encoded) same h =
      let raw = request.object_raw in
      let (json, p, m, made) =
        (allowed-patch_response (create_patch lib) raw (codec.marshal_pod pod')).0 h in
      let (operations, xs, found, texts, is) = made_of lib raw json p made in
      let there =
        patching.create_patch_ok pod pod' raw json operations plain same encoded m found in
      let applied =
        patching.apply-json_array raw json pod' (lib.sort_by_path operations) xs texts there m in
      (
        patching.relabelled-IsPlain pod pod' same plain,
        rw (patch_response_ok (create_patch lib) raw p json _ m made)
            (m ∙ ap ok (sym applied ∙ ap (patching.apply raw) is)),
      )

  pub Encodes-unmarshal :
      (request : AdmissionRequest) (pod : Pod)
      → E request pod
      → codec.unmarshal_pod request.object_raw ≡ ok pod
  Encodes-unmarshal request pod (plain, encoded) =
      patching.unmarshal-marshal pod request.object_raw plain encoded

  module _ (s : HostPathPvResource.AdmissionServer) where
    schedule-scheduled :
        (request : AdmissionRequest) (pod : Pod) (used : Result Bool)
        → E request pod
        → (schedule codec lib s request pod used).allowed ≡ true
        → E
            (after patching (schedule codec lib s request pod used) request)
            (scheduled_if s.scheduler pod used)
    unfolding schedule HostPathPvResource.patch_to
    schedule-scheduled request pod (ok true) e h =
        patch_response-Encodes request pod _ e (scheduled_if-IsRelabelled s.scheduler pod (ok true))
          h
    schedule-scheduled request pod (ok false) e h =
        patch_response-Encodes request pod pod e
          (scheduled_if-IsRelabelled s.scheduler pod (ok false)) h
    schedule-scheduled request pod (err x) e h = absurd (cc (allowed-error x 500))

    -- A review by hostpathpvresource that allows the request leads to the pod with the scheduler, if
    -- it uses a host path volume.
    pub review-scheduled :
        (request : AdmissionRequest) (pod : Pod)
        → E request pod
        → (HostPathPvResource.review codec lib s request).allowed ≡ true
        → E
            (after patching (HostPathPvResource.review codec lib s request) request)
            (scheduled s request pod)
    unfolding HostPathPvResource.review
    review-scheduled request pod e =
        rw (Encodes-unmarshal request pod e, HostPathPvResource.review)
          (schedule-scheduled request pod _ e)

  module _ (s : PodPriority.AdmissionServer) where
    -- the pod is classified, and names a class then
    abbrev pub Leads : AdmissionRequest → AdmissionResponse → Pod → Type 0
    Leads request answer pod' =
        E (after patching answer request) pod' × (pod'.priority_class_name ≢ "")

    classify-classified :
        (request : AdmissionRequest) (pod : Pod) (type : Result String)
        → E request pod
        → (classify codec lib s request pod type).allowed ≡ true
        → Leads request (classify codec lib s request pod type) (classified_as pod type)
    unfolding classify PodPriority.patch_to PodPriority.create_patch
    classify-classified request pod (ok type) e h = (
      patch_response-Encodes request pod _ e (classified_as-IsRelabelled pod (ok type)) h,
      class_of-ne type,
    )
    classify-classified request pod (err x) e h = absurd (cc (allowed-error x 500))

    review_pod-classified :
        (request : AdmissionRequest) (pod : Pod)
        → E request pod
        → (review_pod codec lib s request pod).allowed ≡ true
        → Leads request (review_pod codec lib s request pod) (classified s request pod)
    unfolding review_pod
    review_pod-classified request pod e = elim (Bool-cases (pod.priority_class_name == "")) [
      | inl unnamed ↦ rw (unnamed, review_pod) (classify-classified request pod _ e)
      | inr named ↦
          rw (named, review_pod)
            λ h. (rw patch-allow e, λ x. cc (named, (eq_iff pod.priority_class_name "").1 x))
    ]

    -- A review by podpriority that allows the request leads to the pod with the class of its kind, if
    -- it names none; and this pod names a class.
    pub review-classified :
        (request : AdmissionRequest) (pod : Pod)
        → E request pod
        → (PodPriority.review codec lib s request).allowed ≡ true
        → Leads request (PodPriority.review codec lib s request) (classified s request pod)
    unfolding PodPriority.review
    review-classified request pod e =
        rw (Encodes-unmarshal request pod e, PodPriority.review)
          (review_pod-classified request pod e)
