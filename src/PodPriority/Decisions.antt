-- ===== src/PodPriority/Decisions.antt =====
-- What the handler of pkg/podpriority decides.
use admission_controller.Base.{
  String, some, Bytes, Error, Result, ok, err, ◌≡◌, ◌≢◌, refl, ◌↔◌, ◌∙◌, inl, inr, sym, ap,
  ok-injective, eq_iff, ◌==◌, Result-cases, Bool-cases,
}
use admission_controller.Api.{
  Pod, AdmissionRequest, AdmissionResponse, AdmissionReview, status_internal_server_error,
}
use admission_controller.Webhook.Response.{to_admission_response, allow_admission_response}
use admission_controller.Webhook.Guards.{IsFor, guarded, guarded-some, serve-guarded, only_create}
use admission_controller.Webhook.Patch.{JsonPatch}
use admission_controller.Webhook.Patched.{
  IsDecision, error-IsDecision, allow-IsDecision, patch-error, patch-allow,
  patch_response-IsDecision, patch-patch_response, patch_response_ok,
}
use admission_controller.Webhook.Volumes.{PodCodec}
use admission_controller.Webhook.Serve.{Transport, Request}
use admission_controller.Webhook.Serve.Events.{IsPanic, Decodes}
use admission_controller.PodPriority.{
  AdmissionServer, pod_resource, create_patch, get_pod_type_str, patch_to, classify, review_pod,
  review, admit, serve,
}
use admission_controller.PodPriority.Kinds.{class_of, IsCreated, class_of-IsCreated}

-- The copy of the pod that is inspected has the name and the namespace of the request.
abbrev pub inspected : AdmissionRequest → Pod → Pod
inspected request pod = record pod { namespace = request.namespace; name = request.name }

-- The request is to create a pod.
abbrev pub IsForPods : AdmissionReview → Type 0
IsForPods = IsFor pod_resource only_create

module _ (codec : PodCodec) (lib : JsonPatch) (s : AdmissionServer) where
  review_cases {ℓ} :
      (P : AdmissionResponse → Type ℓ) (request : AdmissionRequest)
      → ((e : Error)
          → codec.unmarshal_pod request.object_raw ≡ err e
          → P (to_admission_response e status_internal_server_error))
      → ((pod : Pod)
          → codec.unmarshal_pod request.object_raw ≡ ok pod
          → pod.priority_class_name ≢ ""
          → P allow_admission_response)
      → ((pod : Pod)
          → codec.unmarshal_pod request.object_raw ≡ ok pod
          → pod.priority_class_name ≡ ""
          → P (classify codec lib s request pod (get_pod_type_str s (inspected request pod))))
      → P (review codec lib s request)
  unfolding review review_pod
  review_cases P request bad named unnamed =
      elim (Result-cases (codec.unmarshal_pod request.object_raw)) [
        | inr (e, h) ↦ rw (h, review) (bad e h)
        | inl (pod, h) ↦ elim (Bool-cases (pod.priority_class_name == "")) [
          | inl no_name ↦
              rw (h, review) (rw (no_name, review_pod) (unnamed pod h ((eq_iff _ _).0 no_name)))
          | inr name ↦
              rw (h, review)
                (rw (name, review_pod) (named pod h (λ e. cc (name, (eq_iff _ _).1 e))))
        ]
      ]

  patch_to-IsDecision : (raw : Bytes) (pod : Pod) → IsDecision (patch_to codec lib raw pod)
  unfolding patch_to
  patch_to-IsDecision raw pod =
      patch_response-IsDecision (create_patch lib) raw (codec.marshal_pod pod)

  patch-patch_to :
      (raw p : Bytes) (pod : Pod)
      → (patch_to codec lib raw pod).patch ≡ some p
      → (json : Bytes) × (codec.marshal_pod pod ≡ ok json) × (create_patch lib raw json ≡ ok p)
  unfolding patch_to
  patch-patch_to raw p pod = patch-patch_response (create_patch lib) raw p (codec.marshal_pod pod)

  classify-IsDecision :
      (request : AdmissionRequest) (pod : Pod) (type : Result String)
      → IsDecision (classify codec lib s request pod type)
  unfolding classify
  classify-IsDecision request pod (err e) = error-IsDecision e
  classify-IsDecision request pod (ok type) = patch_to-IsDecision request.object_raw _

  -- Every review of this webhook is allowed with no error, or refused with the code 500 and no
  -- patch.
  pub review-IsDecision : (request : AdmissionRequest) → IsDecision (review codec lib s request)
  review-IsDecision request =
      review_cases IsDecision request (λ e h. error-IsDecision e) (λ pod h named. allow-IsDecision)
        (λ pod h unnamed.
          classify-IsDecision request pod (get_pod_type_str s (inspected request pod)))

  -- what a patch says of the pod that the request holds
  abbrev pub PatchSays : AdmissionRequest → Pod → Bytes → Type 0
  PatchSays request pod p =
      (type : String) × (json : Bytes) × (pod.priority_class_name ≡ "")
      × (get_pod_type_str s (inspected request pod) ≡ ok type)
      × IsCreated (class_of type)
      × (codec.marshal_pod (record pod {
        priority_class_name = (class_of type).0;
        priority = some (class_of type).1;
      })
          ≡ ok json)
      × (create_patch lib request.object_raw json ≡ ok p)

  classify-PatchSays :
      (request : AdmissionRequest) (pod : Pod) (p : Bytes) (type : Result String)
      → pod.priority_class_name ≡ ""
      → get_pod_type_str s (inspected request pod) ≡ type
      → (classify codec lib s request pod type).patch ≡ some p
      → PatchSays request pod p
  unfolding classify
  classify-PatchSays request pod p (err e) no_name t h = absurd (cc (patch-error e 500))
  classify-PatchSays request pod p (ok type) no_name t h =
      let (json, m, c) = patch-patch_to request.object_raw p _ h in
      (type, json, no_name, t, class_of-IsCreated type, m, c)

  classified_patch :
      (request : AdmissionRequest) (p : Bytes)
      → (review codec lib s request).patch ≡ some p
      → (pod : Pod) × (codec.unmarshal_pod request.object_raw ≡ ok pod) × PatchSays request pod p
  classified_patch request p =
      review_cases
        (λ a.
          a.patch ≡ some p
          → (pod : Pod) × (codec.unmarshal_pod request.object_raw ≡ ok pod)
            × PatchSays request pod p)
        request (λ e u h. absurd (cc (patch-error e 500)))
        (λ pod u named h. absurd (cc patch-allow))
        (λ pod u unnamed h. (
          pod,
          u,
          classify-PatchSays request pod p (get_pod_type_str s (inspected request pod)) unnamed refl
              h,
        ))

  review-classify :
      (request : AdmissionRequest) (pod : Pod) (type : String)
      → codec.unmarshal_pod request.object_raw ≡ ok pod
      → pod.priority_class_name ≡ ""
      → get_pod_type_str s (inspected request pod) ≡ ok type
      → review codec lib s request ≡ classify codec lib s request pod (ok type)
  unfolding review review_pod
  review-classify request pod type u no_name e =
      rw (u, review) (rw ((eq_iff pod.priority_class_name "").1 no_name, review_pod) (rw e refl))

  classified_as :
      (request : AdmissionRequest) (pod : Pod) (p : Bytes)
      → codec.unmarshal_pod request.object_raw ≡ ok pod
      → PatchSays request pod p
      → (review codec lib s request).patch ≡ some p
  unfolding classify patch_to
  classified_as request pod p u (type, json, no_name, t, created, m, c) =
      rw (review-classify request pod type u no_name t)
        (patch_response_ok (create_patch lib) request.object_raw p json _ m c)

  -- A review has a patch exactly if the object decodes to a pod that names no class and whose kind
  -- is found, and the patch is the one from the raw object to that pod with the class of its kind,
  -- one of the created classes, and that class's priority.
  pub patch-review_classified :
      (request : AdmissionRequest) (p : Bytes)
      → ((review codec lib s request).patch ≡ some p) ↔ (
          (pod : Pod) × (codec.unmarshal_pod request.object_raw ≡ ok pod) × PatchSays request pod p)
  patch-review_classified request p =
      (classified_patch request p, λ (pod, u, says). classified_as request pod p u says)

  -- A pod that names a priority class is allowed as it is, whatever its class and its volumes.
  pub review_named :
      (request : AdmissionRequest) (pod : Pod)
      → codec.unmarshal_pod request.object_raw ≡ ok pod
      → pod.priority_class_name ≢ ""
      → review codec lib s request ≡ allow_admission_response
  review_named request pod u named =
      review_cases (λ a. a ≡ allow_admission_response) request (λ e h. absurd (cc (u, h)))
        (λ _ _ _. refl)
        (λ pod' h unnamed.
          absurd
            (named (ap (λ (p : Pod). p.priority_class_name) (ok-injective (sym u ∙ h)) ∙ unnamed)))

  admit-guarded :
      (ar : AdmissionReview)
      → admit codec lib s ar ≡ guarded pod_resource only_create (review codec lib s) ar
  unfolding admit
  admit-guarded ar = refl

  -- A request to create a pod is answered by its review.
  pub admit-review :
      (ar : AdmissionReview) (h : IsForPods ar)
      → admit codec lib s ar ≡ some (review codec lib s h.0)
  admit-review ar h = admit-guarded ar ∙ guarded-some _ _ _ ar h

  -- The server panics exactly on a JSON request that decodes to a review which does not ask to
  -- create a pod.
  pub serve-panics_iff_unclassified :
      (t : Transport) (r : Request)
      → IsPanic (serve codec lib s t r)
        ↔ ((ar : AdmissionReview) × Decodes t r ar × (¬ IsForPods ar))
  unfolding serve
  serve-panics_iff_unclassified t r =
      serve-guarded pod_resource only_create (review codec lib s) t (admit codec lib s) r
        admit-guarded
