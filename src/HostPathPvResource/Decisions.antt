-- ===== src/HostPathPvResource/Decisions.antt =====
-- What the handler of pkg/hostpathpvresource decides.
use admission_controller.Base.{
  Bool, true, false, some, Bytes, Error, Result, ok, err, ◌≡◌, refl, ◌↔◌, ◌⊎◌, inl, inr, ◌∙◌, sym,
  ap, All, Result-cases,
}
use admission_controller.Api.{
  Pod, AdmissionRequest, AdmissionResponse, AdmissionReview, status_internal_server_error,
}
use admission_controller.Webhook.Response.{to_admission_response}
use admission_controller.Webhook.Guards.{
  IsFor, guarded, guarded-some, serve-guarded, create_or_update, guarded_two,
}
use admission_controller.Webhook.Patch.{JsonPatch, create_patch}
use admission_controller.Webhook.Patched.{
  IsDecision, error-IsDecision, patch-error, patch_response-IsDecision, patch-patch_response,
  patch_response_ok,
}
use admission_controller.Webhook.Volumes.{PodCodec}
use admission_controller.Webhook.Volumes.Scan.{First, IsClear, UsesHostPath, scan_volumes_iff}
use admission_controller.Webhook.Serve.{Transport, Request}
use admission_controller.Webhook.Serve.Events.{IsPanic, Decodes}
use admission_controller.HostPathPvResource.{
  AdmissionServer, pod_resource, is_pod_used_host_path_pv, patch_to, schedule, review, admit, serve,
}

-- The copy of the pod that is inspected has the name and the namespace of the request.
abbrev pub inspected : AdmissionRequest → Pod → Pod
inspected request pod = record pod { namespace = request.namespace; name = request.name }

-- The request is to create or update a pod.
abbrev pub IsForPods : AdmissionReview → Type 0
IsForPods = IsFor pod_resource create_or_update

module _ (codec : PodCodec) (lib : JsonPatch) (s : AdmissionServer) where
  review_cases {ℓ} :
      (P : AdmissionResponse → Type ℓ) (request : AdmissionRequest)
      → ((e : Error)
          → codec.unmarshal_pod request.object_raw ≡ err e
          → P (to_admission_response e status_internal_server_error))
      → ((pod : Pod)
          → codec.unmarshal_pod request.object_raw ≡ ok pod
          → P (
              schedule codec lib s request pod
                (is_pod_used_host_path_pv s (inspected request pod))))
      → P (review codec lib s request)
  review_cases P request bad good = elim (Result-cases (codec.unmarshal_pod request.object_raw)) [
    | inr (e, h) ↦ unfold review in rw (h, review) (bad e h)
    | inl (pod, h) ↦ unfold review in rw (h, review) (good pod h)
  ]

  patch_to-IsDecision : (raw : Bytes) (pod : Pod) → IsDecision (patch_to codec lib raw pod)
  unfolding patch_to
  patch_to-IsDecision raw pod =
      patch_response-IsDecision (create_patch lib) raw (codec.marshal_pod pod)

  patch-patch_to :
      (raw p : Bytes) (pod : Pod)
      → (patch_to codec lib raw pod).patch ≡ some p
      → (json : Bytes) × (codec.marshal_pod pod ≡ ok json) × (create_patch lib raw json ≡ ok p)
  unfolding patch_to
  patch-patch_to raw p pod = patch-patch_response (create_patch lib) raw p (codec.marshal_pod pod)

  schedule-IsDecision :
      (request : AdmissionRequest) (pod : Pod) (used : Result Bool)
      → IsDecision (schedule codec lib s request pod used)
  unfolding schedule
  schedule-IsDecision request pod (err e) = error-IsDecision e
  schedule-IsDecision request pod (ok true) = patch_to-IsDecision request.object_raw _
  schedule-IsDecision request pod (ok false) = patch_to-IsDecision request.object_raw pod

  -- Every review of this webhook is allowed with no error, and with both a patch and its type or with
  -- neither, or refused with an error of the code 500 and no patch.
  pub review-IsDecision : (request : AdmissionRequest) → IsDecision (review codec lib s request)
  review-IsDecision request =
      review_cases IsDecision request (λ e h. error-IsDecision e)
        (λ pod h.
          schedule-IsDecision request pod (is_pod_used_host_path_pv s (inspected request pod)))

  -- The pod that is patched to: it uses a host path volume and gets the scheduler, or uses none and
  -- stays as it is.
  abbrev pub Scheduled : AdmissionRequest → Pod → Pod → Type 0
  Scheduled request pod pod' =
      First s.algorithm (inspected request pod) (UsesHostPath s.algorithm (inspected request pod))
          pod.volumes
        × (pod' ≡ record pod { scheduler_name = s.scheduler })
      ⊎ All (IsClear s.algorithm (inspected request pod)) pod.volumes × (pod' ≡ pod)

  -- what a patch says of the pod that the request holds
  abbrev pub PatchSays : AdmissionRequest → Pod → Bytes → Type 0
  PatchSays request pod p =
      (pod' : Pod) × (json : Bytes) × Scheduled request pod pod'
      × (codec.marshal_pod pod' ≡ ok json)
      × (create_patch lib request.object_raw json ≡ ok p)

  schedule-Scheduled :
      (request : AdmissionRequest) (pod : Pod) (p : Bytes) (used : Result Bool)
      → is_pod_used_host_path_pv s (inspected request pod) ≡ used
      → (schedule codec lib s request pod used).patch ≡ some p
      → PatchSays request pod p
  unfolding schedule is_pod_used_host_path_pv
  schedule-Scheduled request pod p (err e) u h = absurd (cc (patch-error e 500))
  schedule-Scheduled request pod p (ok true) u h =
      let pod' : Pod = record pod { scheduler_name = s.scheduler } in
      let (json, m, c) = patch-patch_to request.object_raw p pod' h in
      (
        pod',
        json,
        inl ((scan_volumes_iff s.algorithm (inspected request pod) pod.volumes).0.0 u, refl),
        m,
        c,
      )
  schedule-Scheduled request pod p (ok false) u h =
      let (json, m, c) = patch-patch_to request.object_raw p pod h in
      (
        pod,
        json,
        inr ((scan_volumes_iff s.algorithm (inspected request pod) pod.volumes).1.0 u, refl),
        m,
        c,
      )

  scheduled_patch :
      (request : AdmissionRequest) (p : Bytes)
      → (review codec lib s request).patch ≡ some p
      → (pod : Pod) × (codec.unmarshal_pod request.object_raw ≡ ok pod) × PatchSays request pod p
  scheduled_patch request p =
      review_cases
        (λ a.
          a.patch ≡ some p
          → (pod : Pod) × (codec.unmarshal_pod request.object_raw ≡ ok pod)
            × PatchSays request pod p)
        request (λ e u h. absurd (cc (patch-error e 500)))
        (λ pod u h. (
          pod,
          u,
          schedule-Scheduled request pod p (is_pod_used_host_path_pv s (inspected request pod)) refl
              h,
        ))

  review-schedule :
      (request : AdmissionRequest) (pod : Pod) (used : Bool)
      → codec.unmarshal_pod request.object_raw ≡ ok pod
      → is_pod_used_host_path_pv s (inspected request pod) ≡ ok used
      → review codec lib s request ≡ schedule codec lib s request pod (ok used)
  unfolding review
  review-schedule request pod used u e = rw (u, review) (rw e refl)

  patched_as :
      (request : AdmissionRequest) (pod pod' : Pod) (p json : Bytes)
      → codec.unmarshal_pod request.object_raw ≡ ok pod
      → Scheduled request pod pod'
      → codec.marshal_pod pod' ≡ ok json
      → create_patch lib request.object_raw json ≡ ok p
      → (review codec lib s request).patch ≡ some p
  unfolding is_pod_used_host_path_pv schedule patch_to
  patched_as request pod pod' p json u (inl (first, e)) m c =
      let used = (scan_volumes_iff s.algorithm (inspected request pod) pod.volumes).0.1 first in
      rw (review-schedule request pod true u used) (
        patch_response_ok (create_patch lib) request.object_raw p json _
          (ap codec.marshal_pod (sym e) ∙ m) c)
  patched_as request pod pod' p json u (inr (clear, e)) m c =
      let used = (scan_volumes_iff s.algorithm (inspected request pod) pod.volumes).1.1 clear in
      rw (review-schedule request pod false u used) (
        patch_response_ok (create_patch lib) request.object_raw p json _
          (ap codec.marshal_pod (sym e) ∙ m) c)

  -- A review has a patch exactly if the object decodes to a pod, and the patch is the one from the
  -- raw object to that pod with this server's scheduler if the first volume that is not clear is a
  -- host path volume, or to the pod as it is if all the volumes are clear.
  pub patch-review_scheduled :
      (request : AdmissionRequest) (p : Bytes)
      → ((review codec lib s request).patch ≡ some p) ↔ (
          (pod : Pod) × (codec.unmarshal_pod request.object_raw ≡ ok pod) × PatchSays request pod p)
  patch-review_scheduled request p = (
    scheduled_patch request p,
    λ (pod, u, (pod', json, sched, m, c)). patched_as request pod pod' p json u sched m c,
  )

  admit-guarded :
      (ar : AdmissionReview)
      → admit codec lib s ar ≡ guarded pod_resource create_or_update (review codec lib s) ar
  unfolding admit
  admit-guarded ar = guarded_two pod_resource (review codec lib s) ar

  -- A request to create or update a pod is answered by its review.
  pub admit-review :
      (ar : AdmissionReview) (h : IsForPods ar)
      → admit codec lib s ar ≡ some (review codec lib s h.0)
  admit-review ar h = admit-guarded ar ∙ guarded-some _ _ _ ar h

  -- The server panics exactly on a JSON request that decodes to a review which does not ask to
  -- create or update a pod.
  pub serve-panics_iff_unscheduled :
      (t : Transport) (r : Request)
      → IsPanic (serve codec lib s t r)
        ↔ ((ar : AdmissionReview) × Decodes t r ar × (¬ IsForPods ar))
  unfolding serve
  serve-panics_iff_unscheduled t r =
      serve-guarded pod_resource create_or_update (review codec lib s) t (admit codec lib s) r
        admit-guarded
