-- ===== src/HostPathPvResource.antt =====
-- pkg/hostpathpvresource/server.go: pods that use a host path volume get their own scheduler.
pub mod Decisions
pub mod Main
use admission_controller.Base.{
  String, Bool, true, false, not, ◌&&◌, Option, none, some, Bytes, Result, ok, err, ◌==◌,
  if◌then◌else◌,
}
use admission_controller.Api.{
  Pod, GroupVersionResource, same_resource, create, update, AdmissionRequest, AdmissionResponse,
  AdmissionReview, status_internal_server_error,
}
use admission_controller.Webhook.Response
use admission_controller.Webhook.Patch
use admission_controller.Webhook.Patch.{JsonPatch}
use admission_controller.Webhook.Patched.{patch_response}
use admission_controller.Webhook.Volumes.{PodCodec, Algorithm, scan_volumes}
use admission_controller.Webhook.Serve
use admission_controller.Webhook.Serve.{Transport, Request, Outcome}

-- The client is not used; the two caches are inside `Algorithm`.
pub record AdmissionServer : Type 0 where
  pub algorithm : Algorithm
  pub scheduler : String

unfoldable pub new_admission_server : Algorithm → String → AdmissionServer
new_admission_server algorithm scheduler = record { algorithm = algorithm; scheduler = scheduler }

abbrev pub pod_resource : GroupVersionResource
pod_resource = record { group = ""; version = "v1"; resource = "pods" }

unfoldable pub is_pod_used_host_path_pv : AdmissionServer → Pod → Result Bool
is_pod_used_host_path_pv s pod = scan_volumes s.algorithm pod pod.volumes

module _ (codec : PodCodec) (lib : JsonPatch) where
  -- the patch from the raw object to `pod`, as a response
  unfoldable pub patch_to : Bytes → Pod → AdmissionResponse
  unfolding patch_response
  patch_to raw pod = patch_response (Patch.create_patch lib) raw (codec.marshal_pod pod)

  -- `admit` once it is known whether the pod uses a host path volume
  unfoldable pub schedule :
      AdmissionServer → AdmissionRequest → Pod → Result Bool → AdmissionResponse
  schedule s request pod (err e) = Response.to_admission_response e status_internal_server_error
  schedule s request pod (ok true) =
      patch_to request.object_raw (record pod { scheduler_name = s.scheduler })
  schedule s request pod (ok false) = patch_to request.object_raw pod

  -- `admit` after its two guards. The name and the namespace come from the request; they are set in
  -- the copy that is inspected, and not in the pod that is patched.
  unfoldable pub review : AdmissionServer → AdmissionRequest → AdmissionResponse
  unfolding schedule
  review s request = elim (codec.unmarshal_pod request.object_raw) [
    | err e ↦ Response.to_admission_response e status_internal_server_error
    | ok pod ↦ schedule s request pod (
        is_pod_used_host_path_pv s
          (record pod { namespace = request.namespace; name = request.name }))
  ]

  unfoldable pub admit : AdmissionServer → AdmissionReview → Option AdmissionResponse
  admit s ar = elim ar.request [
    | none ↦ none
    | some request ↦
        if not (same_resource request.resource pod_resource)
        then none
        else if not (request.operation == create) && not (request.operation == update)
        then none
        else some (review s request)
  ]

  unfoldable pub serve : AdmissionServer → Transport → Request → Outcome
  serve s t = Serve.serve t (admit s)
