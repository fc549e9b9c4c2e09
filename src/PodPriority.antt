-- ===== src/PodPriority.antt =====
-- pkg/podpriority/server.go: every pod that names no priority class gets one by its kind.
pub mod Classes
pub mod Kinds
pub mod Decisions
pub mod Setup
pub mod Main
use admission_controller.Base.{
  ℕ, Error, ℤ, String, Bool, true, false, not, ◌&&◌, Option, none, some, List, [], ◌∷◌, Bytes,
  Result, ok, err, ◌==◌, if◌then◌else◌,
}
use admission_controller.Base.Dict
use admission_controller.Base.Dict.{Dict}
use admission_controller.Api.{
  Pod, annotation, GroupVersionResource, same_resource, create, AdmissionRequest, AdmissionResponse,
  AdmissionReview, status_internal_server_error,
}
use admission_controller.Webhook.Response
use admission_controller.Webhook.Patch
use admission_controller.Webhook.Patch.{JsonPatch}
use admission_controller.Webhook.Patched.{patch_response}
use admission_controller.Webhook.Volumes.{PodCodec, Algorithm, scan_volumes}
use admission_controller.Webhook.Serve
use admission_controller.Webhook.Serve.{Transport, Request, Outcome}
use Classes.{get_priority_class_name_by_pod_type}

pub record AdmissionServer : Type 0 where
  pub algorithm : Algorithm
  -- a map to empty structs
  pub system_namespaces : Dict (Unit {0})

-- the loop that fills the map
unfoldable pub str_map : Dict (Unit {0}) → List String → Dict (Unit {0})
str_map m [] = m
str_map m (str ∷ strs) = str_map (Dict.insert str tt m) strs

unfoldable pub new_admission_server : Algorithm → List String → AdmissionServer
unfolding str_map
new_admission_server algorithm system_namespaces = record {
  algorithm = algorithm;
  system_namespaces = str_map [] system_namespaces;
}

-- this package's copies of toAdmissionResponse and allowAdmissionResponse
abbrev pub to_admission_response : Error → ℕ → AdmissionResponse
to_admission_response = Response.to_admission_response

abbrev pub allow_admission_response : AdmissionResponse
allow_admission_response = Response.allow_admission_response

abbrev pub critical_pod_ann : String
critical_pod_ann = "scheduler.alpha.kubernetes.io/critical-pod"

unfoldable pub is_critical_pod : Pod → Bool
is_critical_pod pod = elim pod.annotations [
  | none ↦ false
  | some m ↦ if not (annotation (some m) critical_pod_ann == "") then true else false
]

unfoldable pub is_system_pod : AdmissionServer → Pod → Bool
is_system_pod s pod = elim (Dict.lookup pod.namespace s.system_namespaces) [
  | some _ ↦ true
  | none ↦ false
]

unfoldable pub is_pod_use_host_path_pv : AdmissionServer → Pod → Result Bool
is_pod_use_host_path_pv s pod = scan_volumes s.algorithm pod pod.volumes

-- the `switch` on the two flags
unfoldable pub type_str : Bool → Bool → String
type_str false false = "default"
type_str true false = "normal-critical"
type_str false true = "hostpathpv"
type_str true true = "hostpathpv-critical"

unfoldable pub get_pod_type_str : AdmissionServer → Pod → Result String
get_pod_type_str s pod =
    if is_system_pod s pod then ok "systempod" else elim (is_pod_use_host_path_pv s pod) [
      | err e ↦ err e
      | ok is_hostpath_pv ↦ ok (type_str (is_critical_pod pod) is_hostpath_pv)
    ]

abbrev pub pod_resource : GroupVersionResource
pod_resource = record { group = ""; version = "v1"; resource = "pods" }

module _ (lib : JsonPatch) where
  -- this package's copy of createPatch
  unfoldable pub create_patch : Bytes → Bytes → Result Bytes
  create_patch = Patch.create_patch lib

module _ (codec : PodCodec) (lib : JsonPatch) where
  unfoldable pub patch_to : Bytes → Pod → AdmissionResponse
  unfolding patch_response
  patch_to raw pod = patch_response (create_patch lib) raw (codec.marshal_pod pod)

  -- `admit` once the kind of the pod is known; the error of the class lookup is dropped, as in the
  -- source.
  unfoldable pub classify :
      AdmissionServer → AdmissionRequest → Pod → Result String → AdmissionResponse
  classify s request pod (err e) = to_admission_response e status_internal_server_error
  classify s request pod (ok type) =
      let (pc_name, priority, _) = get_priority_class_name_by_pod_type type in
      patch_to request.object_raw
        (record pod { priority_class_name = pc_name; priority = some priority })

  -- `admit` once the pod is decoded
  unfoldable pub review_pod : AdmissionServer → AdmissionRequest → Pod → AdmissionResponse
  review_pod s request pod =
      if not (pod.priority_class_name == "")
      then allow_admission_response
      else classify s request pod
          (get_pod_type_str s (record pod { namespace = request.namespace; name = request.name }))

  -- `admit` after its two guards
  unfoldable pub review : AdmissionServer → AdmissionRequest → AdmissionResponse
  review s request = elim (codec.unmarshal_pod request.object_raw) [
    | err e ↦ to_admission_response e status_internal_server_error
    | ok pod ↦ review_pod s request pod
  ]

  unfoldable pub admit : AdmissionServer → AdmissionReview → Option AdmissionResponse
  admit s ar = elim ar.request [
    | none ↦ none
    | some request ↦
        if not (same_resource request.resource pod_resource)
        then none
        else if not (request.operation == create)
        then none
        else some (review s request)
  ]

  unfoldable pub serve : AdmissionServer → Transport → Request → Outcome
  serve s t = Serve.serve t (admit s)
