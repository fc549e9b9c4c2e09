-- ===== src/NsHostPathPrivilege.antt =====
-- pkg/nshostpathprivilege/server.go: host paths and privileged containers only where the namespace
-- allows them.
pub mod Lookup
pub mod Main
pub mod Policy
pub mod Retries
use admission_controller.Base.{
  ℕ, String, Bool, true, false, not, ◌&&◌, Option, none, some, List, [], ◌∷◌, Bytes, Error, Result,
  ok, err, errorf, concat, show_error, ◌==◌, if◌then◌else◌,
}
use admission_controller.Api.{
  Pod, Volume, Container, Namespace, Annotations, annotation, GroupVersionResource, same_resource,
  create, update, AdmissionRequest, AdmissionResponse, AdmissionReview,
  status_internal_server_error,
}
use admission_controller.Webhook.Response
use admission_controller.Webhook.Serve
use admission_controller.Webhook.Serve.{Transport, Request, Outcome}
use Lookup.{Cluster, get_namespace}

abbrev pub namespace_allow_host_path_ann : String
namespace_allow_host_path_ann = "io.enndata.namespace/alpha-allowhostpath"

abbrev pub namespace_allow_privilege_ann : String
namespace_allow_privilege_ann = "io.enndata.namespace/alpha-allowprivilege"

-- A client, a lister and their replies: see `Lookup`.
pub record AdmissionServer : Type 0 where
  pub cluster : Cluster

unfoldable pub new_admission_server : Cluster → AdmissionServer
new_admission_server cluster = record { cluster = cluster }

unfoldable pub host_path_volume : List Volume → Bool
host_path_volume [] = false
host_path_volume (volume ∷ volumes) = elim volume.host_path [
  | some _ ↦ true
  | none ↦ host_path_volume volumes
]

-- The pod is a pointer that may be nil.
unfoldable pub is_pod_use_host_path : Option Pod → Bool
unfolding host_path_volume
is_pod_use_host_path none = false
is_pod_use_host_path (some pod) = host_path_volume pod.volumes

-- `c.SecurityContext != nil && c.SecurityContext.Privileged != nil && *… == true`
unfoldable pub is_privileged : Container → Bool
is_privileged c = elim c.security_context [
  | none ↦ false
  | some sc ↦ elim sc.privileged [ some true ↦ true | _ ↦ false ]
]

unfoldable pub privileged_container : List Container → Bool
privileged_container [] = false
privileged_container (c ∷ cs) = elim (is_privileged c) [
  | true ↦ true
  | false ↦ privileged_container cs
]

unfoldable pub is_pod_privilge : Option Pod → Bool
unfolding privileged_container is_privileged
is_pod_privilge none = false
is_pod_privilge (some pod) = elim (privileged_container pod.containers) [
  | true ↦ true
  | false ↦ privileged_container pod.init_containers
]

-- `Annotations == nil || Annotations[key] != "true"`, which is refused
unfoldable pub annotations_allow : String → Annotations → Bool
annotations_allow key none = false
annotations_allow key (some m) = if not (annotation (some m) key == "true") then false else true

-- The namespace is a pointer that may be nil.
unfoldable pub allows : String → Option Namespace → Bool
unfolding annotations_allow
allows key none = false
allows key (some ns) = annotations_allow key ns.annotations

unfoldable pub is_namespace_allow_host_path : Option Namespace → Bool
unfolding allows
is_namespace_allow_host_path = allows namespace_allow_host_path_ann

unfoldable pub is_namespace_allow_privilege : Option Namespace → Bool
unfolding allows
is_namespace_allow_privilege = allows namespace_allow_privilege_ann

abbrev pub pod_resource : GroupVersionResource
pod_resource = record { group = ""; version = "v1"; resource = "pods" }

-- this package's copies of toAdmissionResponse and allowAdmissionResponse
abbrev pub to_admission_response : Error → ℕ → AdmissionResponse
to_admission_response = Response.to_admission_response

abbrev pub allow_admission_response : AdmissionResponse
allow_admission_response = Response.allow_admission_response

abbrev pub denied : List String → AdmissionResponse
denied texts = to_admission_response (errorf (concat texts)) status_internal_server_error

-- the part of `admit` from `usePrivilege` on
check_privilege : Pod → Option Namespace → Option Error → AdmissionResponse
check_privilege pod ns err_get =
    if is_pod_privilge (some pod)
    then elim ns [
      | none ↦ denied ("pod use privilege get " ∷ pod.namespace ∷ ": " ∷ show_error err_get ∷ [])
      | some found ↦
          if not (is_namespace_allow_privilege (some found))
          then denied ("namespace " ∷ pod.namespace ∷ ": not support privilege" ∷ [])
          else allow_admission_response
    ]
    else allow_admission_response

-- the part of `admit` from `useHostPath` on
unfoldable pub check_pod : Pod → Option Namespace → Option Error → AdmissionResponse
unfolding check_privilege
check_pod pod ns err_get =
    if is_pod_use_host_path (some pod)
    then elim ns [
      | none ↦ denied ("pod use hostpath get " ∷ pod.namespace ∷ ": " ∷ show_error err_get ∷ [])
      | some found ↦
          if not (is_namespace_allow_host_path (some found))
          then denied ("namespace " ∷ pod.namespace ∷ ": not support hostpath" ∷ [])
          else check_privilege pod (some found) err_get
    ]
    else check_privilege pod ns err_get

module _ (unmarshal_pod : Bytes → Result Pod) where
  unfoldable pub review : AdmissionServer → AdmissionRequest → AdmissionResponse
  review s request = elim (unmarshal_pod request.object_raw) [
    | err e ↦ to_admission_response e status_internal_server_error
    | ok pod ↦
        let ((ns, err_get), _) = get_namespace s.cluster request.namespace in
        check_pod pod ns err_get
  ]

  unfoldable pub admit : AdmissionServer → AdmissionReview → Option AdmissionResponse
  admit s ar = elim ar.request [
    | none ↦ none
    | some request ↦
        if not (same_resource request.resource pod_resource)
        then none
        else if not (request.operation == create) && not (request.operation == update)
        then none
        else some (review s request)
  ]

  unfoldable pub serve : AdmissionServer → Transport → Request → Outcome
  serve s t = Serve.serve t (admit s)
