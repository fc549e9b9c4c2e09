-- ===== src/HppvToCsiPv.antt =====
-- pkg/hppvtocsipv/server.go: a new host path volume becomes a CSI volume.
pub mod Guid
pub mod Conversion
pub mod Upgrade
pub mod Main
use admission_controller.Base.{
  ℕ, Error, String, Bool, true, false, not, Option, none, some, Bytes, Result, ok, err, ◌==◌,
  if◌then◌else◌,
}
use admission_controller.Api.{
  PersistentVolume, CsiPersistentVolumeSource, annotation, GroupVersionResource, same_resource,
  create, AdmissionRequest, AdmissionResponse, AdmissionReview, status_internal_server_error,
}
use admission_controller.Webhook.Response
use admission_controller.Webhook.Patch
use admission_controller.Webhook.Patch.{JsonPatch}
use admission_controller.Webhook.Patched.{patch_response}
use admission_controller.Webhook.Serve
use admission_controller.Webhook.Serve.{Transport, Request, Outcome}
use Guid.{get_guid}

abbrev pub host_path_pv_should_be_ignored : String
host_path_pv_should_be_ignored = "enndata.cn/hostpathpv-to-csi-ignored"

-- The client is not used.
pub record AdmissionServer : Type 0 where
  pub driver_name : String

unfoldable pub new_admission_server : String → AdmissionServer
new_admission_server driver_name = record { driver_name = driver_name }

unfoldable pub is_hostpath_pv : PersistentVolume → Result Bool
is_hostpath_pv pv = elim pv.host_path [ some _ ↦ ok true | none ↦ ok false ]

-- The pointer may be nil.
unfoldable pub is_pv_should_be_ignored : Option PersistentVolume → Bool
is_pv_should_be_ignored none = false
is_pv_should_be_ignored (some pv) = elim pv.annotations [
  | none ↦ false
  | some m ↦ annotation (some m) host_path_pv_should_be_ignored == "true"
]

-- The fields that the source leaves out are zero.
unfoldable pub change_hostpath_pv_to_csi_pv : PersistentVolume → String → Bytes → PersistentVolume
change_hostpath_pv_to_csi_pv pv driver_name uid = record pv {
  host_path = none;
  csi = some (record {
    driver = driver_name;
    volume_handle = uid;
    read_only = false;
    fs_type = "";
    volume_attributes = none;
    secret_refs = none;
  });
}

abbrev pub pv_resource : GroupVersionResource
pv_resource = record { group = ""; version = "v1"; resource = "persistentvolumes" }

module _ (lib : JsonPatch) where
  -- this package's copy of createPatch
  unfoldable pub create_patch : Bytes → Bytes → Result Bytes
  create_patch = Patch.create_patch lib

-- this package's copies of toAdmissionResponse and allowAdmissionResponse
abbrev pub to_admission_response : Error → ℕ → AdmissionResponse
to_admission_response = Response.to_admission_response

abbrev pub allow_admission_response : AdmissionResponse
allow_admission_response = Response.allow_admission_response

-- encoding/json at `v1.PersistentVolume`, and crypto/md5
pub record PvCodec : Type 0 where
  pub unmarshal_pv : Bytes → Result PersistentVolume
  pub marshal_pv : PersistentVolume → Result Bytes
  pub md5_sum : Bytes → Bytes

module _ (codec : PvCodec) (lib : JsonPatch) where
  unfoldable pub patch_to : Bytes → PersistentVolume → AdmissionResponse
  unfolding patch_response
  patch_to raw pv = patch_response (create_patch lib) raw (codec.marshal_pv pv)

  -- `admit` once the volume is decoded
  unfoldable pub convert : AdmissionServer → Bytes → PersistentVolume → AdmissionResponse
  convert s raw pv = elim (is_hostpath_pv pv) [
    | err e ↦ to_admission_response e status_internal_server_error
    | ok is ↦
        if not is
        then allow_admission_response
        else if is_pv_should_be_ignored (some pv)
        then allow_admission_response
        else patch_to raw
            (change_hostpath_pv_to_csi_pv pv s.driver_name (get_guid codec.md5_sum raw))
  ]

  -- `admit` after its two guards
  unfoldable pub review : AdmissionServer → AdmissionRequest → AdmissionResponse
  review s request = elim (codec.unmarshal_pv request.object_raw) [
    | err e ↦ to_admission_response e status_internal_server_error
    | ok pv ↦ convert s request.object_raw pv
  ]

  unfoldable pub admit : AdmissionServer → AdmissionReview → Option AdmissionResponse
  admit s ar = elim ar.request [
    | none ↦ none
    | some request ↦
        if not (same_resource request.resource pv_resource)
        then none
        else if not (request.operation == create)
        then none
        else some (review s request)
  ]

  unfoldable pub serve : AdmissionServer → Transport → Request → Outcome
  serve s t = Serve.serve t (admit s)
