-- ===== src/Api.antt =====
-- The Kubernetes objects and the admission messages that the webhooks read and write
-- (vendor/k8s.io/api). A record has the fields that the program reads or writes; all the other
-- fields of an object are one uninterpreted `other`, which the program only carries along.
use admission_controller.Base.{ℕ, ℤ, String, Bool, Option, none, some, List, Bytes, ◌&&◌, ◌==◌}
use admission_controller.Base.Dict
use admission_controller.Base.Dict.{Dict}

-- `map[string]string`, which may be nil
abbrev pub Annotations : Type 0
Annotations = Option (Dict String)

abbrev or_empty : Option String → String
or_empty none = ""
or_empty (some v) = v

-- `annotations[key]`: "" for a missing key and for a nil map
unfoldable pub annotation : Annotations → String → String
annotation none key = ""
annotation (some m) key = or_empty (Dict.lookup key m)

pub record Volume : Type 0 where
  pub host_path : Option Bytes
  pub other : Bytes

pub record SecurityContext : Type 0 where
  pub privileged : Option Bool
  pub other : Bytes

pub record Container : Type 0 where
  pub security_context : Option SecurityContext
  pub other : Bytes

pub record Pod : Type 0 where
  pub namespace : String
  pub name : String
  pub annotations : Annotations
  pub volumes : List Volume
  pub containers : List Container
  pub init_containers : List Container
  pub scheduler_name : String
  pub priority_class_name : String
  pub priority : Option ℤ  -- int32
  pub other : Bytes

pub record Namespace : Type 0 where
  pub name : String
  pub annotations : Annotations

pub record CsiPersistentVolumeSource : Type 0 where
  pub driver : String
  pub volume_handle : Bytes
  pub read_only : Bool
  pub fs_type : String
  pub volume_attributes : Annotations
  pub secret_refs : Option Bytes

pub record PersistentVolume : Type 0 where
  pub name : String
  pub resource_version : String
  pub annotations : Annotations
  pub host_path : Option Bytes
  pub csi : Option CsiPersistentVolumeSource
  pub phase : String
  pub other : Bytes

pub record GroupVersionResource : Type 0 where
  pub group : String
  pub version : String
  pub resource : String

-- Go's `==` on two of these structs
abbrev pub same_resource : GroupVersionResource → GroupVersionResource → Bool
same_resource a b = a.group == b.group && (a.version == b.version && a.resource == b.resource)

-- Operation constants
abbrev pub create : String
create = "CREATE"

abbrev pub update : String
update = "UPDATE"

pub record AdmissionRequest : Type 0 where
  pub resource : GroupVersionResource
  pub operation : String
  pub object_raw : Bytes
  pub namespace : String
  pub name : String

pub record Status : Type 0 where
  pub message : String
  pub code : ℕ  -- int32

pub record AdmissionResponse : Type 0 where
  pub allowed : Bool
  pub result : Option Status
  pub patch : Option Bytes
  pub patch_type : Option String

-- A pointer that may be nil is an `Option`.
pub record AdmissionReview : Type 0 where
  pub request : Option AdmissionRequest
  pub response : Option AdmissionResponse

abbrev pub patch_type_json_patch : String
patch_type_json_patch = "JSONPatch"

-- net/http's status codes
abbrev pub status_bad_request : ℕ
status_bad_request = 400

abbrev pub status_unsupported_media_type : ℕ
status_unsupported_media_type = 415

abbrev pub status_internal_server_error : ℕ
status_internal_server_error = 500
