-- ===== src/Examples/Objects.antt =====
-- Pods, volumes and requests, and the simplest libraries that can stand for the parameters.
use admission_controller.Base.{String, true, none, some, [], ◌∷◌, Bytes, ok}
use admission_controller.Api.{
  Volume, Container, Pod, PersistentVolume, AdmissionRequest, AdmissionReview, create,
}
use admission_controller.Webhook.Patch.{JsonPatch}
use admission_controller.Webhook.Volumes.{PodCodec, Algorithm}
use admission_controller.Webhook.Serve.{Transport, Request}

abbrev pub host_volume : Volume
host_volume = record { host_path = some (b'/' ∷ b'd' ∷ b'a' ∷ b't' ∷ b'a' ∷ []); other = [] }

abbrev pub empty_dir : Volume
empty_dir = record { host_path = none; other = (b'{' ∷ b'}' ∷ []) }

abbrev pub privileged_container : Container
privileged_container = record {
  security_context = some (record { privileged = some true; other = [] });
  other = [];
}

-- a critical pod in the namespace `web`, with two volumes and a privileged container
abbrev pub web_pod : Pod
web_pod = record {
  namespace = "";
  name = "";
  annotations = some (("scheduler.alpha.kubernetes.io/critical-pod", "yes") ∷ []);
  volumes = empty_dir ∷ host_volume ∷ [];
  containers = privileged_container ∷ [];
  init_containers = [];
  scheduler_name = "default-scheduler";
  priority_class_name = "";
  priority = none;
  other = [];
}

abbrev pub data_pv : PersistentVolume
data_pv = record {
  name = "pv1";
  resource_version = "";
  annotations = some (("owner", "web") ∷ []);
  host_path = some (b'/' ∷ b'd' ∷ b'a' ∷ b't' ∷ b'a' ∷ []);
  csi = none;
  phase = "Bound";
  other = [];
}

abbrev pub request_for : String → AdmissionRequest
request_for resource = record {
  resource = record { group = ""; version = "v1"; resource = resource };
  operation = create;
  object_raw = (b'{' ∷ b'}' ∷ []);
  namespace = "web";
  name = "web-0";
}

abbrev pub review_of : AdmissionRequest → AdmissionReview
review_of request = record { request = some request; response = none }

-- every text decodes to the pod above
abbrev pub pod_codec : PodCodec
pod_codec = record {
  unmarshal_pod = λ b. ok web_pod;
  marshal_pod = λ p. ok (b'{' ∷ b'p' ∷ b'o' ∷ b'd' ∷ b'}' ∷ []);
}

-- the volumes with a host path are host path volumes
abbrev pub algorithm : Algorithm
algorithm = record {
  get_pod_volume_pv = λ p v. elim v.host_path [ none ↦ ok none | some h ↦ ok (some data_pv) ];
  is_common_host_path_pv = λ v. true;
  show_volume = λ v. "volume";
}

-- an operation is its text; the patch replaces the object
abbrev pub json_patch : JsonPatch
json_patch = record {
  Operation = Bytes;
  create_patch = λ old new. ok (new ∷ (b'{' ∷ b'}' ∷ []) ∷ []);
  sort_by_path = λ ops. ops;
  marshal_json = λ op. ok op;
}

-- every body decodes to the review that is given
abbrev pub transport : AdmissionReview → Transport
transport ar = record {
  unmarshal_review = λ b. ok ar;
  marshal_review = λ r. ok (b'{' ∷ b'r' ∷ b'e' ∷ b'v' ∷ b'i' ∷ b'e' ∷ b'w' ∷ b'}' ∷ []);
  write_error = λ b. none;
  start = 10;
  now = 15;
}

abbrev pub json_request : Request
json_request = record { body = some (ok (b'{' ∷ b'}' ∷ [])); content_type = "application/json" }

abbrev pub xml_request : Request
xml_request = record { body = some (ok (b'{' ∷ b'}' ∷ [])); content_type = "text/xml" }
