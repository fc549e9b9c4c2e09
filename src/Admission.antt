-- ===== src/Admission.antt =====
-- The webhooks together, as the API server calls them for one object: it hands each of them a request
-- and applies the patch of the answer to the object of the request before it calls the next.
pub mod Unchanged
pub mod Mutations
pub mod Commuting
pub mod Orders
pub mod Panics
use admission_controller.Base.{ℤ, String, Option, none, some, List, [], ◌∷◌, Bytes, Result, ok, ◌≡◌}
use admission_controller.Api.{Pod, Volume, AdmissionRequest, AdmissionResponse}
use admission_controller.Webhook.Patch.{JsonPatch}
use admission_controller.Webhook.Patch.Render.{marshal_all, json_array}
use admission_controller.Webhook.Volumes.{PodCodec, Algorithm}

-- The second pod is the first with another scheduler, class and priority.
abbrev pub IsRelabelled : Pod → Pod → Type 0
IsRelabelled pod pod' =
    (scheduler name : String) × (value : Option ℤ) × (pod'
      ≡ record pod { scheduler_name = scheduler; priority_class_name = name; priority = value })

-- The operations one after another
abbrev pub apply_all {ℓ} : {A : Type ℓ} → (A → Bytes → Bytes) → List A → Bytes → Bytes
apply_all apply_one [] raw = raw
apply_all apply_one (x ∷ xs) raw = apply_all apply_one xs (apply_one x raw)

-- What the API server, encoding/json and the patch library do with the objects of the requests.
pub record Patching (codec : PodCodec) (lib : JsonPatch) : Type 1 where
  -- The pods that encoding and decoding keep as they are, as a pod without an empty map that is not
  -- nil. The scheduler, the class and the priority are always kept.
  pub IsPlain : Pod → Type 0
  pub relabelled-IsPlain : (pod pod' : Pod) → IsRelabelled pod pod' → IsPlain pod → IsPlain pod'
  pub unmarshal-marshal :
      (pod : Pod) (json : Bytes)
      → IsPlain pod
      → codec.marshal_pod pod ≡ ok json
      → codec.unmarshal_pod json ≡ ok pod
  -- RFC 6902: one operation on a document
  pub apply_operation : lib.Operation → Bytes → Bytes
  -- Between the encodings of two pods that differ in those three members only, the library finds
  -- operations on these members. In the order of their paths they lead from the one to the other.
  pub create_patch_ok :
      (pod pod' : Pod) (raw json : Bytes) (operations : List lib.Operation)
      → IsPlain pod
      → IsRelabelled pod pod'
      → codec.marshal_pod pod ≡ ok raw
      → codec.marshal_pod pod' ≡ ok json
      → lib.create_patch raw json ≡ ok operations
      → codec.unmarshal_pod (apply_all apply_operation (lib.sort_by_path operations) raw) ≡ ok pod'
  -- The API server reads a JSON array of operations, applies them one after another, decodes what comes
  -- out, and encodes it again for the next request.
  pub apply : Bytes → Bytes → Bytes
  pub apply-json_array :
      (raw json : Bytes) (pod : Pod) (operations : List lib.Operation) (xs : List Bytes)
      → marshal_all lib operations ≡ ok xs
      → codec.unmarshal_pod (apply_all apply_operation operations raw) ≡ ok pod
      → codec.marshal_pod pod ≡ ok json
      → apply raw (json_array xs) ≡ json

-- The lookup of a volume's persistent volume reads the namespace of the pod, and nothing else of it.
abbrev pub ReadsNamespace : Algorithm → Type 0
ReadsNamespace algorithm =
    (pod pod' : Pod) (volume : Volume)
    → pod.namespace ≡ pod'.namespace
    → algorithm.get_pod_volume_pv pod volume ≡ algorithm.get_pod_volume_pv pod' volume

module _ {codec : PodCodec} {lib : JsonPatch} (patching : Patching codec lib) where
  -- The object of the request is the encoding of the pod.
  abbrev pub Encodes : AdmissionRequest → Pod → Type 0
  Encodes request pod = patching.IsPlain pod × (codec.marshal_pod pod ≡ ok request.object_raw)

  abbrev pub patched : Bytes → Option Bytes → Bytes
  patched raw none = raw
  patched raw (some p) = patching.apply raw p

  -- the request to the next webhook, after this one has answered
  abbrev pub after : AdmissionResponse → AdmissionRequest → AdmissionRequest
  after a request = record request { object_raw = patched request.object_raw a.patch }
