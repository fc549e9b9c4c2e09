-- ===== src/Examples/Rounds.antt =====
-- The three webhooks for pods, one after another on a concrete pod, with a coding that numbers four
-- pods and a patch that replaces the object.
use native.Mathlib.Decide.{ℕ_discrete}
use admission_controller.Base.{
  ℕ, zero, suc, String, Bool, true, false, Option, none, some, List, [], ◌∷◌, Bytes, errorf, Result,
  ok, err, ◌==◌, eq_iff, ◌≡◌, refl, sym, ap, ◌∙◌, ◌++◌, pos, ok-injective,
}
use admission_controller.Base.Dict
use admission_controller.Api.{Pod, AdmissionRequest, annotation}
use admission_controller.Webhook.Response.{allow_admission_response, patch_admission_response}
use admission_controller.Webhook.Patch.{JsonPatch, create_patch, write_operations}
use admission_controller.Webhook.Patch.Render.{marshal_all, json_array, comma_separated}
use admission_controller.Webhook.Volumes.{PodCodec, scan_volumes}
use admission_controller.HostPathPvResource
use admission_controller.PodPriority
use admission_controller.PodPriority.Classes.{get_priority_class_name_by_pod_type}
use admission_controller.NsHostPathPrivilege
use admission_controller.Admission.{Patching, Encodes, apply_all}
use admission_controller.Admission.Orders.{
  after_scheduling, after_classifying, orders_agree, review-mutated, reviews_repeated,
}
use admission_controller.Examples.Objects.{web_pod, request_for}
use admission_controller.Examples.Pods.{scheduler, classifier}
use admission_controller.Examples.Policies.{checker}

String-decides : (s t : String) (b : Bool) → (s == t) ≡ b → Dec (s ≡ t)
String-decides s t true e = yes ((eq_iff s t).0 e)
String-decides s t false e = no (λ p. cc (e, (eq_iff s t).1 p))

pub String-discrete : Discrete String
unfolding String-decides
String-discrete s t = String-decides s t (s == t) refl

Pod-discrete : Discrete Pod
unfolding String-discrete ℕ_discrete
Pod-discrete = hlevel (ℕ_discrete, String-discrete)

-- the pod, with the scheduler, with the class, and with both
abbrev scheduled_pod : Pod
scheduled_pod = record web_pod { scheduler_name = "host-path-scheduler" }

abbrev with_class : Pod → Pod
with_class pod = record pod {
  priority_class_name = "enndata-podpriority-hostpathpv-critical";
  priority = some (pos 4000);
}

abbrev pods : List Pod
pods = web_pod ∷ scheduled_pod ∷ with_class web_pod ∷ with_class scheduled_pod ∷ []

abbrev suc? : Option ℕ → Option ℕ
suc? none = none
suc? (some k) = some (suc k)

number_if : {P : Type 0} → Dec P → Option ℕ → Option ℕ
number_if (yes _) rest = some 0
number_if (no _) rest = suc? rest

number : List Pod → Pod → Option ℕ
unfolding number_if Pod-discrete
number [] pod = none
number (p ∷ ps) pod = number_if (Pod-discrete p pod) (number ps pod)

nth : List Pod → ℕ → Result Pod
nth [] k = err (errorf "no pod")
nth (p ∷ ps) zero = ok p
nth (p ∷ ps) (suc k) = nth ps k

nth-number_if :
    (p : Pod) (ps : List Pod) (pod : Pod) (d : Dec (p ≡ pod)) (rest : Option ℕ)
    → ((k : ℕ) → rest ≡ some k → nth ps k ≡ ok pod)
    → (k : ℕ) → number_if d rest ≡ some k
    → nth (p ∷ ps) k ≡ ok pod
unfolding number_if nth
nth-number_if p ps pod (yes h) rest ih zero e = ap ok h
nth-number_if p ps pod (yes h) rest ih (suc k) e = absurd (cc e)
nth-number_if p ps pod (no h) none ih k e = absurd (cc e)
nth-number_if p ps pod (no h) (some j) ih zero e = absurd (cc e)
nth-number_if p ps pod (no h) (some j) ih (suc k) e = ih k (cc e)

nth-number : (ps : List Pod) (pod : Pod) (k : ℕ) → number ps pod ≡ some k → nth ps k ≡ ok pod
unfolding number nth
nth-number [] pod k e = cc
nth-number (p ∷ ps) pod k e =
    nth-number_if p ps pod (Pod-discrete p pod) (number ps pod) (nth-number ps pod) k e

decoded : Bytes → Result Pod
decoded [] = nth pods 93
decoded (k ∷ rest) = nth pods k

encoded : Option ℕ → Result Bytes
encoded none = err (errorf "another pod")
encoded (some k) = ok (k ∷ [])

abbrev pod_codec : PodCodec
pod_codec = record { unmarshal_pod = decoded; marshal_pod = λ p. encoded (number pods p) }

first_of : Bytes → Result (List ℕ)
first_of [] = err (errorf "no object")
first_of (k ∷ rest) = ok (k ∷ [])

-- an operation is the number of the new pod
abbrev replacing : JsonPatch
replacing = record {
  Operation = ℕ;
  create_patch = λ old new. first_of new;
  sort_by_path = λ ops. ops;
  marshal_json = λ k. ok (k ∷ []);
}

abbrev replaced : ℕ → Bytes → Bytes
replaced k raw = k ∷ []

-- the document after the operations of an array: its last number, if there is one
last_of : Bytes → Bytes → Bytes
last_of raw [] = raw
last_of raw (b ∷ []) = raw
last_of raw (b ∷ k ∷ []) = raw
last_of raw (b ∷ k ∷ c ∷ rest) = last_of (k ∷ []) (c ∷ rest)

abbrev texts : List ℕ → List Bytes
texts [] = []
texts (k ∷ ks) = (k ∷ []) ∷ texts ks

marshal_all-texts : (ks : List ℕ) → marshal_all replacing ks ≡ ok (texts ks)
unfolding marshal_all
marshal_all-texts [] = refl
marshal_all-texts (k ∷ ks) = rw (marshal_all-texts ks) refl

last_of-texts :
    (raw : Bytes) (b : ℕ) (ks : List ℕ)
    → last_of raw (b ∷ (comma_separated (texts ks) ++ b']' ∷ [])) ≡ apply_all replaced ks raw
unfolding last_of
last_of-texts raw b [] = refl
last_of-texts raw b (k ∷ []) = refl
last_of-texts raw b (k ∷ j ∷ ks) = last_of-texts (k ∷ []) b',' (j ∷ ks)

decoded-encoded :
    (pod : Pod) (o : Option ℕ) (json : Bytes)
    → number pods pod ≡ o
    → encoded o ≡ ok json
    → decoded json ≡ ok pod
unfolding encoded decoded
decoded-encoded pod none json n e = absurd (cc e)
decoded-encoded pod (some k) json n e = rw (← ok-injective e) (nth-number pods pod k n)

or_same : Bytes → Result Bytes → Bytes
or_same doc (ok json) = json
or_same doc (err e) = doc

reencoded : Bytes → Bytes
unfolding or_same
reencoded doc = elim (decoded doc) [
  | ok pod ↦ or_same doc (encoded (number pods pod))
  | err e ↦ doc
]

reencoded-encoded :
    (doc json : Bytes) (pod : Pod)
    → decoded doc ≡ ok pod
    → encoded (number pods pod) ≡ ok json
    → reencoded doc ≡ json
unfolding reencoded or_same
reencoded-encoded doc json pod d e = rw (d, reencoded) (rw e refl)

created :
    (pod' : Pod) (json raw : Bytes) (ks : List ℕ)
    → decoded json ≡ ok pod'
    → first_of json ≡ ok ks
    → decoded (apply_all replaced ks raw) ≡ ok pod'
unfolding first_of decoded
created pod' [] raw ks d made = absurd (cc made)
created pod' (k ∷ rest) raw ks d made = rw (← ok-injective made) d

applied :
    (raw json : Bytes) (pod : Pod) (ks : List ℕ) (xs : List Bytes)
    → marshal_all replacing ks ≡ ok xs
    → decoded (apply_all replaced ks raw) ≡ ok pod
    → encoded (number pods pod) ≡ ok json
    → reencoded (last_of raw (json_array xs)) ≡ json
applied raw json pod ks xs made there e =
    let are : texts ks ≡ xs = ok-injective (sym (marshal_all-texts ks) ∙ made) in
    reencoded-encoded (last_of raw (json_array xs)) json pod
      (ap (λ ys. decoded (last_of raw (json_array ys))) (sym are)
        ∙ ap decoded (last_of-texts raw b'[' ks)
        ∙ there)
      e

abbrev patching : Patching pod_codec replacing
patching = record {
  IsPlain = λ pod. Unit;
  relabelled-IsPlain = λ pod pod' same plain. tt;
  unmarshal-marshal = λ pod json plain e. decoded-encoded pod (number pods pod) json refl e;
  apply_operation = replaced;
  create_patch_ok = λ pod pod' raw json ks plain same e e' made.
      created pod' json raw ks (decoded-encoded pod' (number pods pod') json refl e') made;
  apply = λ raw p. reencoded (last_of raw p);
  apply-json_array = applied;
}

abbrev request : AdmissionRequest
request = record (request_for "pods") { object_raw = (0 ∷ []) }

-- what the tests below compute with
runs : Bool
unfolding HostPathPvResource.review HostPathPvResource.patch_to first_of last_of reencoded or_same
    number nth decoded encoded HostPathPvResource.is_pod_used_host_path_pv scan_volumes create_patch
    write_operations patch_admission_response PodPriority.review PodPriority.review_pod
    PodPriority.classify PodPriority.patch_to PodPriority.create_patch PodPriority.get_pod_type_str
    PodPriority.is_system_pod PodPriority.is_critical_pod PodPriority.is_pod_use_host_path_pv
    PodPriority.type_str PodPriority.new_admission_server Dict.lookup Dict.insert annotation
    get_priority_class_name_by_pod_type
runs = true

abbrev Schedules : AdmissionRequest → Type 0
Schedules r = (HostPathPvResource.review pod_codec replacing scheduler r).allowed ≡ true

abbrev Classifies : AdmissionRequest → Type 0
Classifies r = (PodPriority.review pod_codec replacing classifier r).allowed ≡ true

abbrev scheduling : AdmissionRequest → AdmissionRequest
scheduling = after_scheduling patching scheduler classifier

abbrev classifying : AdmissionRequest → AdmissionRequest
classifying = after_classifying patching scheduler classifier

Schedules-first : Schedules request
unfolding runs
Schedules-first = refl

Schedules-again : Schedules (scheduling request)
unfolding runs
Schedules-again = refl

Schedules-second : Schedules (classifying request)
unfolding runs
Schedules-second = refl

Classifies-first : Classifies request
unfolding runs
Classifies-first = refl

Classifies-second : Classifies (scheduling request)
unfolding runs
Classifies-second = refl

encodes_web : Encodes patching request web_pod
unfolding runs
encodes_web = (tt, refl)

orders_agree_example :
    (pod : Pod) × Encodes patching (classifying (scheduling request)) pod
    × Encodes patching (scheduling (classifying request)) pod
unfolding PodPriority.new_admission_server
orders_agree_example =
    orders_agree patching scheduler classifier (λ _ _ _ _. refl) (λ _ _ _ _. refl) request web_pod
      encodes_web Schedules-first Classifies-second Classifies-first Schedules-second

both_ways : Encodes patching (scheduling (classifying request)) (with_class scheduled_pod)
unfolding runs
both_ways = (tt, refl)

review-mutated_example :
    NsHostPathPrivilege.review pod_codec.unmarshal_pod checker (classifying (scheduling request))
    ≡ NsHostPathPrivilege.review pod_codec.unmarshal_pod checker request
review-mutated_example =
    review-mutated patching scheduler classifier checker request web_pod encodes_web Schedules-first
      Classifies-second

reviews_repeated_example :
    ((scheduling (scheduling request)).object_raw ≡ (scheduling request).object_raw)
    × (PodPriority.review pod_codec replacing classifier (classifying request)
        ≡ allow_admission_response)
reviews_repeated_example =
    reviews_repeated patching scheduler classifier (λ _ _ _ _. refl) request web_pod encodes_web
      Schedules-first Schedules-again Classifies-first
