-- ===== src/Examples/Pods.antt =====
-- The two webhooks that change pods, on a concrete pod, and the setup of the priority classes.
use admission_controller.Base.{
  pos, String, Bool, true, Option, none, some, [], ◌∷◌, Bytes, Error, errorf, Result, ok, err, ◌≡◌,
  ◌≢◌, refl, ◌⊎◌, ◌↔◌, All, ◌==◌, if◌then◌else◌, ==_refl, ==_false,
}
use admission_controller.Api.{Pod, AdmissionRequest, annotation}
use admission_controller.Base.Dict
use admission_controller.Webhook.Volumes.{scan_volumes}
use admission_controller.HostPathPvResource
use admission_controller.HostPathPvResource.Decisions as Scheduling
use admission_controller.PodPriority
use admission_controller.PodPriority.Decisions as Priorities
use admission_controller.PodPriority.Classes.{pre_create_priority_class_list}
use admission_controller.PodPriority.Kinds.{class_of, points_of, priority-points_of}
use admission_controller.PodPriority.Setup.{PriorityClass, PriorityClasses, create_priority_class}
use admission_controller.PodPriority.Setup.Created.{
  Stores, IsHealthy, Holds, create_priority_class-stored,
}
use admission_controller.Examples.Objects.{web_pod, request_for, pod_codec, algorithm, json_patch}

abbrev pods_request : AdmissionRequest
pods_request = request_for "pods"

abbrev pub scheduler : HostPathPvResource.AdmissionServer
scheduler = record { algorithm = algorithm; scheduler = "host-path-scheduler" }

abbrev some_patch : Bytes
some_patch = b'[' ∷ []

patch-review_scheduled_example :
    ((HostPathPvResource.review pod_codec json_patch scheduler pods_request).patch
      ≡ some some_patch)
    ↔ ((pod : Pod) × (pod_codec.unmarshal_pod pods_request.object_raw ≡ ok pod)
        × Scheduling.PatchSays pod_codec json_patch scheduler pods_request pod some_patch)
patch-review_scheduled_example =
    Scheduling.patch-review_scheduled pod_codec json_patch scheduler pods_request some_patch

abbrev pub classifier : PodPriority.AdmissionServer
classifier = PodPriority.new_admission_server algorithm ("kube-system" ∷ [])

patch-review_classified_example :
    ((PodPriority.review pod_codec json_patch classifier pods_request).patch ≡ some some_patch) ↔ (
      (pod : Pod) × (pod_codec.unmarshal_pod pods_request.object_raw ≡ ok pod)
      × Priorities.PatchSays pod_codec json_patch classifier pods_request pod some_patch)
patch-review_classified_example =
    Priorities.patch-review_classified pod_codec json_patch classifier pods_request some_patch

priority-points_of_example :
    (uses : Bool) × ((PodPriority.is_system_pod classifier web_pod ≡ true)
      ⊎ (PodPriority.is_pod_use_host_path_pv classifier web_pod ≡ ok uses))
    × (critical : Bool) × ((critical ≡ true)
        ↔ (annotation web_pod.annotations PodPriority.critical_pod_ann ≢ ""))
    × ((class_of "hostpathpv-critical").1
        ≡ pos (points_of (PodPriority.is_system_pod classifier web_pod) critical uses))
unfolding PodPriority.get_pod_type_str PodPriority.is_system_pod PodPriority.is_critical_pod
    PodPriority.is_pod_use_host_path_pv PodPriority.type_str PodPriority.new_admission_server
    Dict.lookup Dict.insert scan_volumes annotation
priority-points_of_example = priority-points_of classifier web_pod "hostpathpv-critical" refl

-- the classes by name, as the whole state of the server
abbrev Held : Type 0
Held = String → Option PriorityClass

abbrev put : PriorityClass → Held → Option Error × Held
put c w = (none, λ k. if k == c.name then some c else w k)

abbrev refuse : Held → Option Error × Held
refuse w = (some (errorf "refused"), w)

-- a taken name cannot be created, and a free one not updated
abbrev make : PriorityClass → Held → Option Error × Held
make c w = elim (w c.name) [ none ↦ put c w | some _ ↦ refuse w ]

abbrev change : PriorityClass → Held → Option Error × Held
change c w = elim (w c.name) [ none ↦ refuse w | some _ ↦ put c w ]

abbrev absent : Error
absent = record { message = "not found"; not_found = true }

abbrev look : String → Held → Result PriorityClass × Held
look n w = (elim (w n) [ none ↦ err absent | some c ↦ ok c ], w)

abbrev pub client : PriorityClasses
client = record { State = Held; get = look; create = make; update = change }

make_here :
    (c : PriorityClass) (w : Held) (o : Option PriorityClass)
    → w c.name ≡ o
    → (make c w).0 ≡ none
    → (make c w).1 c.name ≡ some c
make_here c w none e h = rw (e, make) (rw (==_refl c.name) refl)
make_here c w (some x) e h = absurd (cc (rw (e, make) at h))

change_here :
    (c : PriorityClass) (w : Held) (o : Option PriorityClass)
    → w c.name ≡ o
    → (change c w).0 ≡ none
    → (change c w).1 c.name ≡ some c
change_here c w none e h = absurd (cc (rw (e, change) at h))
change_here c w (some x) e h = rw (e, change) (rw (==_refl c.name) refl)

make_others :
    (c : PriorityClass) (w : Held) (k : String) (o : Option PriorityClass)
    → w c.name ≡ o
    → k ≢ c.name
    → (make c w).1 k ≡ w k
make_others c w k none e h = rw (e, make) (rw (==_false k c.name h) refl)
make_others c w k (some x) e h = rw (e, make) refl

change_others :
    (c : PriorityClass) (w : Held) (k : String) (o : Option PriorityClass)
    → w c.name ≡ o
    → k ≢ c.name
    → (change c w).1 k ≡ w k
change_others c w k none e h = rw (e, change) refl
change_others c w k (some x) e h = rw (e, change) (rw (==_false k c.name h) refl)

abbrev server : Stores client
server = record {
  stored = λ w k. w k;
  stored-get = λ n k w. refl;
  stored-create = λ c w h. make_here c w (w c.name) refl h;
  stored-update = λ c w h. change_here c w (w c.name) refl h;
  create_others = λ c w k h. make_others c w k (w c.name) refl h;
  update_others = λ c w k h. change_others c w k (w c.name) refl h;
}

abbrev healthy : IsHealthy client server
healthy = record {
  finds = λ n w c h. rw h refl;
  reports = λ n w h. (absent, rw h refl, refl);
  creates = λ c w h. rw (h, make) refl;
  updates = λ c w old h. rw (h, change) refl;
}

abbrev pub empty : Held
empty k = none

create_priority_class-stored_example :
    ((create_priority_class client empty).0 ≡ none
      → Holds client server (create_priority_class client empty).1 pre_create_priority_class_list)
    × ((k : String)
        → All
            (λ (q : PodPriority.Classes.PreCreatePriorityClass). k ≢ q.name)
            pre_create_priority_class_list
        → server.stored (create_priority_class client empty).1 k ≡ server.stored empty k)
create_priority_class-stored_example = create_priority_class-stored client server empty
