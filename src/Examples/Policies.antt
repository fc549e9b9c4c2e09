-- ===== src/Examples/Policies.antt =====
-- The policy of the namespaces, on a concrete cluster.
use admission_controller.Base.{
  zero, suc, ◌≤◌, ◌<◌, ◌*◌, true, none, some, [], ◌∷◌, Error, ok, err, ◌≡◌, ◌⊎◌, ◌↔◌, arith,
}
use admission_controller.Api.{Pod, Namespace}
use admission_controller.NsHostPathPrivilege
use admission_controller.NsHostPathPrivilege.Lookup.{Cluster, get_namespace, millisecond}
use admission_controller.NsHostPathPrivilege.Retries.{
  requests, slept, Finds, get_namespace-bounds, get_namespace_iff,
}
use admission_controller.NsHostPathPrivilege.Policy.{Permitted, review-allowed_iff}
use admission_controller.Examples.Objects.{request_for, pod_codec}

abbrev web : Namespace
web = record {
  name = "web";
  annotations = some (("io.enndata.namespace/alpha-allowhostpath", "true") ∷ []);
}

abbrev missing : Error
missing = record { message = "not found"; not_found = true }

-- the lister does not know the namespace yet, and the API server only from the second request on
abbrev pub cluster : Cluster
cluster = record {
  lister_get = λ n. err missing;
  client_get = λ i n. elim i [ zero ↦ err missing | suc n ↦ ok web ];
  int63n = 99;
}

abbrev pub checker : NsHostPathPrivilege.AdmissionServer
checker = record { cluster = cluster }

review-allowed_iff_example :
    ((NsHostPathPrivilege.review pod_codec.unmarshal_pod checker (request_for "pods")).allowed
      ≡ true)
    ↔ ((pod : Pod) × (pod_codec.unmarshal_pod (request_for "pods").object_raw ≡ ok pod)
        × Permitted pod (get_namespace cluster "web").0.0)
review-allowed_iff_example = review-allowed_iff pod_codec.unmarshal_pod checker (request_for "pods")

get_namespace_iff_example : ((get_namespace cluster "web").0 ≡ (some web, none)) ↔ (
    (cluster.lister_get "web" ≡ ok web)
    ⊎ ((e : Error) × (cluster.lister_get "web" ≡ err e) × (e.not_found ≡ true))
      × Finds cluster "web" 3 0 web)
get_namespace_iff_example = get_namespace_iff cluster "web" web

get_namespace-bounds_example :
    (requests (get_namespace cluster "web").1 ≤ 3)
    × (slept (get_namespace cluster "web").1 < 400 * millisecond)
get_namespace-bounds_example = get_namespace-bounds cluster "web" (omega arith)
