-- ===== src/Examples/Startups.antt =====
-- The start of the programs with certificates of three bytes, an API server that has no webhook yet,
-- and a server name in the flags.
use admission_controller.Base.{
  ℕ, ◌-◌, String, true, none, some, List, [], ◌∷◌, ◌++◌, Bytes, Error, ok, err, ◌≡◌, refl, ◌↔◌,
  length, arith,
}
use admission_controller.Metrics.HealthCheck.{serve_http, healthy, latest}
use admission_controller.Common.Certs.{Files, zeros, read_file}
use admission_controller.Common.Certs.Cut.{take, read_file-eq_iff}
use admission_controller.Common.Clients.{Kube, get_client, get_client_by_config}
use admission_controller.Common.Registration.{
  Configurations, pod_mutating_config, pod_validating_config, pod_priority_config,
  pv_mutating_config,
}
use admission_controller.Common.Registration.Stored.{ByName, set, Answers}
use admission_controller.Common.Startup.{Flags, default_flags, health_check}
use admission_controller.Common.Startup.Handler.{handle_all, returns, handle_all-healthy}
use admission_controller.Common.Startup.Serving.{Serves}
use admission_controller.Common.Startup.Programs.{CanStart, mains-serve_iff}
use admission_controller.Common.Startup.Registered.{Registers}
use admission_controller.Common.Startup.Registered.Mains.{http_of, mains-Registers}
use admission_controller.PodPriority.Setup.{create_priority_class}
use admission_controller.PodPriority.Main as Priorities
use admission_controller.HostPathPvResource
use admission_controller.HostPathPvResource.Main as Scheduling
use admission_controller.NsHostPathPrivilege.Main as Policy
use admission_controller.HppvToCsiPv.Main as Conversion
use admission_controller.Webhook.Serve.{Transport, Request}
use admission_controller.Examples.Objects.{
  data_pv, request_for, review_of, pod_codec, algorithm, json_patch, transport, json_request,
}
use admission_controller.Examples.Pods.{client, empty, scheduler}
use admission_controller.Examples.Policies.{cluster}
use admission_controller.Examples.Volumes.{codec_of}

abbrev pem : Bytes
pem = b'p' ∷ b'e' ∷ b'm' ∷ []

-- every file has the three bytes
abbrev files : Files
files = record {
  File = String;
  open_file = λ n. ok n;
  read = λ f n. ok (take n pem);
  join = λ dir n. n;
}

read_file-eq_iff_example :
    (read_file files "caCert.pem" ≡ take 5000 pem ++ zeros (5000 - length pem))
    × ((read_file files "caCert.pem" ≡ pem) ↔ (length pem ≡ 5000))
read_file-eq_iff_example =
    read_file-eq_iff files "caCert.pem" "caCert.pem" pem refl (omega arith) (λ n _. refl)

-- a cluster that gives clients, and takes every key pair
abbrev kube : Kube
kube = record {
  Config = String;
  Client = String;
  CertPool = String;
  Certificate = Bytes;
  in_cluster_config = ok "cluster";
  build_config_from_flags = λ master path. ok path;
  new_for_config = λ config. ok config;
  get_config_map = λ c ns n. ok (("client-ca-file", "ca") ∷ []);
  show_data = λ d. "data";
  pool_of = λ cert. cert;
  x509_key_pair = λ cert key. ok cert;
}

abbrev missing : Error
missing = record { message = "not found"; not_found = true }

abbrev webhooks : Configurations
webhooks = record {
  State = ByName;
  get = λ n w. (elim (w n) [ none ↦ err missing | some c ↦ ok c ], w);
  delete = λ n w. (none, set n none w);
  create = λ c w. (none, set c.name (some c) w);
}

abbrev answers : Answers webhooks
answers = record {
  stored = λ w. w;
  stored-get = λ n w. refl;
  finds = λ n w c h. rw h refl;
  misses = λ n w h. (missing, rw h refl);
  deletes = λ n w c h. (refl, refl);
  creates = λ c w h. (refl, refl);
}

abbrev no_webhooks : ByName
no_webhooks n = none

abbrev with_server : Flags → Flags
with_server fl = record fl { server_name = "webhook" }

abbrev scheduling_flags : Scheduling.MainFlags
scheduling_flags = record Scheduling.flags {
  common = with_server (default_flags "hostpathpvresource");
}

abbrev policy_flags : Policy.MainFlags
policy_flags = record Policy.flags { common = with_server (default_flags "nshostpathprivilege") }

-- this one names no server
abbrev priority_flags : Priorities.MainFlags
priority_flags = Priorities.flags

abbrev conversion_flags : Conversion.MainFlags
conversion_flags = record Conversion.flags {
  common = with_server (default_flags "hppvtocsipv");
  update_hostpathpv_csi = true;
}

mains-serve_iff_example :
    (Serves
        (Scheduling.main kube files webhooks pod_codec json_patch algorithm true 5 scheduling_flags)
      ↔ (CanStart kube files webhooks true 5 (get_client kube) scheduling_flags.common
          × (true ≡ true)))
    × (Serves (Policy.main kube files webhooks pod_codec.unmarshal_pod cluster true 5 policy_flags)
        ↔ (CanStart kube files webhooks true 5
              (get_client_by_config kube policy_flags.kube_config)
              policy_flags.common
            × (true ≡ true)))
    × (Serves
          (Priorities.main kube files webhooks client pod_codec json_patch algorithm true 5
            priority_flags empty).0
        ↔ (CanStart kube files webhooks true 5 (get_client kube) priority_flags.common
            × (((create_priority_class client empty).0 ≡ none) × (true ≡ true))))
    × (Serves (
          Conversion.main kube files webhooks (codec_of data_pv) json_patch true 5 conversion_flags)
        ↔ CanStart kube files webhooks true 5 (get_client kube) conversion_flags.common)
mains-serve_iff_example =
    mains-serve_iff kube files webhooks true 5 pod_codec (codec_of data_pv) json_patch algorithm
      cluster client empty scheduling_flags policy_flags priority_flags conversion_flags

mains-Registers_example :
    Registers kube files webhooks answers pod_mutating_config scheduling_flags.common
      (Scheduling.main kube files webhooks pod_codec json_patch algorithm true 5 scheduling_flags)
      no_webhooks
    × Registers kube files webhooks answers pod_validating_config policy_flags.common
        (Policy.main kube files webhooks pod_codec.unmarshal_pod cluster true 5 policy_flags)
        no_webhooks
    × Registers kube files webhooks answers pod_priority_config priority_flags.common
        (Priorities.main kube files webhooks client pod_codec json_patch algorithm true 5
          priority_flags empty).0
        no_webhooks
    × Registers kube files webhooks answers pv_mutating_config conversion_flags.common
        (http_of kube files webhooks answers 5 (
          Conversion.main kube files webhooks
            (codec_of data_pv)
            json_patch
            true
            5
            conversion_flags))
        no_webhooks
mains-Registers_example =
    mains-Registers kube files webhooks answers 5 true pod_codec (codec_of data_pv) json_patch
      algorithm cluster client empty scheduling_flags policy_flags priority_flags conversion_flags
      no_webhooks

-- a request that is served, and one that makes the handler panic
abbrev requests : List (Transport × Request × ℕ)
requests =
    (transport (review_of (request_for "pods")), json_request, 20)
    ∷ (transport (review_of (request_for "secrets")), json_request, 30)
    ∷ []

handle_all-healthy_example :
    ((handle_all
        (HostPathPvResource.serve pod_codec json_patch scheduler)
        (health_check 5)
        requests).last_activity
      ≡ latest 5 (returns (HostPathPvResource.serve pod_codec json_patch scheduler) requests))
    × (serve_http
          (handle_all
            (HostPathPvResource.serve pod_codec json_patch scheduler)
            (health_check 5)
            requests)
          100_000_000_000
        ≡ (200, healthy))
handle_all-healthy_example =
    handle_all-healthy (HostPathPvResource.serve pod_codec json_patch scheduler) 5 100_000_000_000
      requests
