-- ===== src/NsHostPathPrivilege/Main.antt =====
-- pkg/nshostpathprivilege/main.go. What main gets from outside is a parameter: the files, the clients,
-- the namespaces, whether WaitForCacheSync succeeds, and the API server's configurations.
use admission_controller.Base.{
  ℕ, pos, negsuc, String, Bool, not, Bytes, Result, ok, err, if◌then◌else◌,
}
use admission_controller.Api.{Pod}
use admission_controller.Common.Certs.{Files, init_certs}
use admission_controller.Common.Clients.{Kube, get_client_by_config}
use admission_controller.Common.Registration.{
  Configurations, self_pod_validating_webhook_registration,
}
use admission_controller.Common.Startup.{
  Flags, default_flags, Start, exits, HttpServer, http_server,
}
use admission_controller.NsHostPathPrivilege.Lookup.{Cluster}
use admission_controller.NsHostPathPrivilege.{new_admission_server, serve}

pub record MainFlags : Type 0 where
  pub common : Flags
  pub kube_config : String

abbrev pub flags : MainFlags
flags = record { common = default_flags "nshostpathprivilege"; kube_config = "" }

module _ (kube : Kube) (files : Files) (configurations : Configurations)
    (unmarshal_pod : Bytes → Result Pod) (cluster : Cluster) (wait_for_cache_sync : Bool)
    (started : ℕ) where
  unfoldable pub main : MainFlags → Start (HttpServer kube configurations)
  main fl =
      let certs = init_certs files fl.common.certs_dir in
      elim (get_client_by_config kube fl.kube_config) [
        | err e ↦ exits (pos 1)
        | ok clientset ↦
            let server = new_admission_server cluster in
            if not wait_for_cache_sync
            then exits (negsuc 0)
            else http_server kube configurations clientset certs fl.common started
                (serve unmarshal_pod server)
                (self_pod_validating_webhook_registration configurations)
      ]
