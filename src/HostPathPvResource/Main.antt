-- ===== src/HostPathPvResource/Main.antt =====
-- pkg/hostpathpvresource/main.go. What main gets from outside is a parameter: the files, the clients,
-- the volume lookup on the two caches, whether WaitForCacheSync succeeds, and the API server's
-- configurations.
use admission_controller.Base.{ℕ, negsuc, String, Bool, not, ok, err, if◌then◌else◌}
use admission_controller.Webhook.Patch.{JsonPatch}
use admission_controller.Webhook.Volumes.{PodCodec, Algorithm}
use admission_controller.Common.Certs.{Files, init_certs}
use admission_controller.Common.Clients.{Kube, get_client}
use admission_controller.Common.Registration.{
  Configurations, self_pod_mutating_webhook_registration,
}
use admission_controller.Common.Startup.{
  Flags, default_flags, Start, exits, fatal, HttpServer, http_server,
}
use admission_controller.HostPathPvResource.{new_admission_server, serve}

pub record MainFlags : Type 0 where
  pub common : Flags
  pub scheduler_name : String

abbrev pub flags : MainFlags
flags = record { common = default_flags "hostpathpvresource"; scheduler_name = "enndata-scheduler" }

module _ (kube : Kube) (files : Files) (configurations : Configurations) (codec : PodCodec)
    (lib : JsonPatch) (algorithm : Algorithm) (wait_for_cache_sync : Bool) (started : ℕ) where
  unfoldable pub main : MainFlags → Start (HttpServer kube configurations)
  main fl =
      let certs = init_certs files fl.common.certs_dir in
      elim (get_client kube) [
        | err e ↦ fatal
        | ok clientset ↦
            let server = new_admission_server algorithm fl.scheduler_name in
            if not wait_for_cache_sync
            then exits (negsuc 0)
            else http_server kube configurations clientset certs fl.common started
                (serve codec lib server) (self_pod_mutating_webhook_registration configurations)
      ]
