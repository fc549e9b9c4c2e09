-- ===== src/PodPriority/Main.antt =====
-- The main function of pkg/podpriority/main.go. What main gets from outside is a parameter: the files,
-- the clients, the priority classes, the volume lookup on the two caches, whether WaitForCacheSync
-- succeeds, and the API server's configurations.
pub mod Split
pub mod Systems
use admission_controller.Base.{ℕ, ℤ, String, Bool, not, none, some, ok, err, if◌then◌else◌}
use admission_controller.Webhook.Patch.{JsonPatch}
use admission_controller.Webhook.Volumes.{PodCodec, Algorithm}
use admission_controller.Common.Certs.{Files, init_certs}
use admission_controller.Common.Clients.{Kube, get_client}
use admission_controller.Common.Registration.{
  Configurations, self_pod_priority_webhook_registration,
}
use admission_controller.Common.Startup.{
  Flags, default_flags, Start, exits, fatal, HttpServer, http_server,
}
use admission_controller.PodPriority.Setup.{PriorityClasses, create_priority_class}
use admission_controller.PodPriority.Main.Split.{split}
use admission_controller.PodPriority.{new_admission_server, serve}

pub record MainFlags : Type 0 where
  pub common : Flags
  pub system_namespaces : String

abbrev pub flags : MainFlags
flags = record { common = default_flags "podpriority"; system_namespaces = "k8splugin,kube-system" }

module _ (kube : Kube) (files : Files) (configurations : Configurations) (classes : PriorityClasses)
    (codec : PodCodec) (lib : JsonPatch) (algorithm : Algorithm) (wait_for_cache_sync : Bool)
    (started : ℕ) where
  open classes use {State}

  -- main, with the priority classes that it leaves
  unfoldable pub main : MainFlags → State → Start (HttpServer kube configurations) × State
  main fl w =
      let certs = init_certs files fl.common.certs_dir in
      elim (get_client kube) [
        | err e ↦ (fatal, w)
        | ok clientset ↦
            let (failed, w') = create_priority_class classes w in
            (
              elim failed [
                | some e ↦ fatal
                | none ↦
                    let server = new_admission_server algorithm (split fl.system_namespaces) in
                    if not wait_for_cache_sync
                    then fatal
                    else http_server kube configurations clientset certs fl.common started
                        (serve codec lib server)
                        (self_pod_priority_webhook_registration configurations)
              ],
              w',
            )
      ]
