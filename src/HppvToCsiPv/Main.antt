-- ===== src/HppvToCsiPv/Main.antt =====
-- pkg/hppvtocsipv/main.go. What main gets from outside is a parameter: the files, the clients, whether
-- the WaitForCacheSync of the upgrades succeeds, and the API server's configurations.
use admission_controller.Base.{ℕ, String, Bool, false, Option, none, some, ok, err, if◌then◌else◌}
use admission_controller.Webhook.Patch.{JsonPatch}
use admission_controller.Common.Certs.{Files, init_certs}
use admission_controller.Common.Clients.{Kube, get_client}
use admission_controller.Common.Registration.{Configurations, self_pv_mutating_webhook_registration}
use admission_controller.Common.Startup.{
  Flags, default_flags, Start, exits, serves, fatal, HttpServer, http_server,
}
use admission_controller.HppvToCsiPv.Upgrade.Manager.Lifecycle.{
  PvUpdateManager, new_pv_update_manager, start,
}
use admission_controller.HppvToCsiPv.{PvCodec, new_admission_server, serve}

pub record MainFlags : Type 0 where
  pub common : Flags
  pub csi_driver_name : String
  pub update_hostpathpv_csi : Bool
  -- in nanoseconds
  pub update_hostpathpv_csi_interval : ℕ
  pub upgradeimage : String

abbrev pub flags : MainFlags
flags = record {
  common = default_flags "hppvtocsipv";
  csi_driver_name = "xfshostpathplugin";
  update_hostpathpv_csi = false;
  update_hostpathpv_csi_interval = 3_600_000_000_000;
  upgradeimage = "127.0.0.1:29006/library/busybox:1.25";
}

-- The manager of the upgrades, after its start, whose Stop a signal calls
pub record Upgrades : Type 0 where
  pub update_interval : ℕ
  pub upgrade_image : String
  pub manager : PvUpdateManager

module _ (kube : Kube) (files : Files) (configurations : Configurations) (codec : PvCodec)
    (lib : JsonPatch) (wait_for_cache_sync : Bool) (started : ℕ) where
  unfoldable pub upgrades : MainFlags → Option Upgrades
  upgrades fl =
      if fl.update_hostpathpv_csi
      then some (record {
        update_interval = fl.update_hostpathpv_csi_interval;
        upgrade_image = fl.upgradeimage;
        manager = start wait_for_cache_sync new_pv_update_manager;
      })
      else none

  -- the server with the upgrades, if there are any
  abbrev pub with_upgrades :
      Option Upgrades
      → Start (HttpServer kube configurations)
      → Start (HttpServer kube configurations × Option Upgrades)
  with_upgrades up (exits code) = exits code
  with_upgrades up (serves http) = serves (http, up)

  unfoldable pub main : MainFlags → Start (HttpServer kube configurations × Option Upgrades)
  unfolding upgrades
  main fl =
      let certs = init_certs files fl.common.certs_dir in
      elim (get_client kube) [
        | err e ↦ fatal
        | ok clientset ↦
            let server = new_admission_server fl.csi_driver_name in
            with_upgrades (upgrades fl) (
              http_server kube configurations clientset certs fl.common started
                (serve codec lib server) (self_pv_mutating_webhook_registration configurations))
      ]
