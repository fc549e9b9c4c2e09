-- ===== src/Common/Startup/Registered/Mains.antt =====
-- What each of the four main functions registers.
use admission_controller.Base.{ℕ, Bool, Option, Bytes, Result, ◌≡◌, refl, sym}
use admission_controller.Webhook.Patch.{JsonPatch}
use admission_controller.Webhook.Volumes.{PodCodec, Algorithm}
use admission_controller.Common.Certs.{Files, init_certs}
use admission_controller.Common.Clients.{Kube}
use admission_controller.Common.Registration.{
  Configurations, pod_mutating_config, pod_validating_config, pod_priority_config,
  pv_mutating_config, self_pod_mutating_webhook_registration,
  self_pod_validating_webhook_registration, self_pod_priority_webhook_registration,
  self_pv_mutating_webhook_registration,
}
use admission_controller.Common.Registration.Stored.{Answers}
use admission_controller.Common.Startup.{Start, exits, serves, HttpServer, http_server}
use admission_controller.Common.Startup.Serving.{Serves}
use admission_controller.Common.Startup.Programs.{
  scheduling-Serves, policy-Serves, priorities-Serves, conversion-Serves,
}
use admission_controller.Api.{Pod}
use admission_controller.HostPathPvResource
use admission_controller.PodPriority
use admission_controller.PodPriority.Main.Split.{split}
use admission_controller.NsHostPathPrivilege
use admission_controller.HppvToCsiPv
use admission_controller.HostPathPvResource.Main as Scheduling
use admission_controller.PodPriority.Setup.{PriorityClasses}
use admission_controller.PodPriority.Main as Priorities
use admission_controller.NsHostPathPrivilege.Lookup.{Cluster}
use admission_controller.NsHostPathPrivilege.Main as Policy
use admission_controller.HppvToCsiPv.{PvCodec}
use admission_controller.HppvToCsiPv.Main as Conversion
use admission_controller.Common.Startup.Registered.{Registers, start-Registers}

module _ (kube : Kube) (files : Files) (client : Configurations) (server : Answers client)
    (started : ℕ) where
  scheduling-Registers :
      (synced : Bool) (codec : PodCodec) (lib : JsonPatch) (algorithm : Algorithm)
      (fl : Scheduling.MainFlags) (w : client.State)
      → Registers kube files client server pod_mutating_config fl.common
          (Scheduling.main kube files client codec lib algorithm synced started fl)
          w
  unfolding Scheduling.main self_pod_mutating_webhook_registration
  scheduling-Registers synced codec lib algorithm fl w =
      start-Registers kube files client server pod_mutating_config fl.common started
        (HostPathPvResource.serve codec lib
          (HostPathPvResource.new_admission_server algorithm fl.scheduler_name))
        (self_pod_mutating_webhook_registration client)
        (λ name server_name server_url ca_cert. refl) w
        (Scheduling.main kube files client codec lib algorithm synced started fl)
        λ h.
          let (can, on) =
            (scheduling-Serves kube files client synced started codec lib algorithm fl).0 h in
          (can.0, sym (rw (can.1, Scheduling.main) (rw on refl)))

  policy-Registers :
      (synced : Bool) (unmarshal_pod : Bytes → Result Pod) (cluster : Cluster)
      (fl : Policy.MainFlags) (w : client.State)
      → Registers kube files client server pod_validating_config fl.common
          (Policy.main kube files client unmarshal_pod cluster synced started fl)
          w
  unfolding Policy.main self_pod_validating_webhook_registration
  policy-Registers synced unmarshal_pod cluster fl w =
      start-Registers kube files client server pod_validating_config fl.common started
        (NsHostPathPrivilege.serve unmarshal_pod (NsHostPathPrivilege.new_admission_server cluster))
        (self_pod_validating_webhook_registration client)
        (λ name server_name server_url ca_cert. refl) w
        (Policy.main kube files client unmarshal_pod cluster synced started fl)
        λ h.
          let (can, on) =
            (policy-Serves kube files client synced started unmarshal_pod cluster fl).0 h in
          (can.0, sym (rw (can.1, Policy.main) (rw on refl)))

  priorities-Registers :
      (synced : Bool) (codec : PodCodec) (lib : JsonPatch) (algorithm : Algorithm)
      (classes : PriorityClasses) (v : classes.State) (fl : Priorities.MainFlags) (w : client.State)
      → Registers kube files client server pod_priority_config fl.common
          (Priorities.main kube files client classes codec lib algorithm synced started fl v).0
          w
  unfolding Priorities.main self_pod_priority_webhook_registration
  priorities-Registers synced codec lib algorithm classes v fl w =
      start-Registers kube files client server pod_priority_config fl.common started
        (PodPriority.serve codec lib
          (PodPriority.new_admission_server algorithm (split fl.system_namespaces)))
        (self_pod_priority_webhook_registration client)
        (λ name server_name server_url ca_cert. refl) w
        (Priorities.main kube files client classes codec lib algorithm synced started fl v).0
        λ h.
          let (can, has) =
            (priorities-Serves kube files client synced started codec lib algorithm classes v fl).0
              h in
          (can.0, sym (rw (can.1, Priorities.main) (rw (has.0, has.1) refl)))

  -- the HTTP server of hppvtocsipv, without its upgrades
  abbrev pub http_of :
      Start (HttpServer kube client × Option Conversion.Upgrades) → Start (HttpServer kube client)
  http_of (exits code) = exits code
  http_of (serves (http, up)) = serves http

  http_of-Serves :
      (start : Start (HttpServer kube client × Option Conversion.Upgrades))
      → Serves (http_of start)
      → Serves start
  http_of-Serves (exits code) h = h
  http_of-Serves (serves (http, up)) h = h

  http_of-with_upgrades :
      (synced : Bool) (codec : PvCodec) (lib : JsonPatch) (up : Option Conversion.Upgrades)
      (built : Start (HttpServer kube client))
      → http_of (Conversion.with_upgrades kube files client codec lib synced started up built)
        ≡ built
  http_of-with_upgrades synced codec lib up (exits code) = refl
  http_of-with_upgrades synced codec lib up (serves http) = refl

  conversion-Registers :
      (synced : Bool) (codec : PvCodec) (lib : JsonPatch) (fl : Conversion.MainFlags)
      (w : client.State)
      → Registers kube files client server pv_mutating_config fl.common
          (http_of (Conversion.main kube files client codec lib synced started fl))
          w
  unfolding Conversion.main self_pv_mutating_webhook_registration
  conversion-Registers synced codec lib fl w =
      start-Registers kube files client server pv_mutating_config fl.common started
        (HppvToCsiPv.serve codec lib (HppvToCsiPv.new_admission_server fl.csi_driver_name))
        (self_pv_mutating_webhook_registration client) (λ name server_name server_url ca_cert. refl)
        w (http_of (Conversion.main kube files client codec lib synced started fl))
        λ h.
          let can =
            ((conversion-Serves kube files client synced started codec lib fl).0 (
              http_of-Serves (Conversion.main kube files client codec lib synced started fl)
                h)).0 in
          (
            can.0,
            sym (
                rw (can.1, Conversion.main)
                  (http_of-with_upgrades synced codec lib
                    (Conversion.upgrades kube files client codec lib synced started fl)
                    (http_server kube client can.0 (init_certs files fl.common.certs_dir) fl.common
                      started
                      (HppvToCsiPv.serve codec lib
                        (HppvToCsiPv.new_admission_server fl.csi_driver_name))
                      (self_pv_mutating_webhook_registration client)))),
          )

  module _ (synced : Bool) (codec : PodCodec) (pv_codec : PvCodec) (lib : JsonPatch)
      (algorithm : Algorithm) (cluster : Cluster) (classes : PriorityClasses)
      (v : classes.State) where
    -- Against an API server that answers as `Answers` says, in any state of it: each main function does
    -- not serve; or its flags ask for no registration, and it makes no goroutine for one; or
    -- the goroutine stores the configuration of that program under the name from the flags, whatever
    -- was there before, with the certificate from the file and with the URL of the flags or, if that
    -- is empty, the service that they name, which is not empty then, and changes no other configuration.
    pub mains-Registers :
        (scheduling : Scheduling.MainFlags) (policy : Policy.MainFlags)
        (priorities : Priorities.MainFlags) (conversion : Conversion.MainFlags) (w : client.State)
        → Registers kube files client server pod_mutating_config scheduling.common
            (Scheduling.main kube files client codec lib algorithm synced started scheduling)
            w
          × Registers kube files client server pod_validating_config policy.common
              (Policy.main kube files client codec.unmarshal_pod cluster synced started policy)
              w
          × Registers kube files client server pod_priority_config priorities.common
              (Priorities.main kube files client classes codec lib algorithm synced started
                priorities v).0
              w
          × Registers kube files client server pv_mutating_config conversion.common
              (http_of (Conversion.main kube files client pv_codec lib synced started conversion))
              w
    mains-Registers scheduling policy priorities conversion w = (
      scheduling-Registers synced codec lib algorithm scheduling w,
      policy-Registers synced codec.unmarshal_pod cluster policy w,
      priorities-Registers synced codec lib algorithm classes v priorities w,
      conversion-Registers synced pv_codec lib conversion w,
    )
