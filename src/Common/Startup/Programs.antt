-- ===== src/Common/Startup/Programs.antt =====
-- When the four main functions serve.
use admission_controller.Base.{
  ℕ, Bool, true, false, Option, none, some, Bytes, Result, ◌≡◌, refl, ◌↔◌, ◌⊎◌, inl, inr,
  Option-cases,
}
use admission_controller.Api.{Pod}
use admission_controller.Webhook.Patch.{JsonPatch}
use admission_controller.Webhook.Volumes.{PodCodec, Algorithm}
use admission_controller.Common.Certs.{Files, init_certs}
use admission_controller.Common.Clients.{Kube, get_client, get_client_by_config}
use admission_controller.Common.Registration.{
  Configurations, self_pod_mutating_webhook_registration, self_pod_validating_webhook_registration,
  self_pod_priority_webhook_registration, self_pv_mutating_webhook_registration,
}
use admission_controller.Common.Startup.{Flags, Start, exits, serves, HttpServer}
use admission_controller.Common.Startup.Serving.{Serves, CanServe, gated-Serves_iff}
use admission_controller.HostPathPvResource
use admission_controller.PodPriority
use admission_controller.PodPriority.Main.Split.{split}
use admission_controller.NsHostPathPrivilege
use admission_controller.HppvToCsiPv
use admission_controller.HostPathPvResource.Main as Scheduling
use admission_controller.PodPriority.Setup.{PriorityClasses, create_priority_class}
use admission_controller.PodPriority.Main as Priorities
use admission_controller.NsHostPathPrivilege.Lookup.{Cluster}
use admission_controller.NsHostPathPrivilege.Main as Policy
use admission_controller.HppvToCsiPv.{PvCodec}
use admission_controller.HppvToCsiPv.Main as Conversion

synced-cases : (b : Bool) → (b ≡ true) ⊎ ¬ (b ≡ true)
synced-cases true = inl refl
synced-cases false = inr λ e. absurd cc

unsynced : (b : Bool) → ¬ (b ≡ true) → b ≡ false
unsynced true h = absurd (h refl)
unsynced false h = refl

none-cases : {A : Type 0} (o : Option A) → (o ≡ none) ⊎ ¬ (o ≡ none)
none-cases none = inl refl
none-cases (some a) = inr λ e. absurd cc

module _ (kube : Kube) (files : Files) (configurations : Configurations) (synced : Bool)
    (started : ℕ) where
  -- The program gets its client and its certificate, and has a name for its webhook if it needs one.
  abbrev pub CanStart : Result kube.Client → Flags → Type 0
  CanStart client fl = CanServe kube client (init_certs files fl.certs_dir) fl

  pub scheduling-Serves :
      (codec : PodCodec) (lib : JsonPatch) (algorithm : Algorithm) (fl : Scheduling.MainFlags)
      → Serves (Scheduling.main kube files configurations codec lib algorithm synced started fl)
        ↔ (CanStart (get_client kube) fl.common × (synced ≡ true))
  unfolding Scheduling.main
  scheduling-Serves codec lib algorithm fl =
      gated-Serves_iff kube configurations (init_certs files fl.common.certs_dir) fl.common started
        (HostPathPvResource.serve codec lib
          (HostPathPvResource.new_admission_server algorithm fl.scheduler_name))
        (self_pod_mutating_webhook_registration configurations) (get_client kube)
        (Scheduling.main kube files configurations codec lib algorithm synced started fl)
        (synced-cases synced) (λ x e h. rw (e, Scheduling.main) at h)
        (λ clientset e off h. rw (unsynced synced off) at (rw (e, Scheduling.main) at h))
        (λ clientset e on. rw (e, Scheduling.main) (rw on ((λ h. h), λ h. h)))

  pub policy-Serves :
      (unmarshal_pod : Bytes → Result Pod) (cluster : Cluster) (fl : Policy.MainFlags)
      → Serves (Policy.main kube files configurations unmarshal_pod cluster synced started fl)
        ↔ (CanStart (get_client_by_config kube fl.kube_config) fl.common × (synced ≡ true))
  unfolding Policy.main
  policy-Serves unmarshal_pod cluster fl =
      gated-Serves_iff kube configurations (init_certs files fl.common.certs_dir) fl.common started
        (NsHostPathPrivilege.serve unmarshal_pod (NsHostPathPrivilege.new_admission_server cluster))
        (self_pod_validating_webhook_registration configurations)
        (get_client_by_config kube fl.kube_config)
        (Policy.main kube files configurations unmarshal_pod cluster synced started fl)
        (synced-cases synced) (λ x e h. rw (e, Policy.main) at h)
        (λ clientset e off h. rw (unsynced synced off) at (rw (e, Policy.main) at h))
        (λ clientset e on. rw (e, Policy.main) (rw on ((λ h. h), λ h. h)))

  module _ (codec : PodCodec) (lib : JsonPatch) (algorithm : Algorithm) (classes : PriorityClasses)
      (w : classes.State) where
    abbrev pub HasClasses : Type 0
    HasClasses = ((create_priority_class classes w).0 ≡ none) × (synced ≡ true)

    classes-cases : HasClasses ⊎ ¬ HasClasses
    classes-cases = elim (none-cases (create_priority_class classes w).0) [
      | inr n ↦ inr λ h. n h.0
      | inl e ↦ elim (synced-cases synced) [ inl on ↦ inl (e, on) | inr off ↦ inr λ h. off h.1 ]
    ]

    pub priorities-Serves :
        (fl : Priorities.MainFlags)
        → Serves
            (Priorities.main kube files configurations classes codec lib algorithm synced started fl
              w).0
          ↔ (CanStart (get_client kube) fl.common × HasClasses)
    unfolding Priorities.main
    priorities-Serves fl =
        gated-Serves_iff kube configurations (init_certs files fl.common.certs_dir) fl.common
          started
          (PodPriority.serve codec lib
            (PodPriority.new_admission_server algorithm (split fl.system_namespaces)))
          (self_pod_priority_webhook_registration configurations) (get_client kube)
          (Priorities.main kube files configurations classes codec lib algorithm synced started fl
            w).0
          classes-cases (λ x e h. rw (e, Priorities.main) at h)
          (λ clientset e lacking h. elim (Option-cases (create_priority_class classes w).0) [
            | inr (x, failed) ↦ rw failed at (rw (e, Priorities.main) at h)
            | inl made ↦
                rw (made, unsynced synced λ on. lacking (made, on)) at
                  (rw (e, Priorities.main) at h)
          ])
          (λ clientset e has. rw (e, Priorities.main) (rw (has.0, has.1) ((λ h. h), λ h. h)))

  module _ (codec : PvCodec) (lib : JsonPatch) where
    with_upgrades-Serves :
        (up : Option Conversion.Upgrades) (http : Start (HttpServer kube configurations))
        → Serves
            (Conversion.with_upgrades kube files configurations codec lib synced started up http)
          ↔ Serves http
    with_upgrades-Serves up (exits code) = ((λ h. h), λ h. h)
    with_upgrades-Serves up (serves a) = ((λ h. h), λ h. h)

  pub conversion-Serves :
      (codec : PvCodec) (lib : JsonPatch) (fl : Conversion.MainFlags)
      → Serves (Conversion.main kube files configurations codec lib synced started fl)
        ↔ (CanStart (get_client kube) fl.common × Unit {0})
  unfolding Conversion.main
  conversion-Serves codec lib fl =
      gated-Serves_iff kube configurations (init_certs files fl.common.certs_dir) fl.common started
        (HppvToCsiPv.serve codec lib (HppvToCsiPv.new_admission_server fl.csi_driver_name))
        (self_pv_mutating_webhook_registration configurations) (get_client kube)
        (Conversion.main kube files configurations codec lib synced started fl) (inl tt)
        (λ x e h. rw (e, Conversion.main) at h) (λ clientset e off h. absurd (off tt))
        (λ clientset e on. rw (e, Conversion.main) (with_upgrades-Serves codec lib _ _))

  module _ (codec : PodCodec) (pv_codec : PvCodec) (lib : JsonPatch) (algorithm : Algorithm)
      (cluster : Cluster) (classes : PriorityClasses) (w : classes.State) where
    -- A main function serves exactly if it gets its client, the certificates of the API server and of
    -- its own, its caches (hppvtocsipv has none) and, for podpriority, its priority classes, and if the
    -- flags give a server name or a URL where it registers its webhook itself.
    pub mains-serve_iff :
        (scheduling : Scheduling.MainFlags) (policy : Policy.MainFlags)
        (priorities : Priorities.MainFlags) (conversion : Conversion.MainFlags)
        → (Serves (
              Scheduling.main kube files configurations codec lib algorithm synced started
                scheduling)
            ↔ (CanStart (get_client kube) scheduling.common × (synced ≡ true)))
          × (Serves (
                Policy.main kube files configurations codec.unmarshal_pod cluster synced started
                  policy)
              ↔ (CanStart (get_client_by_config kube policy.kube_config) policy.common
                  × (synced ≡ true)))
          × (Serves
                (Priorities.main kube files configurations classes codec lib algorithm synced
                  started priorities w).0
              ↔ (CanStart (get_client kube) priorities.common
                  × (((create_priority_class classes w).0 ≡ none) × (synced ≡ true))))
          × (Serves
                (Conversion.main kube files configurations pv_codec lib synced started conversion)
              ↔ CanStart (get_client kube) conversion.common)
    mains-serve_iff scheduling policy priorities conversion = (
      scheduling-Serves codec lib algorithm scheduling,
      policy-Serves codec.unmarshal_pod cluster policy,
      (
        (λ h. (priorities-Serves codec lib algorithm classes w priorities).0 h),
        λ h. (priorities-Serves codec lib algorithm classes w priorities).1 h,
      ),
      (
        (λ h. ((conversion-Serves pv_codec lib conversion).0 h).0),
        λ h. (conversion-Serves pv_codec lib conversion).1 (h, tt),
      ),
    )
