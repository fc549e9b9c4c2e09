-- ===== src/Common/Startup/Registered.antt =====
-- What the programs register when they serve.
pub mod Mains
use mathlib.Core.Path.{subst}
use admission_controller.Base.{
  ℕ, String, Bool, true, false, Option, none, some, Bytes, Error, Result, ok, err, ◌≡◌, refl, sym,
  ap, ◌∙◌, ◌↔◌, ◌⊎◌, inl, inr,
}
use admission_controller.Webhook.Patch.{JsonPatch}
use admission_controller.Webhook.Volumes.{PodCodec, Algorithm}
use admission_controller.Webhook.Serve.{Transport, Request, Outcome}
use admission_controller.Common.Certs.{Files, CertsContainer, init_certs}
use admission_controller.Common.Clients.{Kube}
use admission_controller.Common.Registration.{
  WebhookClientConfig, WebhookConfiguration, Configurations, client_config, register,
  pod_mutating_config, pod_validating_config, pod_priority_config, pv_mutating_config,
  self_pod_mutating_webhook_registration, self_pod_validating_webhook_registration,
  self_pod_priority_webhook_registration, self_pv_mutating_webhook_registration,
}
use admission_controller.Common.Registration.Stored.{Answers, IsRegistered, register-IsRegistered}
use admission_controller.Common.Startup.{Flags, Start, exits, serves, HttpServer, http_server}
use admission_controller.Common.Startup.Serving.{Serves, HasAddress, http_server-registration}
use admission_controller.Common.Startup.Programs.{
  scheduling-Serves, policy-Serves, priorities-Serves, conversion-Serves,
}
use admission_controller.Api.{Pod}
use admission_controller.HostPathPvResource
use admission_controller.PodPriority
use admission_controller.PodPriority.Main.Split.{split}
use admission_controller.NsHostPathPrivilege
use admission_controller.HppvToCsiPv
use admission_controller.HostPathPvResource.Main as Scheduling
use admission_controller.PodPriority.Setup.{PriorityClasses}
use admission_controller.PodPriority.Main as Priorities
use admission_controller.NsHostPathPrivilege.Lookup.{Cluster}
use admission_controller.NsHostPathPrivilege.Main as Policy
use admission_controller.HppvToCsiPv.{PvCodec}
use admission_controller.HppvToCsiPv.Main as Conversion

module _ (kube : Kube) (files : Files) (client : Configurations) (server : Answers client) where
  -- the client config from the flags and the certificate's file
  abbrev pub own_config : Flags → WebhookClientConfig
  own_config fl = client_config fl.server_name fl.server_url (init_certs files fl.certs_dir).ca_cert

  -- The server has no goroutine that registers, as the flags say; or it has one, which stores the
  -- configuration under its name and changes no other, and the configuration has an address.
  abbrev pub RegistersOwn :
      (String → WebhookClientConfig → WebhookConfiguration)
      → Flags
      → HttpServer kube client
      → client.State
      → Type 0
  RegistersOwn make fl http w =
      ((fl.regist_config_auto ≡ false) × (http.registration ≡ none))
      ⊎ ((registration : client.State → Option Error × client.State) × (fl.regist_config_auto
            ≡ true)
          × (http.registration ≡ some registration)
          × IsRegistered client server (make fl.web_hook_config_name (own_config fl)) w
              (registration w)
          × HasAddress (own_config fl))

  abbrev pub Registers :
      (String → WebhookClientConfig → WebhookConfiguration)
      → Flags
      → Start (HttpServer kube client)
      → client.State
      → Type 0
  Registers make fl start w =
      (¬ Serves start)
      ⊎ ((http : HttpServer kube client) × (start ≡ serves http) × RegistersOwn make fl http w)

  module _ (make : String → WebhookClientConfig → WebhookConfiguration) (fl : Flags) (started : ℕ)
      (handler : Transport → Request → Outcome)
      (self_registration : String
        → String
        → String
        → Bytes
        → client.State
        → Option Error × client.State)
      (by_register : (name server_name server_url : String) (ca_cert : Bytes)
        → self_registration name server_name server_url ca_cert
          ≡ register client (make name (client_config server_name server_url ca_cert)))
      (w : client.State) where
    abbrev certs : CertsContainer
    certs = init_certs files fl.certs_dir

    built-RegistersOwn :
        (clientset : kube.Client) (http : HttpServer kube client)
        → http_server kube client clientset certs fl started handler self_registration ≡ serves http
        → RegistersOwn make fl http w
    built-RegistersOwn clientset http e =
        elim (http_server-registration kube client certs fl started handler self_registration
          clientset http e) [
            | inl off ↦ inl off
            | inr (on, r, addressed) ↦ inr (
              self_registration fl.web_hook_config_name fl.server_name fl.server_url certs.ca_cert,
              on,
              r,
              subst
                  (λ action.
                    IsRegistered client server (make fl.web_hook_config_name (own_config fl)) w
                      (action w))
                  (sym (
                    by_register fl.web_hook_config_name fl.server_name fl.server_url certs.ca_cert))
                  (register-IsRegistered client server
                    (make fl.web_hook_config_name (own_config fl)) w),
              addressed,
            )
          ]

    -- A start that is the building of the server, if it serves, registers.
    pub start-Registers :
        (start : Start (HttpServer kube client))
        → (Serves start
            → (clientset : kube.Client) × (http_server kube client clientset certs fl started
                  handler self_registration
                ≡ start))
        → Registers make fl start w
    start-Registers (exits code) built = inl λ h. h
    start-Registers (serves http) built =
        let (clientset, e) = built tt in inr (http, refl, built-RegistersOwn clientset http e)
