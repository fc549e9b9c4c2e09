-- ===== src/Common/Startup/Serving.antt =====
-- When the main functions serve, and what is registered then.
use mathlib.Core.Path.{subst}
use admission_controller.Base.{
  ℕ, String, true, false, Option, none, some, Bytes, Error, Result, ok, err, ◌==◌, eq_iff, ◌≡◌, ◌≢◌,
  refl, sym, ap, ◌∙◌, ◌↔◌, ◌⊎◌, inl, inr, Bool-cases, ==_false, ne_of_==, Result-cases,
  ok-injective,
}
use admission_controller.Metrics.Endpoint.{initialize}
use admission_controller.Webhook.Serve.{Transport, Request, Outcome}
use admission_controller.Common.Certs.{CertsContainer}
use admission_controller.Common.Clients.{Kube, TlsConfig, config_tls}
use admission_controller.Common.Registration.{
  WebhookClientConfig, Configurations, client_config, admission_controller_ns,
}
use admission_controller.Common.Startup.{
  Flags, Start, exits, serves, HttpServer, http_server, handle_func, health_check,
}

abbrev pub Serves : {A : Type 0} → Start A → Type 0
Serves (exits code) = ⊥
Serves (serves a) = Unit

pub serves-injective : {A : Type 0} {a b : A} → serves a ≡ serves b → a ≡ b
serves-injective e = cc

-- A webhook that is to be registered has a server name or a URL.
abbrev pub IsNamed : Flags → Type 0
IsNamed flags =
    (flags.regist_config_auto ≡ false) ⊎ ((flags.server_name ≢ "") ⊎ (flags.server_url ≢ ""))

-- The program gets a client, a certificate from the two files of the server, and a name if it needs one.
abbrev pub CanServe : (kube : Kube) → Result kube.Client → CertsContainer → Flags → Type 0
CanServe kube client certs flags =
    (clientset : kube.Client) × (client ≡ ok clientset)
    × (tls_config : TlsConfig kube) × (config_tls kube clientset certs.server_cert certs.server_key
        ≡ ok tls_config)
    × IsNamed flags

-- The configuration has a URL, or a service of the program's namespace with a name.
abbrev pub HasAddress : WebhookClientConfig → Type 0
HasAddress config =
    ((url : String) × (url ≢ "") × (config.url ≡ some url) × (config.service ≡ none))
    ⊎ ((name : String) × (name ≢ "")
        × (config.url ≡ none)
        × (config.service ≡ some (record { namespace = admission_controller_ns; name = name })))

client_config-HasAddress :
    (server_name server_url : String) (ca_cert : Bytes)
    → (server_name ≢ "") ⊎ (server_url ≢ "")
    → HasAddress (client_config server_name server_url ca_cert)
unfolding client_config
client_config-HasAddress server_name server_url ca_cert h = elim (Bool-cases (server_url == "")) [
  | inl empty ↦ rw empty (
      inr (
        server_name,
        elim h [ inl named ↦ named | inr addressed ↦ absurd (addressed ((eq_iff _ _).0 empty)) ],
        refl,
        refl,
      ))
  | inr full ↦ rw full (inl (server_url, (λ e. cc (full, (eq_iff server_url "").1 e)), refl, refl))
]

module _ (kube : Kube) (client : Configurations) (certs : CertsContainer) (flags : Flags)
    (started : ℕ) (handler : Transport → Request → Outcome)
    (self_registration : String
      → String
      → String
      → Bytes
      → client.State
      → Option Error × client.State) where
  abbrev built : kube.Client → Start (HttpServer kube client)
  built clientset = http_server kube client clientset certs flags started handler self_registration

  abbrev Tls : kube.Client → Type 0
  Tls clientset =
      (tls_config : TlsConfig kube) × (config_tls kube clientset certs.server_cert certs.server_key
        ≡ ok tls_config)

  abbrev own_registration : client.State → Option Error × client.State
  own_registration =
      self_registration flags.web_hook_config_name flags.server_name flags.server_url certs.ca_cert

  -- the server without, and with, the goroutine that registers
  abbrev server_with :
      Option (client.State → Option Error × client.State) → TlsConfig kube → HttpServer kube client
  server_with registration tls_config = record {
    address = flags.address;
    tls_config = tls_config;
    handler = handle_func handler;
    metrics = initialize flags.metric_address (some (health_check started));
    registration = registration;
  }

  http_server_off :
      (clientset : kube.Client)
      → (tls : Tls clientset) → flags.regist_config_auto ≡ false
      → built clientset ≡ serves (server_with none tls.0)
  unfolding http_server
  http_server_off clientset (tls_config, e) off = rw (e, http_server) (rw off refl)

  http_server_on :
      (clientset : kube.Client)
      → (tls : Tls clientset) → flags.regist_config_auto ≡ true
      → (flags.server_name ≢ "") ⊎ (flags.server_url ≢ "")
      → built clientset ≡ serves (server_with (some own_registration) tls.0)
  unfolding http_server
  http_server_on clientset (tls_config, e) on named =
      rw (e, http_server)
        (elim named [
          | inl h ↦ rw (on, ==_false flags.server_name "" h) refl
          | inr h ↦ elim (Bool-cases (flags.server_name == "")) [
            | inl empty ↦ rw (on, empty) (rw (==_false flags.server_url "" h) refl)
            | inr full ↦ rw (on, full) refl
          ]
        ])

  http_server-Serves :
      (clientset : kube.Client) → Tls clientset → IsNamed flags → Serves (built clientset)
  http_server-Serves clientset tls named = elim (Bool-cases flags.regist_config_auto) [
    | inr off ↦ rw (http_server_off clientset tls off) tt
    | inl on ↦ elim named [
      | inl off ↦ absurd (cc (on, off))
      | inr h ↦ rw (http_server_on clientset tls on h) tt
    ]
  ]

  Serves-Tls : (clientset : kube.Client) → Serves (built clientset) → Tls clientset × IsNamed flags
  unfolding http_server
  Serves-Tls clientset h =
      elim (Result-cases (config_tls kube clientset certs.server_cert certs.server_key)) [
        | inr (x, e) ↦ absurd (rw (e, http_server) at h)
        | inl (tls_config, e) ↦ (
          (tls_config, e),
          elim (Bool-cases flags.regist_config_auto) [
            | inr off ↦ inl off
            | inl on ↦ elim (Bool-cases (flags.server_name == "")) [
              | inr full ↦ inr (inl (ne_of_== flags.server_name "" full))
              | inl empty ↦ elim (Bool-cases (flags.server_url == "")) [
                | inr full ↦ inr (inr (ne_of_== flags.server_url "" full))
                | inl empty' ↦ absurd (rw (on, empty, empty') at (rw (e, http_server) at h))
              ]
            ]
          ],
        )
      ]

  -- what the goroutine of a server that is built does, if there is one
  pub http_server-registration :
      (clientset : kube.Client) (http : HttpServer kube client)
      → built clientset ≡ serves http
      → ((flags.regist_config_auto ≡ false) × (http.registration ≡ none))
        ⊎ ((flags.regist_config_auto ≡ true)
            × (http.registration ≡ some own_registration)
            × HasAddress (client_config flags.server_name flags.server_url certs.ca_cert))
  http_server-registration clientset http e =
      let (tls, named) = Serves-Tls clientset (rw e tt) in
      elim (Bool-cases flags.regist_config_auto) [
        | inr off ↦ inl (
          off,
          ap (λ s. s.registration) (serves-injective (sym e ∙ http_server_off clientset tls off)),
        )
        | inl on ↦ elim named [
          | inl off ↦ absurd (cc (on, off))
          | inr h ↦ inr (
            on,
            ap (λ s. s.registration) (serves-injective (sym e ∙ http_server_on clientset tls on h)),
            client_config-HasAddress flags.server_name flags.server_url certs.ca_cert h,
          )
        ]
      ]

  ok-Serves_iff :
      (clientset : kube.Client)
      → Serves (built clientset) ↔ CanServe kube (ok clientset) certs flags
  ok-Serves_iff clientset = (
    (λ h. let (tls, named) = Serves-Tls clientset h in (clientset, refl, tls.0, tls.1, named)),
    λ (clientset', e, tls_config, tls, named).
        subst (λ c. Serves (built c)) (sym (ok-injective e))
          (http_server-Serves clientset' (tls_config, tls) named),
  )

  -- A start that ends without a client or without something else that it needs, and else is the server
  -- that is built, serves exactly if it can.
  pub gated-Serves_iff :
      {A Ready : Type 0} (got : Result kube.Client) (start : Start A)
      → Ready ⊎ ¬ Ready
      → ((e : Error) → got ≡ err e → ¬ Serves start)
      → ((clientset : kube.Client) → got ≡ ok clientset → ¬ Ready → ¬ Serves start)
      → ((clientset : kube.Client)
          → got ≡ ok clientset
          → Ready
          → Serves start ↔ Serves (built clientset))
      → Serves start ↔ (CanServe kube got certs flags × Ready)
  gated-Serves_iff got start ready no_client unready go = elim (Result-cases got) [
    | inr (x, e) ↦ ((λ h. absurd (no_client x e h)), λ (p, r). absurd (cc (e, p.1)))
    | inl (clientset, e) ↦ elim ready [
      | inr n ↦ ((λ h. absurd (unready clientset e n h)), λ (p, r). absurd (n r))
      | inl r ↦
          let (to, from) = go clientset e r in
          (
            (λ h. (rw e ((ok-Serves_iff clientset).0 (to h)), r)),
            λ (p, _). from ((ok-Serves_iff clientset).1 (rw e at p)),
          )
    ]
  ]
