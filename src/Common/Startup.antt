-- ===== src/Common/Startup.antt =====
-- What the main functions of the four programs share (pkg/*/main.go): the flags, the HTTP server with
-- its handler, and the last part of main, from ConfigTLS to ListenAndServeTLS. The time that the
-- servers listen is not modelled.
pub mod Handler
pub mod Serving
pub mod Programs
pub mod Registered
use admission_controller.Base.{
  ℕ, ℤ, pos, negsuc, String, Bool, true, false, ◌&&◌, Option, none, some, Bytes, Error, Result, ok,
  err, ◌==◌, if◌then◌else◌,
}
use admission_controller.Metrics.HealthCheck.{HealthCheck, new_health_check, update_last_activity}
use admission_controller.Metrics.Endpoint.{Endpoint, initialize}
use admission_controller.Webhook.Serve.{Transport, Request, Outcome, returned, panicked}
use admission_controller.Common.Certs.{CertsContainer}
use admission_controller.Common.Clients.{Kube, TlsConfig, config_tls}
use admission_controller.Common.Registration.{Configurations}

pub record Flags : Type 0 where
  pub certs_dir : String
  pub metric_address : String
  pub address : String
  pub web_hook_config_name : String
  pub server_name : String
  pub server_url : String
  pub regist_config_auto : Bool

-- the defaults, which differ in the name of the configuration only
abbrev pub default_flags : String → Flags
default_flags config_name = record {
  certs_dir = "/etc/tls-certs";
  metric_address = ":8001";
  address = ":8000";
  web_hook_config_name = config_name;
  server_name = "";
  server_url = "";
  regist_config_auto = true;
}

-- `time.Minute`, in nanoseconds
abbrev pub minute : ℕ
minute = 60_000_000_000

-- metrics.NewHealthCheck, as every main calls it
abbrev pub health_check : ℕ → HealthCheck
health_check now = new_health_check minute false now

-- How main goes on: it ends the process with a code, or serves.
pub data Start {ℓ} (A : Type ℓ) : Type ℓ where
  exits : ℤ → Start A
  serves : A → Start A

-- glog.Fatal, which logs and exits with 255
abbrev pub fatal {ℓ} : {A : Type ℓ} → Start A
fatal = exits (pos 255)

-- The handler that the ServeMux gets: Serve, then UpdateLastActivity, which a panic of Serve skips. The
-- last argument is the time when Serve returns.
unfoldable pub handle_func :
    (Transport → Request → Outcome) → Transport → Request → HealthCheck → ℕ → Outcome × HealthCheck
handle_func serve t r hc now = elim (serve t r) [
  | returned es ↦ (returned es, update_last_activity hc now)
  | panicked es ↦ (panicked es, hc)
]

module _ (kube : Kube) (client : Configurations) where
  open client use {State}

  -- http.Server, and the goroutine that registers the webhook, if there is one; its error is that of a
  -- glog.Fatal
  pub record HttpServer : Type 0 where
    pub address : String
    pub tls_config : TlsConfig kube
    pub handler : Transport → Request → HealthCheck → ℕ → Outcome × HealthCheck
    pub metrics : Endpoint
    pub registration : Option (State → Option Error × State)

  -- from the making of the HTTP server to the end, for a program started at the time, with one of the four functions that register
  unfoldable pub http_server :
      kube.Client
      → CertsContainer
      → Flags
      → ℕ
      → (Transport → Request → Outcome)
      → (String → String → String → Bytes → State → Option Error × State)
      → Start HttpServer
  http_server clientset certs flags started serve self_registration =
      elim (config_tls kube clientset certs.server_cert certs.server_key) [
        | err e ↦ fatal
        | ok tls_config ↦
            let server : HttpServer = record {
              address = flags.address;
              tls_config = tls_config;
              handler = handle_func serve;
              metrics = initialize flags.metric_address (some (health_check started));
              registration = none;
            } in
            if flags.regist_config_auto
            then if (flags.server_name == "") && (flags.server_url == "")
              then fatal
              else serves (record server {
                registration = some (
                    self_registration flags.web_hook_config_name flags.server_name flags.server_url
                      certs.ca_cert);
              })
            else serves server
      ]
