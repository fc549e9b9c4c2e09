-- ===== src/Common/Registration.antt =====
-- The four registration functions of pkg/common/config.go: a webhook configuration of the program's
-- name is deleted, if there is one, and created anew. The API server's configurations are a parameter;
-- the error of a `glog.Fatal`, which ends the process, is the result.
pub mod Stored
pub mod Coverage
use admission_controller.Base.{
  String, not, Option, none, some, List, [], ◌∷◌, Bytes, Error, Result, ok, err, ◌==◌,
  if◌then◌else◌,
}
use admission_controller.Api.{create, update}

-- admissionregistration/v1beta1
pub record ServiceReference : Type 0 where
  pub namespace : String
  pub name : String

pub record WebhookClientConfig : Type 0 where
  pub url : Option String
  pub service : Option ServiceReference
  pub ca_bundle : Bytes

pub record LabelSelectorRequirement : Type 0 where
  pub key : String
  pub operator : String
  pub values : List String

pub record RuleWithOperations : Type 0 where
  pub operations : List String
  pub api_groups : List String
  pub api_versions : List String
  pub resources : List String

pub record Webhook : Type 0 where
  pub name : String
  -- the requirements of the selector, if there is one
  pub namespace_selector : Option (List LabelSelectorRequirement)
  pub failure_policy : String
  pub rules : List RuleWithOperations
  pub client_config : WebhookClientConfig

-- ValidatingWebhookConfiguration and MutatingWebhookConfiguration, which have the same fields
pub record WebhookConfiguration : Type 0 where
  pub name : String
  pub webhooks : List Webhook

-- ValidatingWebhookConfigurations() or MutatingWebhookConfigurations(), on a state of the API server
pub record Configurations : Type 1 where
  pub State : Type 0
  pub get : String → State → Result WebhookConfiguration × State
  pub delete : String → State → Option Error × State
  pub create : WebhookConfiguration → State → Option Error × State

abbrev pub admission_controller_ns : String
admission_controller_ns = "k8splugin"

unfoldable pub client_config : String → String → Bytes → WebhookClientConfig
client_config server_name server_url ca_cert =
    if not (server_url == "")
    then record { url = some server_url; service = none; ca_bundle = ca_cert }
    else record {
      url = none;
      service = some (record { namespace = admission_controller_ns; name = server_name });
      ca_bundle = ca_cert;
    }

-- The selector of three of the webhooks: the namespaces that are not labelled to be ignored.
abbrev pub not_ignored : List LabelSelectorRequirement
not_ignored =
    record {
      key = "enndata.cn/ignore-admission-controller-webhook";
      operator = "NotIn";
      values = "true" ∷ [];
    }
    ∷ []

-- a rule on a resource of the core group
abbrev pub core_rule : List String → String → RuleWithOperations
core_rule operations resource = record {
  operations = operations;
  api_groups = "" ∷ [];
  api_versions = "v1" ∷ [];
  resources = resource ∷ [];
}

abbrev pub fail : String
fail = "Fail"

abbrev pub ignore : String
ignore = "Ignore"

-- what the four functions create
unfoldable pub pod_validating_config : String → WebhookClientConfig → WebhookConfiguration
pod_validating_config config_name config = record {
  name = config_name;
  webhooks =
      record {
        name = "nshp.enndata.cn";
        namespace_selector = some not_ignored;
        failure_policy = fail;
        rules = core_rule (create ∷ update ∷ []) "pods" ∷ [];
        client_config = config;
      }
      ∷ [];
}

unfoldable pub pod_mutating_config : String → WebhookClientConfig → WebhookConfiguration
pod_mutating_config config_name config = record {
  name = config_name;
  webhooks =
      record {
        name = "hppvr.enndata.cn";
        namespace_selector = some not_ignored;
        failure_policy = fail;
        rules = core_rule (create ∷ []) "pods" ∷ [];
        client_config = config;
      }
      ∷ [];
}

unfoldable pub pv_mutating_config : String → WebhookClientConfig → WebhookConfiguration
pv_mutating_config config_name config = record {
  name = config_name;
  webhooks =
      record {
        name = "hppvtocsipv.enndata.cn";
        namespace_selector = some not_ignored;
        failure_policy = ignore;
        rules = core_rule (create ∷ []) "persistentvolumes" ∷ [];
        client_config = config;
      }
      ∷ [];
}

unfoldable pub pod_priority_config : String → WebhookClientConfig → WebhookConfiguration
pod_priority_config config_name config = record {
  name = config_name;
  webhooks =
      record {
        name = "podpriority.enndata.cn";
        namespace_selector = none;
        failure_policy = ignore;
        rules = core_rule (create ∷ []) "pods" ∷ [];
        client_config = config;
      }
      ∷ [];
}

module _ (client : Configurations) where
  open client use {State}

  -- after Get: an error of Get is taken for a configuration that is not there
  abbrev pub replace :
      Result WebhookConfiguration → WebhookConfiguration → State → Option Error × State
  replace (err e) webhook_config w = client.create webhook_config w
  replace (ok _) webhook_config w =
      let (failed, w') = client.delete webhook_config.name w in
      elim failed [ some e ↦ (some e, w') | none ↦ client.create webhook_config w' ]

  unfoldable pub register : WebhookConfiguration → State → Option Error × State
  register webhook_config w =
      let (found, w') = client.get webhook_config.name w in replace found webhook_config w'

  unfoldable pub self_pod_validating_webhook_registration :
      String → String → String → Bytes → State → Option Error × State
  self_pod_validating_webhook_registration config_name server_name server_url ca_cert =
      register (pod_validating_config config_name (client_config server_name server_url ca_cert))

  unfoldable pub self_pod_mutating_webhook_registration :
      String → String → String → Bytes → State → Option Error × State
  self_pod_mutating_webhook_registration config_name server_name server_url ca_cert =
      register (pod_mutating_config config_name (client_config server_name server_url ca_cert))

  unfoldable pub self_pv_mutating_webhook_registration :
      String → String → String → Bytes → State → Option Error × State
  self_pv_mutating_webhook_registration config_name server_name server_url ca_cert =
      register (pv_mutating_config config_name (client_config server_name server_url ca_cert))

  unfoldable pub self_pod_priority_webhook_registration :
      String → String → String → Bytes → State → Option Error × State
  self_pod_priority_webhook_registration config_name server_name server_url ca_cert =
      register (pod_priority_config config_name (client_config server_name server_url ca_cert))
