-- ===== src/Common/Registration/Coverage.antt =====
-- The requests that a registered configuration sends to its webhook, and what the server does with
-- them.
use mathlib.Core.Path.{subst}
use admission_controller.Base.{
  String, Bool, true, some, List, [], ◌∷◌, Any, ◌≡◌, refl, sym, ◌∙◌, inl, inr, arith, ok-injective,
}
use admission_controller.Api.{
  GroupVersionResource, AdmissionRequest, AdmissionReview, create, update,
}
use admission_controller.Webhook.Guards.{IsFor, create_or_update, only_create}
use admission_controller.Webhook.Patch.{JsonPatch}
use admission_controller.Webhook.Volumes.{PodCodec}
use admission_controller.Webhook.Serve.{Transport, Request, Outcome}
use admission_controller.Webhook.Serve.Events.{IsPanic, Decodes}
use admission_controller.HostPathPvResource
use admission_controller.HostPathPvResource.Decisions as Scheduling
use admission_controller.PodPriority
use admission_controller.PodPriority.Decisions as Priorities
use admission_controller.NsHostPathPrivilege
use admission_controller.NsHostPathPrivilege.Policy as Policy
use admission_controller.HppvToCsiPv
use admission_controller.HppvToCsiPv.Conversion as Conversion
use admission_controller.Common.Registration.{
  RuleWithOperations, Webhook, WebhookConfiguration, WebhookClientConfig, pod_validating_config,
  pod_mutating_config, pv_mutating_config, pod_priority_config, core_rule,
}

-- The rule is for the operation and for the resource, which the API server compares by their names.
abbrev pub Covers : RuleWithOperations → AdmissionRequest → Type 0
Covers rule request =
    Any (λ o. o ≡ request.operation) rule.operations
    × Any (λ g. g ≡ request.resource.group) rule.api_groups
    × Any (λ v. v ≡ request.resource.version) rule.api_versions
    × Any (λ r. r ≡ request.resource.resource) rule.resources

-- A rule of one of the configuration's webhooks covers the review's request.
abbrev pub IsSent : WebhookConfiguration → AdmissionReview → Type 0
IsSent c ar =
    (request : AdmissionRequest) × (ar.request ≡ some request)
    × Any (λ (webhook : Webhook). Any (λ rule. Covers rule request) webhook.rules) c.webhooks

-- A rule on a resource of the core group sends requests for that resource only.
core_of :
    (operations : List String) (resource : String) (request : AdmissionRequest)
    → Covers (core_rule operations resource) request
    → (request.resource ≡ record { group = ""; version = "v1"; resource = resource })
      × Any (λ o. o ≡ request.operation) operations
core_of operations resource request (o, inl g, inl v, inl r) = (ground (arith, g, v, r), o)
core_of operations resource request (o, inr g, v, r) = absurd g
core_of operations resource request (o, inl g, inr v, r) = absurd v
core_of operations resource request (o, inl g, inl v, inr r) = absurd r

only_created :
    (request : AdmissionRequest)
    → Any (λ o. o ≡ request.operation) (create ∷ [])
    → only_create request.operation ≡ true
only_created request (inl e) = rw (← e) refl
only_created request (inr h) = absurd h

created_as_well :
    (request : AdmissionRequest)
    → Any (λ o. o ≡ request.operation) (create ∷ [])
    → create_or_update request.operation ≡ true
created_as_well request (inl e) = rw (← e) refl
created_as_well request (inr h) = absurd h

created_or_updated :
    (request : AdmissionRequest)
    → Any (λ o. o ≡ request.operation) (create ∷ update ∷ [])
    → create_or_update request.operation ≡ true
created_or_updated request (inl e) = rw (← e) refl
created_or_updated request (inr (inl e)) = rw (← e) refl
created_or_updated request (inr (inr h)) = absurd h

module _ (resource : String) (operations : List String) (accepts : String → Bool)
    (accepted : (request : AdmissionRequest)
      → Any (λ o. o ≡ request.operation) operations
      → accepts request.operation ≡ true) where
  abbrev core_resource : GroupVersionResource
  core_resource = record { group = ""; version = "v1"; resource = resource }

  -- A configuration whose one rule is on the resource sends what the guards of the server accept.
  sent-IsFor :
      (request : AdmissionRequest) (ar : AdmissionReview)
      → ar.request ≡ some request
      → Any
          (λ rules. Any (λ rule. Covers rule request) rules)
          ((core_rule operations resource ∷ []) ∷ [])
      → IsFor core_resource accepts ar
  sent-IsFor request ar e (inl (inl covers)) =
      let (r, o) = core_of operations resource request covers in (request, e, r, accepted request o)
  sent-IsFor request ar e (inl (inr h)) = absurd h
  sent-IsFor request ar e (inr h) = absurd h

  safe :
      (serve : Transport → Request → Outcome) (t : Transport) (r : Request) (ar : AdmissionReview)
      (request : AdmissionRequest)
      → (IsPanic (serve t r)
          → (ar' : AdmissionReview) × Decodes t r ar' × (¬ IsFor core_resource accepts ar'))
      → Decodes t r ar
      → ar.request ≡ some request
      → Any
          (λ rules. Any (λ rule. Covers rule request) rules)
          ((core_rule operations resource ∷ []) ∷ [])
      → ¬ IsPanic (serve t r)
  safe serve t r ar request panics d e sent p =
      let (ar', d', other) = panics p in
      other (
        subst (λ a. IsFor core_resource accepts a) (ok-injective (sym d.1 ∙ d'.1))
          (sent-IsFor request ar e sent))

module _ (codec : PodCodec) (pv_codec : HppvToCsiPv.PvCodec) (lib : JsonPatch)
    (scheduling : HostPathPvResource.AdmissionServer) (priority : PodPriority.AdmissionServer)
    (policy : NsHostPathPrivilege.AdmissionServer) (conversion : HppvToCsiPv.AdmissionServer) where
  -- Each of the four configurations sends its server only reviews that the server answers: no request
  -- that decodes to one of them makes it panic, whatever the name, the address and the certificate
  -- of the configuration.
  pub configurations_cover :
      (config_name : String) (config : WebhookClientConfig) (t : Transport) (r : Request)
      (ar : AdmissionReview)
      → Decodes t r ar
      → (¬ (
          IsSent (pod_mutating_config config_name config) ar
          × IsPanic (HostPathPvResource.serve codec lib scheduling t r)))
        × (¬ (
            IsSent (pod_priority_config config_name config) ar
            × IsPanic (PodPriority.serve codec lib priority t r)))
        × (¬ (
            IsSent (pod_validating_config config_name config) ar
            × IsPanic (NsHostPathPrivilege.serve codec.unmarshal_pod policy t r)))
        × (¬ (
            IsSent (pv_mutating_config config_name config) ar
            × IsPanic (HppvToCsiPv.serve pv_codec lib conversion t r)))
  unfolding pod_mutating_config pod_priority_config pod_validating_config pv_mutating_config
  configurations_cover config_name config t r ar d = (
    (λ ((request, e, sent), p).
        safe "pods" (create ∷ []) create_or_update created_as_well
          (HostPathPvResource.serve codec lib scheduling) t r ar request
          (Scheduling.serve-panics_iff_unscheduled codec lib scheduling t r).0 d e sent p),
    (λ ((request, e, sent), p).
        safe "pods" (create ∷ []) only_create only_created (PodPriority.serve codec lib priority) t
          r ar request (Priorities.serve-panics_iff_unclassified codec lib priority t r).0 d e sent
          p),
    (λ ((request, e, sent), p).
        safe "pods" (create ∷ update ∷ []) create_or_update created_or_updated
          (NsHostPathPrivilege.serve codec.unmarshal_pod policy) t r ar request
          (Policy.serve-panics_iff_unchecked codec.unmarshal_pod policy t r).0 d e sent p),
    (λ ((request, e, sent), p).
        safe "persistentvolumes" (create ∷ []) only_create only_created
          (HppvToCsiPv.serve pv_codec lib conversion) t r ar request
          (Conversion.serve-panics_iff_unconverted pv_codec lib conversion t r).0 d e sent p),
  )
