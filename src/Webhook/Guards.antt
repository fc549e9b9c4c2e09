-- ===== src/Webhook/Guards.antt =====
-- The two guards at the head of every `admit`: the resource and the operation.
use admission_controller.Base.{
  String, Bool, true, not, Option, none, some, ◌≡◌, ◌↔◌, inl, inr, ◌==◌, eq_iff, arith,
  Option-cases, Bool-cases, sym, ◌∙◌, ◌||◌, ◌&&◌, if◌then◌else◌,
}
use admission_controller.Webhook.Serve.{Transport, Request, serve}
use admission_controller.Webhook.Serve.Events.{IsPanic, Decodes, serve-panics_iff}
use admission_controller.Api.{
  create, update, GroupVersionResource, same_resource, AdmissionRequest, AdmissionResponse,
  AdmissionReview,
}

pub same_resource_iff : (a b : GroupVersionResource) → (same_resource a b ≡ true) ↔ (a ≡ b)
same_resource_iff a b =
    ground (arith, eq_iff a.group b.group, eq_iff a.version b.version, eq_iff a.resource b.resource)

-- The review has a request for the resource, with an operation that is accepted.
abbrev pub IsFor : GroupVersionResource → (String → Bool) → AdmissionReview → Type 0
IsFor resource accepts ar =
    (request : AdmissionRequest) × (ar.request ≡ some request)
    × (request.resource ≡ resource)
    × (accepts request.operation ≡ true)

module _ (resource : GroupVersionResource) (accepts : String → Bool)
    (review : AdmissionRequest → AdmissionResponse) where
  -- the guards, as each `admit` writes them
  abbrev pub guarded : AdmissionReview → Option AdmissionResponse
  guarded ar = elim ar.request [
    | none ↦ none
    | some request ↦
        if not (same_resource request.resource resource)
        then none
        else if not (accepts request.operation)
        then none
        else some (review request)
  ]

  pub guarded-some :
      (ar : AdmissionReview) (h : IsFor resource accepts ar) → guarded ar ≡ some (review h.0)
  guarded-some ar (request, e, r, o) = rw (e, (same_resource_iff request.resource resource).1 r, o)

  refused_request :
      (request : AdmissionRequest)
      → ¬ ((request.resource ≡ resource) × (accepts request.operation ≡ true))
      → (if not (same_resource request.resource resource)
          then none
          else if not (accepts request.operation)
          then none
          else some (review request))
        ≡ none
  refused_request request h = elim (Bool-cases (same_resource request.resource resource)) [
    | inl r ↦ elim (Bool-cases (accepts request.operation)) [
      | inl o ↦ absurd (h ((same_resource_iff request.resource resource).0 r, o))
      | inr o ↦ rw (r, o)
    ]
    | inr r ↦ rw r
  ]

  -- The guards answer nil exactly for the other reviews.
  pub guarded-none_iff :
      (ar : AdmissionReview) → (guarded ar ≡ none) ↔ (¬ IsFor resource accepts ar)
  guarded-none_iff ar = (λ e h. cc (e, guarded-some ar h), refused)
    where
      refused : ¬ IsFor resource accepts ar → guarded ar ≡ none
      refused h = elim (Option-cases ar.request) [
        | inl e ↦ rw e
        | inr (request, e) ↦ rw e (refused_request request (λ (r, o). h (request, e, r, o)))
      ]

  -- A server whose `admit` has these guards panics exactly on the other reviews.
  pub serve-guarded :
      (t : Transport) (admit : AdmissionReview → Option AdmissionResponse) (r : Request)
      → ((ar : AdmissionReview) → admit ar ≡ guarded ar)
      → IsPanic (serve t admit r)
        ↔ ((ar : AdmissionReview) × Decodes t r ar × (¬ IsFor resource accepts ar))
  serve-guarded t admit r same = (
    λ p.
        let (ar, d, e) = (serve-panics_iff t admit r).0 p in
        (ar, d, (guarded-none_iff ar).0 (sym (same ar) ∙ e)),
    λ (ar, d, other).
        (serve-panics_iff t admit r).1 (ar, d, same ar ∙ (guarded-none_iff ar).1 other),
  )

-- `Operation != Create && Operation != Update` is the guard of two of the packages.
abbrev pub create_or_update : String → Bool
create_or_update operation = operation == create || operation == update

abbrev pub only_create : String → Bool
only_create operation = operation == create

pub guarded_two :
    (resource : GroupVersionResource) (review : AdmissionRequest → AdmissionResponse)
    (ar : AdmissionReview)
    → (elim ar.request as (λ _. Option AdmissionResponse) [
      | none ↦ none
      | some request ↦
          if not (same_resource request.resource resource)
          then none
          else if not (request.operation == create) && not (request.operation == update)
          then none
          else some (review request)
    ])
      ≡ guarded resource create_or_update review ar
guarded_two resource review ar = ground arith
