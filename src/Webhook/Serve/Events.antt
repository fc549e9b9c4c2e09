-- ===== src/Webhook/Serve/Events.antt =====
-- Which events a request to a webhook server causes, and when its handler panics.
use admission_controller.Base.{
  ℕ, suc, ◌≡◌, refl, ◌↔◌, Bool, Option, none, List, [], ◌∷◌, ok, ◌==◌, eq_iff, arith, Bool-cases,
  Result-cases, ◌⊎◌, inl, inr,
}
use admission_controller.Api.{AdmissionReview, AdmissionResponse}
use admission_controller.Webhook.Serve.{
  Event, write_header, on_admitted_pod, observe, Outcome, returned, panicked, Request, Transport,
  read_body, respond, serve,
}

abbrev pub events : Outcome → List Event
events (returned es) = es
events (panicked es) = es

abbrev pub IsPanic : Outcome → Type 0
IsPanic (returned es) = ⊥
IsPanic (panicked es) = Unit {0}

-- how many latencies are observed
abbrev pub observations : List Event → ℕ
observations [] = 0
observations (observe status resource elapsed ∷ es) = suc (observations es)
observations (_ ∷ es) = observations es

-- the decisions that are counted
abbrev pub admissions : List Event → List Bool
admissions [] = []
admissions (on_admitted_pod touched ∷ es) = touched ∷ admissions es
admissions (_ ∷ es) = admissions es

-- the status lines that are written
abbrev pub status_lines : List Event → List ℕ
status_lines [] = []
status_lines (write_header code ∷ es) = code ∷ status_lines es
status_lines (_ ∷ es) = status_lines es

-- The request is JSON and decodes to the review.
abbrev pub Decodes : Transport → Request → AdmissionReview → Type 0
Decodes t r ar =
    (r.content_type ≡ "application/json") × (t.unmarshal_review (read_body r.body) ≡ ok ar)

module _ (t : Transport) (admit : AdmissionReview → Option AdmissionResponse) (r : Request) where
  -- what the server does with a request that decodes
  pub serve-respond :
      (ar : AdmissionReview) → Decodes t r ar → serve t admit r ≡ respond t (admit ar)
  unfolding serve
  serve-respond ar d = ground (arith, eq_iff r.content_type "application/json")

  -- A request that is not JSON, or does not decode, causes no panic, is not counted as an admission,
  -- and gets one status line, 415 or 400.
  serve-refuses :
      ((ar : AdmissionReview) → ¬ Decodes t r ar)
      → (¬ IsPanic (serve t admit r))
        × (admissions (events (serve t admit r)) ≡ [])
        × ((status_lines (events (serve t admit r)) ≡ 415 ∷ [])
            ⊎ (status_lines (events (serve t admit r)) ≡ 400 ∷ []))
  unfolding serve
  serve-refuses h = elim (Bool-cases (r.content_type == "application/json")) [
    | inl json ↦ elim (Result-cases (t.unmarshal_review (read_body r.body))) [
      | inl (ar, e) ↦ absurd (h ar ((eq_iff _ _).0 json, e))
      | inr (x, e) ↦ rw (json, e) ((λ p. p), refl, inr refl)
    ]
    | inr other ↦ rw other ((λ p. p), refl, inl refl)
  ]

  respond-panics : (o : Option AdmissionResponse) → IsPanic (respond t o) → o ≡ none
  unfolding respond
  respond-panics o p = ground arith

  respond_nil : (o : Option AdmissionResponse) → o ≡ none → IsPanic (respond t o)
  unfolding respond
  respond_nil o e = rw e tt

  panic_review :
      IsPanic (serve t admit r) → (ar : AdmissionReview) × Decodes t r ar × (admit ar ≡ none)
  panic_review p = elim (Bool-cases (r.content_type == "application/json")) [
    | inl json ↦ elim (Result-cases (t.unmarshal_review (read_body r.body))) [
      | inl (ar, e) ↦
          let d : Decodes t r ar = ((eq_iff _ _).0 json, e) in
          (ar, d, respond-panics (admit ar) (rw (serve-respond ar d) at p))
      | inr (x, e) ↦ absurd ((serve-refuses λ ar d. cc (e, d.1)).0 p)
    ]
    | inr other ↦ absurd ((serve-refuses λ ar d. cc (other, (eq_iff _ _).1 d.0)).0 p)
  ]

  -- The handler panics exactly on a request that decodes to a review for which `admit` is nil.
  pub serve-panics_iff :
      IsPanic (serve t admit r) ↔ ((ar : AdmissionReview) × Decodes t r ar × (admit ar ≡ none))
  serve-panics_iff =
      (panic_review, λ (ar, d, e). rw (serve-respond ar d) (respond_nil (admit ar) e))

  -- Every request that does not panic observes exactly one latency.
  pub serve-observes : IsPanic (serve t admit r) ⊎ (observations (events (serve t admit r)) ≡ 1)
  unfolding serve respond
  serve-observes = ground arith
