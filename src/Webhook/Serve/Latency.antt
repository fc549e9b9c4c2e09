-- ===== src/Webhook/Serve/Latency.antt =====
-- What Serve's timer, metrics.NewAdmissionLatency at its start and Observe at its end, records.
use admission_controller.Base.{
  Bytes, Option, none, some, List, [], ◌∷◌, ok, ◌==◌, eq_iff, ◌≡◌, refl, ◌⊎◌, inl, inr, Bool-cases,
  Result-cases, Option-cases,
}
use admission_controller.Api.{AdmissionReview, AdmissionResponse}
use admission_controller.Metrics.Vectors.{Sample}
use admission_controller.Metrics.Admission.{
  AdmissionStatus, error, applied, AdmissionResource, unknown, pod, admission_latency,
  status_string, resource_string, new_admission_latency, observe-IsRecordable,
}
use admission_controller.Metrics.Admission
use admission_controller.Webhook.Serve.{
  Event, observe, Request, Transport, read_body, respond, serve,
}
use admission_controller.Webhook.Serve.Events.{events, IsPanic, Decodes, serve-respond}

-- the samples that the events record
abbrev pub samples : List Event → List Sample
samples [] = []
samples (observe status resource elapsed ∷ es) =
    record {
      histo = admission_latency;
      labels = status_string status ∷ resource_string resource ∷ [];
      duration = elapsed;
    }
    ∷ samples es
samples (_ ∷ es) = samples es

-- The request decodes, `admit` answers it, and the answer is coded and taken by the connection.
abbrev pub IsAnswered : Transport → (AdmissionReview → Option AdmissionResponse) → Request → Type 0
IsAnswered t admit r =
    (ar : AdmissionReview) × (response : AdmissionResponse) × (resp : Bytes) × Decodes t r ar
    × (admit ar ≡ some response)
    × (t.marshal_review (record { request = none; response = some response }) ≡ ok resp)
    × (t.write_error resp ≡ none)

abbrev pub RecordsOne :
    Transport → (AdmissionReview → Option AdmissionResponse) → Request → AdmissionStatus → Type 0
RecordsOne t admit r status =
    (resource : AdmissionResource) × (samples (events (serve t admit r))
      ≡ Admission.observe (new_admission_latency t.start) status resource t.now ∷ [])

module _ (t : Transport) (admit : AdmissionReview → Option AdmissionResponse) (r : Request) where
  refused-RecordsOne : ((ar : AdmissionReview) → ¬ Decodes t r ar) → RecordsOne t admit r error
  unfolding serve Admission.observe new_admission_latency
  refused-RecordsOne h = elim (Bool-cases (r.content_type == "application/json")) [
    | inl json ↦ elim (Result-cases (t.unmarshal_review (read_body r.body))) [
      | inl (ar, e) ↦ absurd (h ar ((eq_iff _ _).0 json, e))
      | inr (x, e) ↦ (unknown, rw (json, e) refl)
    ]
    | inr other ↦ (unknown, rw other refl)
  ]

  Decodes-cases :
      ((ar : AdmissionReview) × Decodes t r ar) ⊎ ((ar : AdmissionReview) → ¬ Decodes t r ar)
  Decodes-cases = elim (Bool-cases (r.content_type == "application/json")) [
    | inl json ↦ elim (Result-cases (t.unmarshal_review (read_body r.body))) [
      | inl (ar, e) ↦ inl (ar, ((eq_iff _ _).0 json, e))
      | inr (x, e) ↦ inr (λ ar d. cc (e, d.1))
    ]
    | inr other ↦ inr (λ ar d. cc (other, (eq_iff _ _).1 d.0))
  ]

  -- what a request that decodes to the review, which `admit` answers, records
  decoded-records :
      (ar : AdmissionReview) (response : AdmissionResponse)
      → Decodes t r ar
      → admit ar ≡ some response
      → (RecordsOne t admit r error × ¬ IsAnswered t admit r)
        ⊎ (RecordsOne t admit r applied × IsAnswered t admit r)
  unfolding respond Admission.observe new_admission_latency
  decoded-records ar response d e =
      elim (Result-cases (t.marshal_review (record { request = none; response = some response }))) [
        | inr (x, m) ↦ inl (
          (pod, rw (serve-respond t admit r ar d) (rw (e, respond) (rw m refl))),
          λ (ar', response', resp, d', e', m', w'). cc (d.1, d'.1, e, e', m, m'),
        )
        | inl (resp, m) ↦ elim (Option-cases (t.write_error resp)) [
          | inl w ↦ inr (
            (pod, rw (serve-respond t admit r ar d) (rw (e, respond) (rw (m, w) refl))),
            (ar, response, resp, d, e, m, w),
          )
          | inr (x, w) ↦ inl (
            (pod, rw (serve-respond t admit r ar d) (rw (e, respond) (rw (m, w) refl))),
            λ (ar', response', resp', d', e', m', w'). cc (d.1, d'.1, e, e', m, m', w, w'),
          )
        ]
      ]

  -- Every request that does not panic records exactly one latency, that of a timer made when the
  -- request comes in and observed at its end; its status is "applied" if the request decodes, `admit`
  -- answers it and the answer is coded and written, and "error" if not.
  pub serve-samples :
      IsPanic (serve t admit r)
      ⊎ ((RecordsOne t admit r error × ¬ IsAnswered t admit r)
          ⊎ (RecordsOne t admit r applied × IsAnswered t admit r))
  unfolding respond
  serve-samples = elim Decodes-cases [
    | inr h ↦ inr (inl (refused-RecordsOne h, λ (ar, response, resp, d, e, m, w). h ar d))
    | inl (ar, d) ↦ elim (Option-cases (admit ar)) [
      | inl e ↦ inl (rw (serve-respond t admit r ar d) (rw e tt))
      | inr (response, e) ↦ inr (decoded-records ar response d e)
    ]
  ]
