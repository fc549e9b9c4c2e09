-- ===== src/Webhook/Serve/Answers.antt =====
-- What a webhook server answers, in terms of the request alone.
use admission_controller.Base.{
  ℕ, ◌≡◌, ◌≢◌, refl, ap, sym, ◌∙◌, Error, err, ==_false, ◌↔◌, Bool, Option, none, some, List, [],
  ◌∷◌, ◌==◌, eq_iff, arith, Bool-cases, Result-cases, ◌⊎◌, inl, inr,
}
use admission_controller.Api.{AdmissionReview, AdmissionResponse}
use admission_controller.Webhook.Serve.{Request, Transport, read_body, respond, serve}
use admission_controller.Webhook.Serve.Events.{
  IsPanic, events, admissions, status_lines, Decodes, serve-respond, serve-panics_iff,
}

module _ (t : Transport) (admit : AdmissionReview → Option AdmissionResponse) (r : Request) where
  status_lines-respond : (o : Option AdmissionResponse) → status_lines (events (respond t o)) ≡ []
  unfolding respond
  status_lines-respond o = ground arith

  admissions-respond :
      (response : AdmissionResponse)
      → admissions (events (respond t (some response))) ≡ response.allowed ∷ []
  unfolding respond
  admissions-respond response = ground arith

  -- the two ways in which a request is refused
  refused_other :
      r.content_type ≢ "application/json"
      → (status_lines (events (serve t admit r)) ≡ 415 ∷ [])
        × (admissions (events (serve t admit r)) ≡ [])
  unfolding serve
  refused_other other = rw (==_false r.content_type "application/json" other) (refl, refl)

  refused_bad :
      (e : Error)
      → r.content_type ≡ "application/json"
      → t.unmarshal_review (read_body r.body) ≡ err e
      → (status_lines (events (serve t admit r)) ≡ 400 ∷ [])
        × (admissions (events (serve t admit r)) ≡ [])
  unfolding serve
  refused_bad e json bad = rw ((eq_iff r.content_type "application/json").1 json, bad) (refl, refl)

  abbrev first_code : List ℕ → ℕ
  first_code [] = 0
  first_code (code ∷ codes) = code

  one_code : {codes : List ℕ} → codes ≡ 415 ∷ [] → codes ≡ 400 ∷ [] → ⊥
  one_code other bad = let same : 415 ≡ 400 = ap first_code (sym other ∙ bad) in omega (arith, same)

  -- how a request is refused or taken
  abbrev Taken : Type 0
  Taken =
      (r.content_type ≢ "application/json")
      ⊎ ((e : Error) × (r.content_type ≡ "application/json")
          × (t.unmarshal_review (read_body r.body) ≡ err e))
      ⊎ ((ar : AdmissionReview) × Decodes t r ar)

  taken : Taken
  taken = elim (Bool-cases (r.content_type == "application/json")) [
    | inr e ↦ inl (λ json. cc (e, (eq_iff r.content_type "application/json").1 json))
    | inl e ↦
        let json = (eq_iff r.content_type "application/json").0 e in
        elim (Result-cases (t.unmarshal_review (read_body r.body))) [
          | inl (ar, d) ↦ inr (inr (ar, (json, d)))
          | inr (x, d) ↦ inr (inl (x, json, d))
        ]
  ]

  status_taken :
      (ar : AdmissionReview) → Decodes t r ar → status_lines (events (serve t admit r)) ≡ []
  status_taken ar d = rw (serve-respond t admit r ar d) (status_lines-respond (admit ar))

  status_other :
      (status_lines (events (serve t admit r)) ≡ 415 ∷ []) ↔ (r.content_type ≢ "application/json")
  status_other = elim taken [
    | inl other ↦ (λ _. other, λ _. (refused_other other).0)
    | inr (inl (e, json, bad)) ↦
        let (line, _) = refused_bad e json bad in
        (λ h. absurd (one_code h line), λ other. absurd (other json))
    | inr (inr (ar, d)) ↦
        let line = status_taken ar d in (λ h. absurd (cc (h, line)), λ other. absurd (other d.0))
  ]

  status_bad : (status_lines (events (serve t admit r)) ≡ 400 ∷ []) ↔ (
      (r.content_type ≡ "application/json")
      × ((e : Error) × (t.unmarshal_review (read_body r.body) ≡ err e)))
  status_bad = elim taken [
    | inl other ↦
        let (line, _) = refused_other other in
        (λ h. absurd (one_code line h), λ b. absurd (other b.0))
    | inr (inl (e, json, bad)) ↦ (λ _. (json, (e, bad)), λ _. (refused_bad e json bad).0)
    | inr (inr (ar, d)) ↦
        let line = status_taken ar d in
        (λ h. absurd (cc (h, line)), λ (json, (e, bad)). absurd (cc (bad, d.1)))
  ]

  -- what is counted
  abbrev Counts : Bool → Type 0
  Counts b =
      (ar : AdmissionReview) × (response : AdmissionResponse) × Decodes t r ar
      × (admit ar ≡ some response)
      × (response.allowed ≡ b)

  counted_as : (b : Bool) → Counts b → admissions (events (serve t admit r)) ≡ b ∷ []
  counted_as b (ar, response, d, e, allowed) =
      rw (serve-respond t admit r ar d, e) (admissions-respond response ∙ ap (λ x. x ∷ []) allowed)

  counted :
      (ar : AdmissionReview) (o : Option AdmissionResponse) (b : Bool)
      → Decodes t r ar
      → admit ar ≡ o
      → admissions (events (serve t admit r)) ≡ b ∷ []
      → Counts b
  unfolding respond
  counted ar none b d e h =
      let none_counted : [] ≡ b ∷ [] = rw (serve-respond t admit r ar d, e) at h in
      absurd (cc none_counted)
  counted ar (some response) b d e h =
      let one = counted_as response.allowed (ar, response, d, e, refl) in
      (ar, response, d, e, cc (h, one))

  admissions_iff : (b : Bool) → (admissions (events (serve t admit r)) ≡ b ∷ []) ↔ Counts b
  admissions_iff b = elim taken [
    | inl other ↦
        let (_, empty) = refused_other other in (λ h. absurd (cc (h, empty)), counted_as b)
    | inr (inl (e, json, bad)) ↦
        let (_, empty) = refused_bad e json bad in (λ h. absurd (cc (h, empty)), counted_as b)
    | inr (inr (ar, d)) ↦ (counted ar (admit ar) b d refl, counted_as b)
  ]

  -- What the handler does is known by four conditions: it answers 415 exactly if the request is not
  -- JSON, and 400 exactly if it is and does not decode; it counts an admission, once and under its
  -- answer, exactly if the request decodes and `admit` answers; and it panics exactly if the request
  -- decodes and `admit` is nil.
  pub serve_iff :
      ((status_lines (events (serve t admit r)) ≡ 415 ∷ []) ↔ (r.content_type ≢ "application/json"))
      × ((status_lines (events (serve t admit r)) ≡ 400 ∷ []) ↔ (
          (r.content_type ≡ "application/json")
          × ((e : Error) × (t.unmarshal_review (read_body r.body) ≡ err e))))
      × ((b : Bool)
          → (admissions (events (serve t admit r)) ≡ b ∷ []) ↔ (
              (ar : AdmissionReview) × (response : AdmissionResponse) × Decodes t r ar
              × (admit ar ≡ some response)
              × (response.allowed ≡ b)))
      × (IsPanic (serve t admit r) ↔ ((ar : AdmissionReview) × Decodes t r ar × (admit ar ≡ none)))
  unfolding serve respond
  serve_iff = (status_other, status_bad, admissions_iff, serve-panics_iff t admit r)
