-- ===== src/Common/Startup/Handler.antt =====
-- What the requests to a server make of its health check.
use admission_controller.Base.{ℕ, List, [], ◌∷◌, ◌≡◌, refl, ◌⊎◌, inl, inr, ◌++◌, ◌∙◌}
use admission_controller.Metrics.HealthCheck.{
  HealthCheck, new_health_check, updated, updated-fields, check_last_activity, latest, serve_http,
  healthy,
}
use admission_controller.Webhook.Serve.{Event, Transport, Request, Outcome, returned, panicked}
use admission_controller.Common.Startup.{health_check, handle_func}

Outcome-cases :
    (o : Outcome)
    → ((es : List Event) × (o ≡ returned es)) ⊎ ((es : List Event) × (o ≡ panicked es))
Outcome-cases (returned es) = inl (es, refl)
Outcome-cases (panicked es) = inr (es, refl)

module _ (serve : Transport → Request → Outcome) where
  -- the health check after requests, each with the time when its handler ends
  unfoldable pub handle_all : HealthCheck → List (Transport × Request × ℕ) → HealthCheck
  unfolding handle_func
  handle_all hc [] = hc
  handle_all hc ((t, r, now) ∷ requests) = handle_all (handle_func serve t r hc now).1 requests

  -- the time of a handler that returns
  abbrev pub time_of : Outcome → ℕ → List ℕ
  time_of (returned es) now = now ∷ []
  time_of (panicked es) now = []

  -- the times of those that return
  abbrev pub returns : List (Transport × Request × ℕ) → List ℕ
  returns [] = []
  returns ((t, r, now) ∷ requests) = time_of (serve t r) now ++ returns requests

  handle_func-updated :
      (t : Transport) (r : Request) (hc : HealthCheck) (now : ℕ) (times : List ℕ)
      → updated (handle_func serve t r hc now).1 times
        ≡ updated hc (time_of (serve t r) now ++ times)
  unfolding handle_func updated
  handle_func-updated t r hc now times = elim (Outcome-cases (serve t r)) [
    | inl (es, e) ↦ rw (e, handle_func) refl
    | inr (es, e) ↦ rw (e, handle_func) refl
  ]

  handle_all-updated :
      (hc : HealthCheck) (requests : List (Transport × Request × ℕ))
      → handle_all hc requests ≡ updated hc (returns requests)
  unfolding handle_all updated
  handle_all-updated hc [] = refl
  handle_all-updated hc ((t, r, now) ∷ requests) =
      handle_all-updated (handle_func serve t r hc now).1 requests
      ∙ handle_func-updated t r hc now (returns requests)

  -- After any requests, handled one after another, the last activity of main's health check is the
  -- end of the latest handler that did not panic, or the start of the program if there is none; and
  -- the health check answers 200 at any time, however long ago that is.
  pub handle_all-healthy :
      (created now : ℕ) (requests : List (Transport × Request × ℕ))
      → let hc = handle_all (health_check created) requests in
        (hc.last_activity ≡ latest created (returns requests))
        × (serve_http hc now ≡ (200, healthy))
  unfolding new_health_check check_last_activity serve_http
  handle_all-healthy created now requests =
      rw (handle_all-updated (health_check created) requests)
        (rw (updated-fields (health_check created) (returns requests)) (refl, refl))
