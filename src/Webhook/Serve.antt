-- ===== src/Webhook/Serve.antt =====
-- Serve (pkg/hostpathpvresource/server.go): one HTTP request through a webhook server, as the
-- events that it causes. JSON coding, the connection and the clock are parameters.
pub mod Events
pub mod Answers
pub mod Latency
use admission_controller.Base.{
  ℕ, ◌-◌, String, Bool, not, Option, none, some, List, [], ◌∷◌, Error, Result, ok, err, Bytes,
  concat, ◌==◌, if◌then◌else◌,
}
use admission_controller.Api.{
  AdmissionReview, AdmissionResponse, status_bad_request, status_unsupported_media_type,
}
use admission_controller.Metrics.Admission.{
  AdmissionStatus, error, applied, AdmissionResource, unknown, pod,
}

-- What a handler does to the response and to the metrics.
pub data Event : Type 0 where
  write_header : ℕ → Event
  write_string : String → Event
  write : Bytes → Event
  -- metrics.OnAdmittedPod
  on_admitted_pod : Bool → Event
  -- timer.Observe, with the time since the request came in
  observe : AdmissionStatus → AdmissionResource → ℕ → Event

-- A nil dereference panics; net/http then drops the connection.
pub data Outcome : Type 0 where
  returned : List Event → Outcome
  panicked : List Event → Outcome

pub record Request : Type 0 where
  -- `r.Body`, with what `ioutil.ReadAll` returns for it
  pub body : Option (Result Bytes)
  -- `r.Header.Get("Content-Type")`
  pub content_type : String

-- What Serve relies on outside the repository: the JSON coding of a review, whether the connection
-- takes the bytes, and the readings of the clock at the beginning and at the end.
pub record Transport : Type 0 where
  pub unmarshal_review : Bytes → Result AdmissionReview
  pub marshal_review : AdmissionReview → Result Bytes
  pub write_error : Bytes → Option Error
  pub start : ℕ
  pub now : ℕ

unfoldable pub read_body : Option (Result Bytes) → Bytes
read_body none = []
read_body (some (err e)) = []
read_body (some (ok bytes)) = bytes

-- from the response of `admit` to the end of Serve
pub respond : Transport → Option AdmissionResponse → Outcome
respond t none = panicked []
respond t (some review_response) =
    elim (t.marshal_review (record { request = none; response = some review_response })) [
      | err e ↦ returned (on_admitted_pod review_response.allowed ∷ observe error pod elapsed ∷ [])
      | ok resp ↦ elim (t.write_error resp) [
        | some e ↦
            returned (
              on_admitted_pod review_response.allowed ∷ write resp ∷ observe error pod elapsed ∷ [])
        | none ↦ returned (
            on_admitted_pod review_response.allowed ∷ write resp ∷ observe applied pod elapsed ∷ [])
      ]
    ]
  where
    elapsed : ℕ
    elapsed = t.now - t.start

unfoldable pub serve : Transport → (AdmissionReview → Option AdmissionResponse) → Request → Outcome
unfolding read_body respond
serve t admit r =
    if not (r.content_type == "application/json")
    then returned (
        write_header status_unsupported_media_type
        ∷ write_string (concat ("UnsupportedMediaType: " ∷ r.content_type ∷ []))
        ∷ observe error unknown (t.now - t.start)
        ∷ [])
    else elim (t.unmarshal_review (read_body r.body)) [
      | err e ↦ returned (
          write_header status_bad_request
          ∷ write_string (concat ("Failed to decode request body err: " ∷ e.message ∷ []))
          ∷ observe error unknown (t.now - t.start)
          ∷ [])
      | ok ar ↦ respond t (admit ar)
    ]
