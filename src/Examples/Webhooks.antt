-- ===== src/Examples/Webhooks.antt =====
-- What all the webhook servers share, on concrete requests.
use admission_controller.Base.{
  Bool, none, ◌≢◌, true, false, Option, some, [], ◌∷◌, ok, err, ◌>>=◌, ◌≡◌, refl, ◌⊎◌, ◌↔◌,
  ne_of_==, Error, All,
}
use admission_controller.Api.{AdmissionReview, AdmissionResponse}
use admission_controller.Webhook.Response.{allow_admission_response}
use admission_controller.Webhook.Patch.{create_patch}
use admission_controller.Webhook.Patch.Render.{json_array, marshal_all, create_patch-json_array}
use admission_controller.Webhook.Volumes.{scan_volumes}
use admission_controller.Webhook.Volumes.Scan.{
  First, IsClear, UsesHostPath, Fails, scan_volumes_iff,
}
use admission_controller.Webhook.Serve.{Outcome, serve, read_body}
use admission_controller.Metrics.Admission.{error, applied}
use admission_controller.Webhook.Serve.Latency.{RecordsOne, IsAnswered, serve-samples}
use admission_controller.Webhook.Serve.Answers.{serve_iff}
use admission_controller.Webhook.Serve.Events.{IsPanic, events, admissions, status_lines, Decodes}
use admission_controller.Examples.Objects.{
  web_pod, request_for, review_of, algorithm, json_patch, transport, json_request, xml_request,
}

create_patch-json_array_example : create_patch json_patch [] (b'x' ∷ []) ≡ (
    json_patch.create_patch [] (b'x' ∷ []) >>= λ operations.
    marshal_all json_patch operations >>= λ xs. ok (json_array xs))
create_patch-json_array_example = create_patch-json_array json_patch [] (b'x' ∷ [])

scan_volumes_iff_example :
    ((scan_volumes algorithm web_pod web_pod.volumes ≡ ok true)
      ↔ First algorithm web_pod (UsesHostPath algorithm web_pod) web_pod.volumes)
    × ((scan_volumes algorithm web_pod web_pod.volumes ≡ ok false)
        ↔ All (IsClear algorithm web_pod) web_pod.volumes)
    × (((e : Error) × (scan_volumes algorithm web_pod web_pod.volumes ≡ err e))
        ↔ First algorithm web_pod (Fails algorithm web_pod) web_pod.volumes)
scan_volumes_iff_example = scan_volumes_iff algorithm web_pod web_pod.volumes

abbrev pods_review : AdmissionReview
pods_review = review_of (request_for "pods")

abbrev allow_all : AdmissionReview → Option AdmissionResponse
allow_all ar = some allow_admission_response

abbrev refused : Outcome
refused = serve (transport pods_review) allow_all xml_request

serve_iff_example :
    ((status_lines (events refused) ≡ 415 ∷ []) ↔ (xml_request.content_type ≢ "application/json"))
    × ((status_lines (events refused) ≡ 400 ∷ []) ↔ (
        (xml_request.content_type ≡ "application/json")
        × ((e : Error) × ((transport pods_review).unmarshal_review (read_body xml_request.body)
              ≡ err e))))
    × ((b : Bool)
        → (admissions (events refused) ≡ b ∷ []) ↔ (
            (ar : AdmissionReview) × (response : AdmissionResponse) × Decodes
              (transport pods_review)
              xml_request
              ar
            × (allow_all ar ≡ some response)
            × (response.allowed ≡ b)))
    × (IsPanic refused ↔ (
        (ar : AdmissionReview) × Decodes (transport pods_review) xml_request ar
        × (allow_all ar ≡ none)))
serve_iff_example = serve_iff (transport pods_review) allow_all xml_request

not_json : status_lines (events refused) ≡ 415 ∷ []
not_json =
    (serve_iff (transport pods_review) allow_all xml_request).0.1
      (ne_of_== "text/xml" "application/json" refl)

abbrev answered : Outcome
answered = serve (transport pods_review) allow_all json_request

serve-samples_example :
    IsPanic answered
    ⊎ ((RecordsOne (transport pods_review) allow_all json_request error
          × ¬ IsAnswered (transport pods_review) allow_all json_request)
        ⊎ (RecordsOne (transport pods_review) allow_all json_request applied
            × IsAnswered (transport pods_review) allow_all json_request))
serve-samples_example = serve-samples (transport pods_review) allow_all json_request
