-- ===== src/HppvToCsiPv/Conversion.antt =====
-- What the handler of pkg/hppvtocsipv decides.
use mathlib.Core.Path.{subst}
use admission_controller.Base.{
  true, false, none, some, Bytes, Error, ok, err, ok-injective, ◌≡◌, ◌≢◌, refl, sym, ap, ◌↔◌, ◌∙◌,
  ◌⊎◌, inl, inr, eq_iff, ne_of_==, Result-cases, Bool-cases, Option-cases,
}
use admission_controller.Api.{
  PersistentVolume, annotation, AdmissionRequest, AdmissionResponse, AdmissionReview,
  status_internal_server_error,
}
use admission_controller.Webhook.Response.{to_admission_response, allow_admission_response}
use admission_controller.Webhook.Guards.{IsFor, guarded, guarded-some, serve-guarded, only_create}
use admission_controller.Webhook.Patch.{JsonPatch}
use admission_controller.Webhook.Patched.{
  IsDecision, error-IsDecision, allow-IsDecision, patch-error, patch-allow,
  patch_response-IsDecision, patch-patch_response, patch_response_ok,
}
use admission_controller.Webhook.Serve.{Transport, Request}
use admission_controller.Webhook.Serve.Events.{IsPanic, Decodes}
use admission_controller.HppvToCsiPv.Guid.{get_guid}
use admission_controller.HppvToCsiPv.{
  AdmissionServer, host_path_pv_should_be_ignored, is_hostpath_pv, is_pv_should_be_ignored,
  change_hostpath_pv_to_csi_pv, pv_resource, create_patch, PvCodec, patch_to, convert, review,
  admit, serve,
}

-- The volume is a host path volume that is not marked to be ignored.
abbrev pub IsConverted : PersistentVolume → Type 0
IsConverted pv =
    (pv.host_path ≢ none) × (annotation pv.annotations host_path_pv_should_be_ignored ≢ "true")

is_hostpath_pv_cases :
    (pv : PersistentVolume)
    → (pv.host_path ≡ none) × (is_hostpath_pv pv ≡ ok false)
      ⊎ (pv.host_path ≢ none) × (is_hostpath_pv pv ≡ ok true)
unfolding is_hostpath_pv
is_hostpath_pv_cases pv = elim (Option-cases pv.host_path) [
  | inl e ↦ inl (e, rw (e, is_hostpath_pv))
  | inr (h, e) ↦ inr (λ n. cc (e, n), rw (e, is_hostpath_pv))
]

ignored_iff :
    (pv : PersistentVolume)
    → (is_pv_should_be_ignored (some pv) ≡ true)
      ↔ (annotation pv.annotations host_path_pv_should_be_ignored ≡ "true")
unfolding is_pv_should_be_ignored
ignored_iff pv = elim (Option-cases pv.annotations) [
  | inl e ↦
      rw (e, is_pv_should_be_ignored)
        (λ h. cc, λ h. absurd (ne_of_== "" "true" refl (unfold annotation in h)))
  | inr (m, e) ↦
      rw (e, is_pv_should_be_ignored)
        (eq_iff (annotation (some m) host_path_pv_should_be_ignored) "true")
]

-- The request is to create a persistent volume.
abbrev pub IsForVolumes : AdmissionReview → Type 0
IsForVolumes = IsFor pv_resource only_create

module _ (codec : PvCodec) (lib : JsonPatch) (s : AdmissionServer) where
  review_cases {ℓ} :
      (P : AdmissionResponse → Type ℓ) (request : AdmissionRequest)
      → ((e : Error)
          → codec.unmarshal_pv request.object_raw ≡ err e
          → P (to_admission_response e status_internal_server_error))
      → ((pv : PersistentVolume)
          → codec.unmarshal_pv request.object_raw ≡ ok pv
          → ¬ IsConverted pv
          → P allow_admission_response)
      → ((pv : PersistentVolume)
          → codec.unmarshal_pv request.object_raw ≡ ok pv
          → IsConverted pv
          → P (
              patch_to codec lib request.object_raw (
                change_hostpath_pv_to_csi_pv pv s.driver_name
                  (get_guid codec.md5_sum request.object_raw))))
      → P (review codec lib s request)
  unfolding review convert
  review_cases P request bad kept converted =
      elim (Result-cases (codec.unmarshal_pv request.object_raw)) [
        | inr (e, h) ↦ rw (h, review) (bad e h)
        | inl (pv, h) ↦
            rw (h, review)
              (elim (is_hostpath_pv_cases pv) [
                | inl (n, e) ↦ rw (e, convert) (kept pv h (λ c. c.0 n))
                | inr (p, e) ↦ elim (Bool-cases (is_pv_should_be_ignored (some pv))) [
                  | inl i ↦ rw (e, convert) (rw i (kept pv h (λ c. c.1 ((ignored_iff pv).0 i))))
                  | inr i ↦
                      rw (e, convert) (rw i (converted pv h (p, λ a. cc (i, (ignored_iff pv).1 a))))
                ]
              ])
      ]

  patch_to-IsDecision :
      (raw : Bytes) (pv : PersistentVolume) → IsDecision (patch_to codec lib raw pv)
  unfolding patch_to
  patch_to-IsDecision raw pv =
      patch_response-IsDecision (create_patch lib) raw (codec.marshal_pv pv)

  patch-patch_to :
      (raw p : Bytes) (pv : PersistentVolume)
      → (patch_to codec lib raw pv).patch ≡ some p
      → (json : Bytes) × (codec.marshal_pv pv ≡ ok json) × (create_patch lib raw json ≡ ok p)
  unfolding patch_to
  patch-patch_to raw p pv = patch-patch_response (create_patch lib) raw p (codec.marshal_pv pv)

  -- Every review of this webhook is allowed with no error, or refused with the code 500 and no
  -- patch.
  pub review-IsDecision : (request : AdmissionRequest) → IsDecision (review codec lib s request)
  review-IsDecision request =
      review_cases IsDecision request (λ e h. error-IsDecision e) (λ pv h kept. allow-IsDecision)
        (λ pv h converted. patch_to-IsDecision request.object_raw _)

  -- A volume that is no host path volume, or is marked to be ignored, is allowed as it is.
  pub review_kept :
      (request : AdmissionRequest) (pv : PersistentVolume)
      → codec.unmarshal_pv request.object_raw ≡ ok pv
      → ¬ IsConverted pv
      → review codec lib s request ≡ allow_admission_response
  review_kept request pv u kept =
      review_cases (λ a. a ≡ allow_admission_response) request (λ e h. absurd (cc (u, h)))
        (λ _ _ _. refl)
        (λ pv' h converted.
          absurd (kept (subst (λ q. IsConverted q) (ok-injective (sym h ∙ u)) converted)))

  -- The volume that a volume is converted to: a CSI volume of this server's driver under the guid
  -- of the raw object, no host path, and all else as it was.
  abbrev pub Converted : Bytes → PersistentVolume → PersistentVolume → Type 0
  Converted raw pv pv' = pv' ≡ record pv {
    host_path = none;
    csi = some (record {
      driver = s.driver_name;
      volume_handle = get_guid codec.md5_sum raw;
      read_only = false;
      fs_type = "";
      volume_attributes = none;
      secret_refs = none;
    });
  }

  change-Converted :
      (raw : Bytes) (pv : PersistentVolume)
      → Converted raw pv
          (change_hostpath_pv_to_csi_pv pv s.driver_name (get_guid codec.md5_sum raw))
  unfolding change_hostpath_pv_to_csi_pv
  change-Converted raw pv = refl

  -- what a patch says of the volume that the request holds
  abbrev pub PatchSays : AdmissionRequest → PersistentVolume → Bytes → Type 0
  PatchSays request pv p =
      IsConverted pv
      × ((pv' : PersistentVolume) × (json : Bytes) × Converted request.object_raw pv pv'
          × (codec.marshal_pv pv' ≡ ok json)
          × (create_patch lib request.object_raw json ≡ ok p))

  converted_patch :
      (request : AdmissionRequest) (p : Bytes)
      → (review codec lib s request).patch ≡ some p
      → (pv : PersistentVolume) × (codec.unmarshal_pv request.object_raw ≡ ok pv)
        × PatchSays request pv p
  converted_patch request p =
      review_cases
        (λ a.
          a.patch ≡ some p
          → (pv : PersistentVolume) × (codec.unmarshal_pv request.object_raw ≡ ok pv)
            × PatchSays request pv p)
        request (λ e u h. absurd (cc (patch-error e 500))) (λ pv u kept h. absurd (cc patch-allow))
        (λ pv u converted h.
          let (json, m, c) = patch-patch_to request.object_raw p _ h in
          (pv, u, (converted, (_, json, change-Converted request.object_raw pv, m, c))))

  converted_as :
      (request : AdmissionRequest) (pv : PersistentVolume) (p : Bytes)
      → codec.unmarshal_pv request.object_raw ≡ ok pv
      → PatchSays request pv p
      → (review codec lib s request).patch ≡ some p
  unfolding patch_to
  converted_as request pv p u (is, (pv', json, to, m, c)) =
      review_cases (λ a. a.patch ≡ some p) request (λ e h. absurd (cc (u, h)))
        (λ pv2 h kept. absurd (kept (subst (λ q. IsConverted q) (ok-injective (sym u ∙ h)) is)))
        (λ pv2 h _.
          patch_response_ok (create_patch lib) request.object_raw p json _
            (ap codec.marshal_pv (
                ap
                  (λ (q : PersistentVolume).
                    change_hostpath_pv_to_csi_pv q s.driver_name
                      (get_guid codec.md5_sum request.object_raw))
                  (ok-injective (sym h ∙ u))
                ∙ change-Converted request.object_raw pv
                ∙ sym to)
              ∙ m)
            c)

  -- A review has a patch exactly if the object decodes to a host path volume that is not marked to
  -- be ignored, and the patch is the one from the raw object to the converted volume.
  pub patch-review-Converted :
      (request : AdmissionRequest) (p : Bytes)
      → ((review codec lib s request).patch ≡ some p) ↔ (
          (pv : PersistentVolume) × (codec.unmarshal_pv request.object_raw ≡ ok pv)
          × PatchSays request pv p)
  patch-review-Converted request p =
      (converted_patch request p, λ (pv, u, says). converted_as request pv p u says)

  -- Converting is done once: if the object of a second request decodes to the converted volume, it
  -- is allowed as it is.
  review-Converted :
      (first second : AdmissionRequest) (pv pv' : PersistentVolume)
      → Converted first.object_raw pv pv'
      → codec.unmarshal_pv second.object_raw ≡ ok pv'
      → review codec lib s second ≡ allow_admission_response
  review-Converted first second pv pv' c u =
      review_kept second pv' u (λ h. h.0 (ap (λ (q : PersistentVolume). q.host_path) c))

  admit-guarded :
      (ar : AdmissionReview)
      → admit codec lib s ar ≡ guarded pv_resource only_create (review codec lib s) ar
  unfolding admit
  admit-guarded ar = refl

  -- A request to create a persistent volume is answered by its review.
  pub admit-review :
      (ar : AdmissionReview) (h : IsForVolumes ar)
      → admit codec lib s ar ≡ some (review codec lib s h.0)
  admit-review ar h = admit-guarded ar ∙ guarded-some _ _ _ ar h

  -- The server panics exactly on a JSON request that decodes to a review which does not ask to
  -- create a persistent volume.
  pub serve-panics_iff_unconverted :
      (t : Transport) (r : Request)
      → IsPanic (serve codec lib s t r)
        ↔ ((ar : AdmissionReview) × Decodes t r ar × (¬ IsForVolumes ar))
  unfolding serve
  serve-panics_iff_unconverted t r =
      serve-guarded pv_resource only_create (review codec lib s) t (admit codec lib s) r
        admit-guarded
