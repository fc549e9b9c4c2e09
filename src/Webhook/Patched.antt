-- ===== src/Webhook/Patched.antt =====
-- The end of the mutating handlers' `admit` (pkg/hostpathpvresource/server.go): from the result of
-- json.Marshal to a response with a patch. And what a response of any of the handlers looks like.
use admission_controller.Base.{
  String, Bool, true, false, if◌then◌else◌, none, some, Bytes, Error, Result, ok, err, ◌≡◌, refl,
  ◌⊎◌, inl, inr, ℕ, arith, ◌↔◌,
}
use admission_controller.Api.{AdmissionResponse, status_internal_server_error}
use admission_controller.Webhook.Response.{
  to_admission_response, allow_admission_response, patch_admission_response,
}

-- An allowed request has no error, and a patch and its type together or neither; a refused one has
-- an error with the code 500, and no patch.
abbrev pub IsDecision : AdmissionResponse → Type 0
IsDecision a =
    (a.allowed ≡ true)
      × (a.result ≡ none)
      × (((a.patch ≡ none) × (a.patch_type ≡ none))
          ⊎ ((p : Bytes) × (a.patch ≡ some p) × (a.patch_type ≡ some "JSONPatch")))
    ⊎ (a.allowed ≡ false)
      × (a.patch ≡ none)
      × (a.patch_type ≡ none)
      × ((m : String) × (a.result ≡ some (record { message = m; code = 500 })))

pub error-IsDecision :
    (e : Error) → IsDecision (to_admission_response e status_internal_server_error)
unfolding to_admission_response
error-IsDecision e = inr (refl, refl, refl, (e.message, refl))

pub allow-IsDecision : IsDecision allow_admission_response
unfolding allow_admission_response
allow-IsDecision = inl (refl, refl, inl (refl, refl))

pub patch-IsDecision : (p : Bytes) → IsDecision (patch_admission_response p)
unfolding patch_admission_response
patch-IsDecision p = inl (refl, refl, inr (p, refl, refl))

pub if-IsDecision :
    (b : Bool) (x y : AdmissionResponse)
    → IsDecision x
    → IsDecision y
    → IsDecision (if b then x else y)
if-IsDecision true x y hx hy = hx
if-IsDecision false x y hx hy = hy

pub patch-error : (e : Error) (code : ℕ) → (to_admission_response e code).patch ≡ none
unfolding to_admission_response
patch-error e code = refl

pub allowed-error : (e : Error) (code : ℕ) → (to_admission_response e code).allowed ≡ false
unfolding to_admission_response
allowed-error e code = refl

pub patch-allow : allow_admission_response.patch ≡ none
unfolding allow_admission_response
patch-allow = refl

-- `make_patch old new` is the package's createPatch.
module _ (make_patch : Bytes → Bytes → Result Bytes) where
  patched : Result Bytes → AdmissionResponse
  patched (err e) = to_admission_response e status_internal_server_error
  patched (ok patch) = patch_admission_response patch

  unfoldable pub patch_response : Bytes → Result Bytes → AdmissionResponse
  unfolding patched
  patch_response raw (err e) = to_admission_response e status_internal_server_error
  patch_response raw (ok json) = patched (make_patch raw json)

  patched-IsDecision : (r : Result Bytes) → IsDecision (patched r)
  unfolding patched
  patched-IsDecision (err e) = error-IsDecision e
  patched-IsDecision (ok p) = patch-IsDecision p

  pub patch_response-IsDecision :
      (raw : Bytes) (marshalled : Result Bytes) → IsDecision (patch_response raw marshalled)
  unfolding patch_response
  patch_response-IsDecision raw (err e) = error-IsDecision e
  patch_response-IsDecision raw (ok json) = patched-IsDecision (make_patch raw json)

  -- A patch in the response is the patch from the raw object to the marshalled one.
  pub patch-patch_response :
      (raw p : Bytes) (marshalled : Result Bytes)
      → (patch_response raw marshalled).patch ≡ some p
      → (json : Bytes) × (marshalled ≡ ok json) × (make_patch raw json ≡ ok p)
  unfolding patch_response to_admission_response patch_admission_response
  patch-patch_response raw p marshalled h = ground arith

  pub patch_response_ok :
      (raw p json : Bytes) (marshalled : Result Bytes)
      → marshalled ≡ ok json
      → make_patch raw json ≡ ok p
      → (patch_response raw marshalled).patch ≡ some p
  unfolding patch_response patch_admission_response
  patch_response_ok raw p json marshalled m c = rw (m, c) refl

  -- The request is allowed exactly if both steps succeed.
  pub allowed-patch_response :
      (raw : Bytes) (marshalled : Result Bytes)
      → ((patch_response raw marshalled).allowed ≡ true)
        ↔ ((json p : Bytes) × (marshalled ≡ ok json) × (make_patch raw json ≡ ok p))
  unfolding patch_response to_admission_response patch_admission_response
  allowed-patch_response raw marshalled = ground arith
