-- ===== src/Webhook/Response.antt =====
-- toAdmissionResponse and allowAdmissionResponse, and the response with a patch that the mutating
-- handlers end in (pkg/hostpathpvresource/server.go).
use admission_controller.Base.{ℕ, true, false, none, some, Error, Bytes}
use admission_controller.Api.{AdmissionResponse, patch_type_json_patch}

unfoldable pub to_admission_response : Error → ℕ → AdmissionResponse
to_admission_response e code = record {
  allowed = false;
  result = some (record { message = e.message; code = code });
  patch = none;
  patch_type = none;
}

unfoldable pub allow_admission_response : AdmissionResponse
allow_admission_response = record { allowed = true; result = none; patch = none; patch_type = none }

-- `&v1beta1.AdmissionResponse{Allowed: true, PatchType: &patchType, Patch: patch}`
unfoldable pub patch_admission_response : Bytes → AdmissionResponse
patch_admission_response patch = record {
  allowed = true;
  result = none;
  patch = some patch;
  patch_type = some patch_type_json_patch;
}
