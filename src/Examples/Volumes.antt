-- ===== src/Examples/Volumes.antt =====
-- The conversion of a concrete volume, and its handle.
use admission_controller.Base.{some, [], ◌∷◌, Bytes, ok, ◌≡◌, refl, ◌↔◌, All, arith}
use admission_controller.Base.Dict
use admission_controller.Api.{PersistentVolume, AdmissionRequest}
use admission_controller.HppvToCsiPv
use admission_controller.HppvToCsiPv.{PvCodec, change_hostpath_pv_to_csi_pv}
use admission_controller.HppvToCsiPv.Guid.{base64_encode}
use admission_controller.HppvToCsiPv.Guid.Injective.{IsByte, get_guid_collision}
use admission_controller.HppvToCsiPv.Conversion.{PatchSays, patch-review-Converted}
use admission_controller.HppvToCsiPv.Upgrade.Steps.Annotate.{claim_annotations, release_annotations}
use admission_controller.HppvToCsiPv.Upgrade.Steps.Clean.{release-claim}
use admission_controller.Examples.Objects.{data_pv, request_for, json_patch}

-- a digest of the right size, in place of MD5
abbrev pub zeros : Bytes
zeros = 0 ∷ 0 ∷ 0 ∷ 0 ∷ 0 ∷ 0 ∷ 0 ∷ 0 ∷ 0 ∷ 0 ∷ 0 ∷ 0 ∷ 0 ∷ 0 ∷ 0 ∷ 0 ∷ []

abbrev pub codec_of : PersistentVolume → PvCodec
codec_of pv = record {
  unmarshal_pv = λ b. ok pv;
  marshal_pv = λ p. ok (b'{' ∷ b'p' ∷ b'v' ∷ b'}' ∷ []);
  md5_sum = λ b. zeros;
}

abbrev pub converter : HppvToCsiPv.AdmissionServer
converter = HppvToCsiPv.new_admission_server "xfshostpathplugin"

abbrev pv_request : AdmissionRequest
pv_request = request_for "persistentvolumes"

abbrev some_patch : Bytes
some_patch = b'[' ∷ []

patch-review-Converted_example :
    ((HppvToCsiPv.review (codec_of data_pv) json_patch converter pv_request).patch
      ≡ some some_patch)
    ↔ ((pv : PersistentVolume) × ((codec_of data_pv).unmarshal_pv pv_request.object_raw ≡ ok pv)
        × PatchSays (codec_of data_pv) json_patch converter pv_request pv some_patch)
patch-review-Converted_example =
    patch-review-Converted (codec_of data_pv) json_patch converter pv_request some_patch

abbrev raw_bytes : Bytes
raw_bytes = 250 ∷ []

zeros-IsByte : All IsByte zeros
zeros-IsByte = ground arith

get_guid_collision_example :
    (zeros ≡ zeros) × (base64_encode raw_bytes ≡ base64_encode raw_bytes → raw_bytes ≡ raw_bytes)
get_guid_collision_example =
    get_guid_collision (λ b. zeros) (λ s. refl) (λ s. zeros-IsByte) raw_bytes raw_bytes
      (omega arith, tt) (omega arith, tt) refl

release-claim_example :
    release_annotations (claim_annotations "node-1" "now" data_pv.annotations) ≡ data_pv.annotations
unfolding Dict.lookup
release-claim_example = release-claim "node-1" "now" data_pv.annotations (refl, refl)
