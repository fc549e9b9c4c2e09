-- ===== src/HppvToCsiPv/Guid.antt =====
-- GetMd5String and GetGuid (pkg/hppvtocsipv/server.go), with the standard library's base64 and hex
-- encodings that they use. Texts are bytes here. MD5 itself is a parameter.
pub mod Injective
use admission_controller.Base.{ℕ, ◌+◌, ◌-◌, ◌*◌, ◌/◌, ◌%◌, List, [], ◌∷◌, Bytes, ltb, if◌then◌else◌}

-- a digit of encoding/hex
unfoldable pub hex_digit : ℕ → ℕ
hex_digit d = if ltb d 10 then b'0' + d else b'a' + (d - 10)

-- hex.EncodeToString
unfoldable pub hex_encode : Bytes → Bytes
unfolding hex_digit
hex_encode [] = []
hex_encode (x ∷ xs) = hex_digit (x / 16) ∷ hex_digit (x % 16) ∷ hex_encode xs

-- a digit of base64's URL alphabet, A–Z a–z 0–9 - _
unfoldable pub base64_digit : ℕ → ℕ
base64_digit d =
    if ltb d 26
    then b'A' + d
    else if ltb d 52
    then b'a' + (d - 26)
    else if ltb d 62
    then b'0' + (d - 52)
    else if ltb d 63
    then b'-'
    else b'_'

abbrev pub padding : ℕ
padding = b'='

-- base64.URLEncoding.EncodeToString
unfoldable pub base64_encode : Bytes → Bytes
unfolding base64_digit
base64_encode [] = []
base64_encode (a ∷ []) = base64_digit (a / 4) ∷ base64_digit ((a % 4) * 16) ∷ padding ∷ padding ∷ []
base64_encode (a ∷ b ∷ []) =
    base64_digit (a / 4)
    ∷ base64_digit ((a % 4) * 16 + b / 16)
    ∷ base64_digit ((b % 16) * 4)
    ∷ padding
    ∷ []
base64_encode (a ∷ b ∷ c ∷ rest) =
    base64_digit (a / 4)
    ∷ base64_digit ((a % 4) * 16 + b / 16)
    ∷ base64_digit ((b % 16) * 4 + c / 64)
    ∷ base64_digit (c % 64)
    ∷ base64_encode rest

module _ (md5_sum : Bytes → Bytes) where
  unfoldable pub get_md5_string : Bytes → Bytes
  unfolding hex_encode
  get_md5_string s = hex_encode (md5_sum s)

  unfoldable pub get_guid : Bytes → Bytes
  unfolding get_md5_string base64_encode
  get_guid raw = get_md5_string (base64_encode raw)
