-- ===== src/HppvToCsiPv/Guid/Injective.antt =====
-- The volume handle of GetGuid: its form, and that two objects share one only if their digests do.
use admission_controller.Base.{
  ℕ, ◌+◌, ◌-◌, ◌*◌, ◌/◌, ◌%◌, ◌<◌, ◌≤◌, [], ◌∷◌, Bytes, ltb, eqb, if◌then◌else◌, ◌≡◌, refl, sym, ap,
  ◌∙◌, All, arith, length, ◌⊎◌, false,
}
use admission_controller.HppvToCsiPv.Guid.{
  hex_digit, hex_encode, base64_digit, padding, base64_encode, get_md5_string, get_guid,
}

abbrev pub IsByte : ℕ → Type 0
IsByte x = x < 256

-- A digit of a lower-case hexadecimal number.
abbrev pub IsHexDigit : ℕ → Type 0
IsHexDigit c = (b'0' ≤ c) × (c ≤ b'9') ⊎ (b'a' ≤ c) × (c ≤ b'f')

hex_value : ℕ → ℕ
hex_value c = if ltb c b'a' then c - b'0' else c - b'a' + 10

hex_decode : Bytes → Bytes
hex_decode [] = []
hex_decode (x ∷ []) = []
hex_decode (x ∷ y ∷ r) = (hex_value x * 16 + hex_value y) ∷ hex_decode r

hex_value-hex_digit : (d : ℕ) → d < 16 → hex_value (hex_digit d) ≡ d
unfolding hex_value hex_digit
hex_value-hex_digit d h = ground arith

hex_digit-IsHexDigit : (d : ℕ) → d < 16 → IsHexDigit (hex_digit d)
unfolding hex_digit
hex_digit-IsHexDigit d h = ground arith

hex_decode-hex_encode : (xs : Bytes) → All IsByte xs → hex_decode (hex_encode xs) ≡ xs
unfolding hex_decode hex_encode
hex_decode-hex_encode [] h = refl
hex_decode-hex_encode (x ∷ xs) h =
    let high = hex_value-hex_digit (x / 16) (omega arith) in
    let low = hex_value-hex_digit (x % 16) (omega arith) in
    ground (arith, high, low, hex_decode-hex_encode xs h.1)

hex_encode-All : (xs : Bytes) → All IsByte xs → All IsHexDigit (hex_encode xs)
unfolding hex_encode
hex_encode-All [] h = tt
hex_encode-All (x ∷ xs) h = (
  hex_digit-IsHexDigit (x / 16) (omega arith),
  (hex_digit-IsHexDigit (x % 16) (omega arith), hex_encode-All xs h.1),
)

length-hex_encode : (xs : Bytes) → length (hex_encode xs) ≡ length xs * 2
unfolding hex_encode
length-hex_encode [] = omega arith
length-hex_encode (x ∷ xs) = omega (arith, length-hex_encode xs)

base64_value : ℕ → ℕ
base64_value c =
    if eqb c b'-'
    then 62
    else if eqb c b'_'
    then 63
    else if ltb c b'A'
    then c - b'0' + 52
    else if ltb c b'a'
    then c - b'A'
    else c - b'a' + 26

base64_value-base64_digit : (d : ℕ) → d < 64 → base64_value (base64_digit d) ≡ d
unfolding base64_value base64_digit
base64_value-base64_digit d h = ground arith

base64_digit-ne-padding : (d : ℕ) → eqb (base64_digit d) padding ≡ false
unfolding base64_digit
base64_digit-ne-padding d = ground arith

pub base64_decode : Bytes → Bytes
base64_decode (p ∷ q ∷ r ∷ s ∷ rest) =
    let decoded = base64_decode rest in
    if eqb r padding
    then (base64_value p * 4 + base64_value q / 16) ∷ []
    else if eqb s padding
    then (base64_value p * 4 + base64_value q / 16)
      ∷ ((base64_value q % 16) * 16 + base64_value r / 4)
      ∷ []
    else (base64_value p * 4 + base64_value q / 16)
      ∷ ((base64_value q % 16) * 16 + base64_value r / 4)
      ∷ ((base64_value r % 4) * 64 + base64_value s)
      ∷ decoded
base64_decode _ = []

-- Decoding undoes the encoding of bytes.
pub base64_decode-base64_encode :
    (xs : Bytes) → All IsByte xs → base64_decode (base64_encode xs) ≡ xs
unfolding base64_decode base64_encode
base64_decode-base64_encode [] h = refl
base64_decode-base64_encode (a ∷ []) h =
    ground (arith, base64_value-base64_digit (a / 4), base64_value-base64_digit ((a % 4) * 16))
base64_decode-base64_encode (a ∷ b ∷ []) h = ground (
  arith,
  base64_digit-ne-padding ((b % 16) * 4),
  base64_value-base64_digit (a / 4),
  base64_value-base64_digit ((a % 4) * 16 + b / 16),
  base64_value-base64_digit ((b % 16) * 4),
)
base64_decode-base64_encode (a ∷ b ∷ c ∷ rest) h = ground (
  arith,
  base64_digit-ne-padding ((b % 16) * 4 + c / 64),
  base64_digit-ne-padding (c % 64),
  base64_value-base64_digit (a / 4),
  base64_value-base64_digit ((a % 4) * 16 + b / 16),
  base64_value-base64_digit ((b % 16) * 4 + c / 64),
  base64_value-base64_digit (c % 64),
  base64_decode-base64_encode rest h.1.1.1,
)

-- Two texts of bytes with the same base64 encoding are the same.
pub base64_encode-injective :
    (xs ys : Bytes) → All IsByte xs → All IsByte ys → base64_encode xs ≡ base64_encode ys → xs ≡ ys
base64_encode-injective xs ys hx hy e =
    sym (base64_decode-base64_encode xs hx) ∙ ap base64_decode e ∙ base64_decode-base64_encode ys hy

module _ (md5_sum : Bytes → Bytes) (sixteen : (s : Bytes) → length (md5_sum s) ≡ 16)
    (bytes : (s : Bytes) → All IsByte (md5_sum s)) where
  -- The handle is 32 lower-case hexadecimal digits, for any raw object, if digests are 16 bytes.
  get_guid_form :
      (raw : Bytes) → (length (get_guid md5_sum raw) ≡ 32) × All IsHexDigit (get_guid md5_sum raw)
  unfolding get_guid get_md5_string
  get_guid_form raw = (
    omega (arith, length-hex_encode (md5_sum (base64_encode raw)), sixteen (base64_encode raw)),
    hex_encode-All (md5_sum (base64_encode raw)) (bytes (base64_encode raw)),
  )

  -- Two objects of bytes have the same handle only if their base64 texts have the same digest; and if
  -- these texts are the same, the objects are. Digests are 16 bytes.
  pub get_guid_collision :
      (raw raw' : Bytes)
      → All IsByte raw
      → All IsByte raw'
      → get_guid md5_sum raw ≡ get_guid md5_sum raw'
      → (md5_sum (base64_encode raw) ≡ md5_sum (base64_encode raw'))
        × (base64_encode raw ≡ base64_encode raw' → raw ≡ raw')
  unfolding get_guid get_md5_string
  get_guid_collision raw raw' hr hr' e = (
    sym (hex_decode-hex_encode _ (bytes (base64_encode raw)))
        ∙ ap hex_decode e
        ∙ hex_decode-hex_encode _ (bytes (base64_encode raw')),
    base64_encode-injective raw raw' hr hr',
  )
