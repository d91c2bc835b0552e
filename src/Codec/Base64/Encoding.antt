-- ===== src/Codec/Base64/Encoding.antt =====
-- What `base64Encode` writes, in plain arithmetic, and when it has room for it.
use brickred_server.Base.{
  ℕ, ◌+◌, ◌-◌, ◌*◌, ◌/◌, ◌%◌, ◌≡◌, refl, none, some, List, [], ◌∷◌, length, leb, if◌then◌else◌,
  arith, All, IsByte, bit_or, bit_and,
}
use brickred_server.Codec.{emit}
use brickred_server.Codec.Base64.{encode_char, encode_group, encode}
use brickred_server.Codec.Base64.Sextets.{sextet1, sextet2, sextet3}

-- The base64 text of a byte string.
abbrev pub encoding : List ℕ → List ℕ
encoding [] = []
encoding (b0 ∷ []) = encode_char (b0 / 4) ∷ encode_char (b0 % 4 * 16) ∷ b'=' ∷ b'=' ∷ []
encoding (b0 ∷ b1 ∷ []) =
    encode_char (b0 / 4)
    ∷ encode_char (b0 % 4 * 16 + b1 / 16)
    ∷ encode_char (b1 % 16 * 4)
    ∷ b'='
    ∷ []
encoding (b0 ∷ b1 ∷ b2 ∷ rest) =
    encode_char (b0 / 4)
    ∷ encode_char (b0 % 4 * 16 + b1 / 16)
    ∷ encode_char (b1 % 16 * 4 + b2 / 64)
    ∷ encode_char (b2 % 64)
    ∷ encoding rest

-- Four characters for each three bytes begun.
pub length-encoding : (xs : List ℕ) → length (encoding xs) ≡ (length xs + 2) / 3 * 4
length-encoding [] = omega arith
length-encoding (b0 ∷ []) = omega arith
length-encoding (b0 ∷ b1 ∷ []) = omega arith
length-encoding (b0 ∷ b1 ∷ b2 ∷ rest) = omega (arith, length-encoding rest)

group3 :
    (b0 b1 b2 : ℕ)
    → IsByte b1
    → IsByte b2
    → encode_group b0 b1 b2 3
      ≡ encode_char (b0 / 4)
        ∷ encode_char (b0 % 4 * 16 + b1 / 16)
        ∷ encode_char (b1 % 16 * 4 + b2 / 64)
        ∷ encode_char (b2 % 64)
        ∷ []
unfolding encode_group
group3 b0 b1 b2 h1 h2 = rw (sextet1 b0 b1 h1, sextet2 b1 b2 h2, sextet3 b2) refl

group2 : (b0 b1 : ℕ) → IsByte b1 → encode_group b0 b1 0 2 ≡ encoding (b0 ∷ b1 ∷ [])
unfolding encode_group
group2 b0 b1 h1 =
    let third : bit_or (bit_and b1 0x0f * 4) (bit_and 0 0xc0 / 64) ≡ b1 % 16 * 4 =
      omega (arith, sextet2 b1 0 (omega arith)) in
    rw (sextet1 b0 b1 h1, third) refl

group1 : (b0 : ℕ) → encode_group b0 0 0 1 ≡ encoding (b0 ∷ [])
unfolding encode_group
group1 b0 =
    let second : bit_or (bit_and b0 0x03 * 16) (bit_and 0 0xf0 / 16) ≡ b0 % 4 * 16 =
      omega (arith, sextet1 b0 0 (omega arith)) in
    rw second refl

pub encode-encoding :
    (xs : List ℕ) (room : ℕ)
    → All IsByte xs
    → encode xs room ≡ (if leb (length (encoding xs)) room then some (encoding xs) else none)
unfolding encode emit
encode-encoding [] room h = ground arith
encode-encoding (b0 ∷ []) room h = rw (group1 b0) (ground arith)
encode-encoding (b0 ∷ b1 ∷ []) room h = rw (group2 b0 b1 h.1.0) (ground arith)
encode-encoding (b0 ∷ b1 ∷ b2 ∷ rest) room h =
    rw (group3 b0 b1 b2 h.1.0 h.1.1.0, encode-encoding rest (room - 4) h.1.1.1) (ground arith)
