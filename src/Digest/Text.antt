-- ===== src/Digest/Text.antt =====
-- The text of a digest of src/brickred/codec/{md5,sha1,sha256}.cc, from its words.
use brickred_server.Base.{
  ℕ, ◌/◌, ◌%◌, ◌<◌, ◌≡◌, refl, ap, ap₂, ◌∙◌, Bool, true, false, not, List, [], ◌∷◌, ◌++◌, codes,
  get_or, arith, All, All-append, IsByte, ◌==◌,
}
use brickred_server.Base.Bits.{all_below, all_below_sound}
use brickred_server.DynamicBuffer.Queue.{encode}
use brickred_server.DynamicBuffer.Endian.{encode-IsByte}
use brickred_server.DynamicBuffer.Integers.{bytes32}
use brickred_server.DynamicBuffer.Words.{bytes32_lem}
use brickred_server.Digest.{output}
use brickred_server.Digest.Hex.{hex, hex_digit}

-- The words as bytes, four for each, the highest first or last.
abbrev pub bytes_of : Bool → List ℕ → List ℕ
bytes_of big_endian [] = []
bytes_of big_endian (w ∷ ws) = encode 4 (not big_endian) w ++ bytes_of big_endian ws

-- The bytes as pairs of lower-case hexadecimal digits.
abbrev pub text_of : List ℕ → List ℕ
text_of [] = []
text_of (b ∷ bytes) =
    get_or (codes "0123456789abcdef") (b / 16) 0
    ∷ get_or (codes "0123456789abcdef") (b % 16) 0
    ∷ text_of bytes

pub output-bytes_of :
    (big_endian : Bool) (ws : List ℕ) → output big_endian ws ≡ bytes_of big_endian ws
unfolding output bytes32
output-bytes_of big_endian [] = refl
output-bytes_of true (w ∷ ws) = ap₂ ◌++◌ (bytes32_lem w false) (output-bytes_of true ws)
output-bytes_of false (w ∷ ws) = ap₂ ◌++◌ (bytes32_lem w true) (output-bytes_of false ws)

bytes_of-IsByte : (big_endian : Bool) (ws : List ℕ) → All IsByte (bytes_of big_endian ws)
bytes_of-IsByte big_endian [] = tt
bytes_of-IsByte big_endian (w ∷ ws) =
    All-append IsByte (encode 4 (not big_endian) w) (bytes_of big_endian ws)
      (encode-IsByte 4 (not big_endian) w) (bytes_of-IsByte big_endian ws)

digit_table : all_below 16 (λ d. hex_digit d == get_or (codes "0123456789abcdef") d 0) ≡ true
unfolding all_below
digit_table = refl

digit_lem : (d : ℕ) → d < 16 → hex_digit d ≡ get_or (codes "0123456789abcdef") d 0
digit_lem d h = ground (
  arith,
  all_below_sound 16 (λ d. hex_digit d == get_or (codes "0123456789abcdef") d 0) d digit_table h,
)

hex-text_of : (bytes : List ℕ) → All IsByte bytes → hex bytes ≡ text_of bytes
unfolding hex
hex-text_of [] h = refl
hex-text_of (b ∷ bytes) h =
    ap₂ ◌∷◌ (digit_lem (b / 16) (omega (arith, h.0)))
      (ap₂ ◌∷◌ (digit_lem (b % 16) (omega arith)) (hex-text_of bytes h.1))

pub hex-output :
    (big_endian : Bool) (ws : List ℕ)
    → hex (output big_endian ws) ≡ text_of (bytes_of big_endian ws)
hex-output big_endian ws =
    ap hex (output-bytes_of big_endian ws)
    ∙ hex-text_of (bytes_of big_endian ws) (bytes_of-IsByte big_endian ws)
