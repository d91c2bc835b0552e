-- ===== src/Codec/Base64/Sextets.antt =====
-- The two tables of base64.cc are inverse, and the bit fields of three bytes as arithmetic.
use brickred_server.Base.{
  ℕ, ◌+◌, ◌*◌, ◌/◌, ◌%◌, ◌<◌, ◌≡◌, ◌≢◌, refl, bit_and, bit_or, Bool, true, false, not, ◌&&◌, Option,
  none, some, ◌==◌, ltb, ==_iff, arith,
}
use brickred_server.Base.Bits.{
  all_below, all_below_sound, bit_or_disjoint_left, bit_and_three, bit_and_fifteen, bit_and_63,
}
use brickred_server.Codec.Base64.{encode_char, decode_char}

abbrev holds : Option ℕ → ℕ → Bool
holds none i = false
holds (some v) i = v == i

abbrev char_ok : ℕ → Bool
char_ok i = holds (decode_char (encode_char i)) i && not (encode_char i == b'=')

char_table : all_below 64 char_ok ≡ true
unfolding all_below decode_char encode_char
char_table = refl

abbrev found_ok : Option ℕ → ℕ → Bool
found_ok none c = true
found_ok (some v) c = ltb v 64 && (encode_char v == c)

sextet_table : all_below 123 (λ c. found_ok (decode_char c) c) ≡ true
unfolding all_below decode_char encode_char
sextet_table = refl

pub decode_char-encode_char : (i : ℕ) → i < 64 → decode_char (encode_char i) ≡ some i
decode_char-encode_char i h = ground (arith, all_below_sound 64 char_ok i char_table h)

-- No table entry is the padding character.
pub encode_char-ne_pad : (i : ℕ) → i < 64 → encode_char i ≢ b'='
encode_char-ne_pad i h = ground (arith, all_below_sound 64 char_ok i char_table h)

decode_char-lt : (c v : ℕ) → decode_char c ≡ some v → c < 123
unfolding decode_char
decode_char-lt c v e = ground arith

-- A character that is accepted is the one that its sextet is written as.
pub encode_char-decode_char : (c v : ℕ) → decode_char c ≡ some v → (v < 64) × (encode_char v ≡ c)
encode_char-decode_char c v e = ground (
  arith,
  all_below_sound 123 (λ c. found_ok (decode_char c) c) c sextet_table (decode_char-lt c v e),
)

nibble_table : all_below 256 (λ b. bit_and b 0xf0 / 16 == b / 16) ≡ true
unfolding all_below
nibble_table = refl

high_nibble : (b : ℕ) → b < 256 → bit_and b 0xf0 / 16 ≡ b / 16
high_nibble b h =
    (==_iff _ _).0 (all_below_sound 256 (λ b. bit_and b 0xf0 / 16 == b / 16) b nibble_table h)

top_table : all_below 256 (λ b. bit_and b 0xc0 / 64 == b / 64) ≡ true
unfolding all_below
top_table = refl

top_bits : (b : ℕ) → b < 256 → bit_and b 0xc0 / 64 ≡ b / 64
top_bits b h =
    (==_iff _ _).0 (all_below_sound 256 (λ b. bit_and b 0xc0 / 64 == b / 64) b top_table h)

-- The second, third and fourth sextet of three bytes.
pub sextet1 :
    (b0 b1 : ℕ)
    → b1 < 256
    → bit_or (bit_and b0 0x03 * 16) (bit_and b1 0xf0 / 16) ≡ b0 % 4 * 16 + b1 / 16
sextet1 b0 b1 h = rw (high_nibble b1 h) (
    rw (bit_and_three b0)
      (bit_or_disjoint_left 4 (b1 / 16) (b0 % 4) (b0 % 4 * 16) (omega arith) refl))

pub sextet2 :
    (b1 b2 : ℕ)
    → b2 < 256
    → bit_or (bit_and b1 0x0f * 4) (bit_and b2 0xc0 / 64) ≡ b1 % 16 * 4 + b2 / 64
sextet2 b1 b2 h = rw (top_bits b2 h) (
    rw (bit_and_fifteen b1)
      (bit_or_disjoint_left 2 (b2 / 64) (b1 % 16) (b1 % 16 * 4) (omega arith) refl))

pub sextet3 : (b2 : ℕ) → bit_and b2 0x3f ≡ b2 % 64
sextet3 b2 = bit_and_63 b2

-- The three bytes of four sextets.
pub octet0 : (v0 v1 : ℕ) → v0 < 64 → v1 < 64 → bit_or (v0 * 4) (v1 / 16) % 256 ≡ v0 * 4 + v1 / 16
octet0 v0 v1 h0 h1 =
    rw (bit_or_disjoint_left 2 (v1 / 16) v0 (v0 * 4) (omega arith) refl) (omega arith)

pub octet1 : (v1 v2 : ℕ) → v2 < 64 → bit_or (v1 * 16) (v2 / 4) % 256 ≡ v1 % 16 * 16 + v2 / 4
octet1 v1 v2 h = rw (bit_or_disjoint_left 4 (v2 / 4) v1 (v1 * 16) (omega arith) refl) (omega arith)

pub octet2 : (v2 v3 : ℕ) → v3 < 64 → bit_or (v2 * 64) v3 % 256 ≡ v2 % 4 * 64 + v3
octet2 v2 v3 h = rw (bit_or_disjoint_left 6 v3 v2 (v2 * 64) (omega arith) refl) (omega arith)
