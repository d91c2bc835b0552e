-- ===== src/Digest/Hex.antt =====
-- `snprintf` with "%02hhx" in `digest` of src/brickred/codec/{md5,sha1,sha256}.cc.
use brickred_server.Base.{
  ℕ, ◌+◌, ◌-◌, ◌*◌, ◌/◌, ◌%◌, ◌≡◌, List, [], ◌∷◌, length, ltb, if◌then◌else◌, arith, Bool, true,
  false,
}
use brickred_server.Digest.{output}

abbrev pub hex_digit : ℕ → ℕ
hex_digit d = if ltb d 10 then 0x30 + d else 0x61 + (d - 10)

-- The bytes of the digest as lower-case hexadecimal digits.
unfoldable pub hex : List ℕ → List ℕ
hex [] = []
hex (b ∷ bytes) = hex_digit (b / 16) ∷ hex_digit (b % 16) ∷ hex bytes

pub length-hex : (bytes : List ℕ) → length (hex bytes) ≡ length bytes * 2
unfolding hex
length-hex [] = omega arith
length-hex (b ∷ bytes) = omega (arith, length-hex bytes)

pub length-output :
    (big_endian : Bool) (ws : List ℕ) → length (output big_endian ws) ≡ length ws * 4
unfolding output
length-output big_endian [] = omega arith
length-output true (w ∷ ws) = omega (arith, length-output true ws)
length-output false (w ∷ ws) = omega (arith, length-output false ws)
