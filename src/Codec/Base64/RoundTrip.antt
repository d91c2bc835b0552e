-- ===== src/Codec/Base64/RoundTrip.antt =====
-- `base64Decode` after `base64Encode`.
use brickred_server.Base.{
  ℕ, ◌+◌, ◌-◌, ◌*◌, ◌/◌, ◌%◌, ◌^◌, ◌≤◌, ◌<◌, ◌≡◌, refl, ap, ◌∙◌, Bool, true, false, Option, some,
  List, [], ◌∷◌, length, ◌==◌, ◌>>=◌, arith, All, IsByte, bit_or, bit_and,
}
use brickred_server.Base.Bits.{bit_and_three, bit_and_fifteen}
use brickred_server.Codec.{to_string}
use brickred_server.Codec.{to_string}
use brickred_server.Codec.Strings.{to_string-some}
use brickred_server.Codec.Base64.{
  encode, encode_string, decode_string, encode_char, scan, decode_group, decode, is_empty, encode,
  encode_string, decode_string,
}
use brickred_server.Codec.Base64.Sextets.{
  decode_char-encode_char, encode_char-ne_pad, octet0, octet1, octet2,
}
use brickred_server.Codec.Base64.Encoding.{encoding, length-encoding, encode-encoding}

-- One round of the inner loop on a character of the table.
scan_char :
    (i : ℕ) (cs : List ℕ) (last : Bool)
    → i < 64
    → scan (encode_char i ∷ cs) last ≡ (scan cs last >>= λ vs. some (i ∷ vs))
unfolding scan
scan_char i cs last h =
    let other : (encode_char i == b'=') ≡ false = ground (arith, encode_char-ne_pad i h) in
    rw other (rw (decode_char-encode_char i h) refl)

module _ (i0 i1 i2 i3 : ℕ) (h0 : i0 < 64) (h1 : i1 < 64) (h2 : i2 < 64) (h3 : i3 < 64) where
  scan4 :
      (last : Bool)
      → scan (encode_char i0 ∷ encode_char i1 ∷ encode_char i2 ∷ encode_char i3 ∷ []) last
        ≡ some (i0 ∷ i1 ∷ i2 ∷ i3 ∷ [])
  scan4 last = rw (scan_char i0 _ last h0) (
      rw (scan_char i1 _ last h1)
        (rw (scan_char i2 _ last h2) (rw (scan_char i3 _ last h3) (unfold scan in refl))))

pad2 : scan (b'=' ∷ b'=' ∷ []) true ≡ some []
unfolding scan
pad2 = refl

pad1 : scan (b'=' ∷ []) true ≡ some []
unfolding scan
pad1 = refl

pub decode_step :
    (c0 c1 c2 c3 : ℕ) (rest : List ℕ) (room : ℕ) (vs : List ℕ)
    → scan (c0 ∷ c1 ∷ c2 ∷ c3 ∷ []) (is_empty rest) ≡ some vs
    → decode (c0 ∷ c1 ∷ c2 ∷ c3 ∷ rest) room
      ≡ decode_group vs room (decode rest (room - (length vs - 1)))
unfolding decode
decode_step c0 c1 c2 c3 rest room vs e = rw e refl

group1 :
    (b0 room : ℕ)
    → IsByte b0
    → 1 ≤ room
    → decode_group (b0 / 4 ∷ b0 % 4 * 16 ∷ []) room (decode [] (room - 1)) ≡ some (b0 ∷ [])
unfolding decode_group decode
group1 b0 room h r =
    let low : bit_and (b0 % 4 * 16) 0x0f ≡ 0 = omega (arith, bit_and_fifteen (b0 % 4 * 16)) in
    let byte : bit_or (b0 / 4 * 4) (b0 % 4 * 16 / 16) % 256 ≡ b0 =
      omega (arith, octet0 (b0 / 4) (b0 % 4 * 16) (omega arith) (omega arith)) in
    rw (low, byte) (ground arith)

group2 :
    (b0 b1 room : ℕ)
    → IsByte b0
    → IsByte b1
    → 2 ≤ room
    → decode_group (b0 / 4 ∷ (b0 % 4 * 16 + b1 / 16) ∷ b1 % 16 * 4 ∷ []) room (decode [] (room - 2))
      ≡ some (b0 ∷ b1 ∷ [])
unfolding decode_group decode
group2 b0 b1 room h0 h1 r =
    let low : bit_and (b1 % 16 * 4) 0x03 ≡ 0 = omega (arith, bit_and_three (b1 % 16 * 4)) in
    let v1 : ℕ = b0 % 4 * 16 + b1 / 16 in
    let byte0 : bit_or (b0 / 4 * 4) (v1 / 16) % 256 ≡ b0 =
      omega (arith, octet0 (b0 / 4) v1 (omega arith) (omega arith)) in
    let byte1 : bit_or (v1 * 16) (b1 % 16 * 4 / 4) % 256 ≡ b1 =
      omega (arith, octet1 v1 (b1 % 16 * 4) (omega arith)) in
    rw (low, byte0, byte1) (ground arith)

group3 :
    (b0 b1 b2 room : ℕ) (more : Option (List ℕ)) (rest : List ℕ)
    → IsByte b0
    → IsByte b1
    → IsByte b2
    → 3 ≤ room
    → more ≡ some rest
    → decode_group
        (b0 / 4 ∷ (b0 % 4 * 16 + b1 / 16) ∷ (b1 % 16 * 4 + b2 / 64) ∷ b2 % 64 ∷ [])
        room
        more
      ≡ some (b0 ∷ b1 ∷ b2 ∷ rest)
unfolding decode_group
group3 b0 b1 b2 room more rest h0 h1 h2 r e =
    let v1 : ℕ = b0 % 4 * 16 + b1 / 16 in
    let v2 : ℕ = b1 % 16 * 4 + b2 / 64 in
    let byte0 : bit_or (b0 / 4 * 4) (v1 / 16) % 256 ≡ b0 =
      omega (arith, octet0 (b0 / 4) v1 (omega arith) (omega arith)) in
    let byte1 : bit_or (v1 * 16) (v2 / 4) % 256 ≡ b1 = omega (arith, octet1 v1 v2 (omega arith)) in
    let byte2 : bit_or (v2 * 64) (b2 % 64) % 256 ≡ b2 =
      omega (arith, octet2 v2 (b2 % 64) (omega arith)) in
    rw (byte0, byte1, byte2, e) (ground arith)

-- `base64Decode` reads the base64 text of a byte string back, if the output has room for it.
pub decode-encoding :
    (xs : List ℕ) (room : ℕ)
    → All IsByte xs
    → length xs ≤ room
    → decode (encoding xs) room ≡ some xs
decode-encoding [] room h r = unfold decode in refl
decode-encoding (b0 ∷ []) room h r =
    decode_step _ _ _ _ [] room (b0 / 4 ∷ b0 % 4 * 16 ∷ []) (
      rw (scan_char (b0 / 4) _ true (omega arith))
        (rw (scan_char (b0 % 4 * 16) _ true (omega arith)) (rw pad2 refl)))
    ∙ group1 b0 room h.0 r
decode-encoding (b0 ∷ b1 ∷ []) room h r =
    decode_step _ _ _ _ [] room (b0 / 4 ∷ (b0 % 4 * 16 + b1 / 16) ∷ b1 % 16 * 4 ∷ []) (
      rw (scan_char (b0 / 4) _ true (omega arith)) (
        rw (scan_char (b0 % 4 * 16 + b1 / 16) _ true (omega arith))
          (rw (scan_char (b1 % 16 * 4) _ true (omega arith)) (rw pad1 refl))))
    ∙ group2 b0 b1 room h.0 h.1.0 r
decode-encoding (b0 ∷ b1 ∷ b2 ∷ rest) room h r =
    decode_step _ _ _ _ (encoding rest) room
      (b0 / 4 ∷ (b0 % 4 * 16 + b1 / 16) ∷ (b1 % 16 * 4 + b2 / 64) ∷ b2 % 64 ∷ [])
      (scan4 (b0 / 4) (b0 % 4 * 16 + b1 / 16) (b1 % 16 * 4 + b2 / 64) (b2 % 64) (omega arith)
        (omega arith) (omega arith) (omega arith) (is_empty (encoding rest)))
    ∙ group3 b0 b1 b2 room (decode (encoding rest) (room - 3)) rest h.0 h.1.0 h.1.1.0 (omega arith)
        (decode-encoding rest (room - 3) h.1.1.1 (omega arith))

encode_string_lem :
    (xs : List ℕ)
    → All IsByte xs
    → (length xs + 2) / 3 * 4 < 2 ^ 31
    → encode_string xs ≡ encoding xs
unfolding encode_string
encode_string_lem [] h small = refl
encode_string_lem (b ∷ bs) h small =
    let fits : encode (b ∷ bs) ((length (b ∷ bs) + 2) / 3 * 4) ≡ some (encoding (b ∷ bs)) = ground (
      arith,
      encode-encoding (b ∷ bs) ((length (b ∷ bs) + 2) / 3 * 4) h,
      length-encoding (b ∷ bs),
    ) in
    rw fits (to_string-some (encoding (b ∷ bs)) (omega (arith, length-encoding (b ∷ bs))))

decode_string_lem :
    (cs : List ℕ) → length cs % 4 ≡ 0 → decode_string cs ≡ to_string (decode cs (length cs / 4 * 3))
unfolding decode_string
decode_string_lem [] h = unfold decode in refl
decode_string_lem (c ∷ cs) h =
    let whole : (length (c ∷ cs) % 4 == 0) ≡ true = ground arith in rw whole refl

-- `base64Encode` and `base64Decode` on strings: decoding gives the string back, for all strings
-- of bytes whose base64 text is shorter than 2 ^ 31 characters.
pub decode_string-encode_string :
    (xs : List ℕ)
    → All IsByte xs
    → (length xs + 2) / 3 * 4 < 2 ^ 31
    → decode_string (encode_string xs) ≡ xs
decode_string-encode_string xs h small = rw (encode_string_lem xs h small) (
    decode_string_lem (encoding xs) (omega (arith, length-encoding xs))
    ∙ ap to_string
        (decode-encoding xs (length (encoding xs) / 4 * 3) h (omega (arith, length-encoding xs)))
    ∙ to_string-some xs (omega arith))
