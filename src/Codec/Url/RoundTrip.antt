-- ===== src/Codec/Url/RoundTrip.antt =====
-- `urlDecode` after `urlEncode`, and the sizes of both.
use brickred_server.Base.{
  ℕ, ◌+◌, ◌-◌, ◌*◌, ◌/◌, ◌^◌, ◌≤◌, ◌<◌, ◌≡◌, refl, ap, ◌∙◌, bit_and, Bool, true, false, not, ◌&&◌,
  ◌||◌, Option, none, some, List, [], ◌∷◌, ◌++◌, length, length-append, leb, ◌==◌, if◌then◌else◌,
  arith, All, IsByte, Bool-cases, inl, inr,
}
use brickred_server.Base.Bits.{all_below, all_below_sound}
use brickred_server.Codec.{emit, to_string}
use brickred_server.Codec.Strings.{to_string-some}
use brickred_server.Codec.Url.{
  is_unreserved_char, hex_to_letter, letter_to_hex, escape, encode, encode_string, unescape, decode,
  decode_string,
}

-- The bytes of a string, escaped by the code one by one.
abbrev pub encoding : List ℕ → List ℕ
encoding [] = []
encoding (c ∷ cs) = escape c ++ encoding cs

-- The digits of an escaped byte are read back, and a plain byte is not `%`.
digits_ok : Option ℕ → Option ℕ → ℕ → Bool
digits_ok (some high) (some low) c = high * 0x10 + low == c
digits_ok high low c = false

abbrev byte_ok : ℕ → Bool
byte_ok c =
    digits_ok (letter_to_hex (hex_to_letter (c / 16)))
      (letter_to_hex (hex_to_letter (bit_and c 0x0f))) c
    && (not (is_unreserved_char c) || not (c == b'%'))

byte_table : all_below 256 byte_ok ≡ true
unfolding all_below digits_ok letter_to_hex hex_to_letter is_unreserved_char
byte_table = refl

plain_ne_percent : (c : ℕ) → IsByte c → is_unreserved_char c ≡ true → (c == b'%') ≡ false
plain_ne_percent c h u = ground (arith, all_below_sound 256 byte_ok c byte_table h)

unescape_digits :
    (c room : ℕ) (more : Option (List ℕ))
    → IsByte c
    → unescape room
        (letter_to_hex (hex_to_letter (c / 16)))
        (letter_to_hex (hex_to_letter (bit_and c 0x0f)))
        more
      ≡ emit room 1 (c ∷ []) more
unfolding unescape digits_ok
unescape_digits c room more h = ground (arith, all_below_sound 256 byte_ok c byte_table h)

decode_plain :
    (c : ℕ) (rest : List ℕ) (room : ℕ)
    → (c == b'%') ≡ false
    → decode (c ∷ rest) room ≡ emit room 1 (c ∷ []) (decode rest (room - 1))
unfolding decode
decode_plain c [] room h = rw h refl
decode_plain c (d ∷ []) room h = rw h refl
decode_plain c (d ∷ e ∷ rest) room h = rw h refl

-- Decoding what one byte was written as gives that byte, and goes on behind it.
decode-escape :
    (c : ℕ) (rest : List ℕ) (room : ℕ)
    → IsByte c
    → decode (escape c ++ rest) room ≡ emit room 1 (c ∷ []) (decode rest (room - 1))
unfolding escape
decode-escape c rest room h = elim (Bool-cases (is_unreserved_char c)) [
  | inl plain ↦ rw plain (decode_plain c rest room (plain_ne_percent c h plain))
  | inr other ↦ rw other (unfold decode in unescape_digits c room (decode rest (room - 1)) h)
]

-- `urlDecode` reads the escaped bytes of a string back, if the output has room for it.
pub url_decode-encoding :
    (xs : List ℕ) (room : ℕ)
    → All IsByte xs
    → length xs ≤ room
    → decode (encoding xs) room ≡ some xs
url_decode-encoding [] room h r = unfold decode in refl
url_decode-encoding (c ∷ cs) room h r =
    decode-escape c (encoding cs) room h.0
    ∙ rw (url_decode-encoding cs (room - 1) h.1 (omega arith)) (unfold emit in ground arith)

length-escape : (c : ℕ) → length (escape c) ≡ (if is_unreserved_char c then 1 else 3)
unfolding escape
length-escape c = ground arith

-- A round, on later rounds that fail just if their text does not fit.
emit_fits :
    (room need : ℕ) (group tail : List ℕ)
    → length group ≡ need
    → emit room need group (if leb (length tail) (room - need) then some tail else none)
      ≡ (if leb (length (group ++ tail)) room then some (group ++ tail) else none)
unfolding emit
emit_fits room need group tail e = rw (length-append group tail) (ground arith)

-- `urlEncode` writes the escaped bytes, and fails just if they do not fit.
pub url_encode-encoding :
    (xs : List ℕ) (room : ℕ)
    → encode xs room ≡ (if leb (length (encoding xs)) room then some (encoding xs) else none)
unfolding encode
url_encode-encoding [] room = ground arith
url_encode-encoding (c ∷ cs) room =
    let need : ℕ = if is_unreserved_char c then 1 else 3 in
    rw (url_encode-encoding cs (room - need))
      (emit_fits room need (escape c) (encoding cs) (length-escape c))

length-encoding-le : (xs : List ℕ) → length (encoding xs) ≤ length xs * 3
length-encoding-le [] = omega arith
length-encoding-le (c ∷ cs) =
    ground (arith, length-append (escape c) (encoding cs), length-escape c, length-encoding-le cs)

length-le-encoding : (xs : List ℕ) → length xs ≤ length (encoding xs)
length-le-encoding [] = omega arith
length-le-encoding (c ∷ cs) =
    ground (arith, length-append (escape c) (encoding cs), length-escape c, length-le-encoding cs)

encode_string_lem : (xs : List ℕ) → length xs * 3 < 2 ^ 31 → encode_string xs ≡ encoding xs
unfolding encode_string
encode_string_lem [] small = refl
encode_string_lem (c ∷ cs) small =
    let fits : encode (c ∷ cs) (length (c ∷ cs) * 3) ≡ some (encoding (c ∷ cs)) =
      ground
        (arith, url_encode-encoding (c ∷ cs) (length (c ∷ cs) * 3), length-encoding-le (c ∷ cs)) in
    rw fits (to_string-some (encoding (c ∷ cs)) (omega (arith, length-encoding-le (c ∷ cs))))

decode_string_lem : (cs : List ℕ) → decode_string cs ≡ to_string (decode cs (length cs))
unfolding decode_string
decode_string_lem [] = unfold decode in refl
decode_string_lem (c ∷ cs) = refl

-- `urlEncode` and `urlDecode` on strings: decoding gives the string back, for all strings of bytes
-- that are shorter than 2 ^ 31 / 3.
pub url_decode_string-encode_string :
    (xs : List ℕ) → All IsByte xs → length xs * 3 < 2 ^ 31 → decode_string (encode_string xs) ≡ xs
url_decode_string-encode_string xs h small = rw (encode_string_lem xs small) (
    decode_string_lem (encoding xs)
    ∙ ap to_string (url_decode-encoding xs (length (encoding xs)) h (length-le-encoding xs))
    ∙ to_string-some xs (omega arith))
