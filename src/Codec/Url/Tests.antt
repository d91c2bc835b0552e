-- ===== src/Codec/Url/Tests.antt =====
-- Runs of url.cc on short strings, and its theorems at such inputs.
use brickred_server.Base.{
  ℕ, ◌≡◌, refl, true, some, none, List, codes, arith, length, leb, if◌then◌else◌,
}
use brickred_server.Codec.{emit}
use brickred_server.Codec.Url.{
  is_unreserved_char, hex_to_letter, letter_to_hex, escape, encode, encode_string, unescape, decode,
  decode_string,
}
use brickred_server.Codec.Url.RoundTrip.{url_decode_string-encode_string}
use brickred_server.Codec.Url.Percent.{
  all_safe, percent_encoding, encode-percent_encoding, url_encode-safe,
}

abbrev plain : List ℕ
plain = codes "a b"

abbrev escaped : List ℕ
escaped = codes "a%20b"

plain_encoded : encode plain 9 ≡ some escaped
unfolding encode emit escape is_unreserved_char hex_to_letter
plain_encoded = refl

-- An escape that is cut off, or has a digit that is none, is refused.
cut_off : decode (codes "a%2") 9 ≡ none
unfolding decode emit
cut_off = refl

bad_digit : decode (codes "%2G") 9 ≡ none
unfolding decode unescape letter_to_hex
bad_digit = refl

encode-percent_encoding_example :
    encode plain 5
    ≡ (if leb (length (percent_encoding plain)) 5 then some (percent_encoding plain) else none)
encode-percent_encoding_example = encode-percent_encoding plain 5 (omega arith)

url_decode_string-encode_string_example : decode_string (encode_string plain) ≡ plain
url_decode_string-encode_string_example =
    url_decode_string-encode_string plain (omega arith) (omega arith)

url_encode-safe_example : all_safe escaped ≡ true
url_encode-safe_example = url_encode-safe plain escaped 9 (omega arith) plain_encoded
