-- ===== src/Codec/Base64/Tests.antt =====
-- Runs of base64.cc on short strings, and its theorems at such inputs.
use brickred_server.Base.{ℕ, ◌≤◌, ◌≡◌, refl, some, none, List, length, All, IsByte, codes, arith}
use brickred_server.Codec.{emit}
use brickred_server.Codec.Base64.{
  encode_char, encode_group, encode, encode_string, scan, decode_group, decode, decode_string,
}
use brickred_server.Codec.Base64.RoundTrip.{decode_string-encode_string}
use brickred_server.Codec.Base64.Canonical.{encode-decode}

abbrev ma : List ℕ
ma = codes "Ma"

abbrev ma_text : List ℕ
ma_text = codes "TWE="

ma_encoded : encode ma 4 ≡ some ma_text
unfolding encode emit encode_group encode_char
ma_encoded = refl

ma_decoded : decode ma_text 2 ≡ some ma
unfolding decode scan decode_group
ma_decoded = refl

-- Bits behind the last byte are refused.
not_canonical : decode (codes "TWF=") 2 ≡ none
unfolding decode scan decode_group
not_canonical = refl

decode_string-encode_string_example : decode_string (encode_string ma) ≡ ma
decode_string-encode_string_example = decode_string-encode_string ma (omega arith) (omega arith)

encode-decode_example : (encode ma 4 ≡ some ma_text) × All IsByte ma × (length ma ≤ 2)
encode-decode_example = encode-decode ma_text ma 2 ma_decoded
