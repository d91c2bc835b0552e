-- ===== src/Codec/Url.antt =====
-- src/brickred/codec/url.cc: percent encoding. `none` is the result -1.
pub mod RoundTrip
pub mod Percent
mod Tests
use brickred_server.Base.{
  ℕ, ◌+◌, ◌-◌, ◌*◌, ◌/◌, bit_and, Bool, true, false, ◌&&◌, ◌||◌, Option, none, some, List, [], ◌∷◌,
  ◌++◌, length, get_or, ltb, leb, ◌==◌, if◌then◌else◌, ◌>>=◌, codes,
}
use brickred_server.Codec.{emit, to_string}

unfoldable pub is_one_of : ℕ → List ℕ → Bool
is_one_of c [] = false
is_one_of c (d ∷ ds) = c == d || is_one_of c ds

unfoldable pub is_unreserved_char : ℕ → Bool
unfolding is_one_of
is_unreserved_char c =
    is_one_of c (codes "0123456789abcdefghijklmnopqrstuvwxyzABCDEFGHIJKLMNOPQRSTUVWXYZ-._~")

-- `s_hex_to_letter`
unfoldable pub hex_to_letter : ℕ → ℕ
hex_to_letter i = get_or (codes "0123456789ABCDEF") i 0

unfoldable pub letter_to_hex : ℕ → Option ℕ
letter_to_hex c =
    if leb b'0' c && leb c b'9'
    then some (c - b'0')
    else if leb b'a' c && leb c b'f'
    then some (c - b'a' + 10)
    else if leb b'A' c && leb c b'F'
    then some (c - b'A' + 10)
    else none

-- What one byte is written as.
unfoldable pub escape : ℕ → List ℕ
escape c =
    if is_unreserved_char c
    then c ∷ []
    else b'%' ∷ hex_to_letter (c / 16) ∷ hex_to_letter (bit_and c 0x0f) ∷ []

unfoldable pub encode : List ℕ → ℕ → Option (List ℕ)
encode [] room = some []
encode (c ∷ cs) room =
    let need : ℕ = if is_unreserved_char c then 1 else 3 in
    emit room need (escape c) (encode cs (room - need))

unfoldable pub encode_string : List ℕ → List ℕ
encode_string [] = []
encode_string (c ∷ cs) =
    let buffer : List ℕ = c ∷ cs in to_string (encode buffer (length buffer * 3))

-- The write of an escaped byte, if both digits are hexadecimal.
unfoldable pub unescape : ℕ → Option ℕ → Option ℕ → Option (List ℕ) → Option (List ℕ)
unescape room (some high) (some low) rest = emit room 1 ((high * 0x10 + low) ∷ []) rest
unescape room high low rest = none

unfoldable pub decode : List ℕ → ℕ → Option (List ℕ)
decode [] room = some []
decode (c ∷ []) room = if c == b'%' then none else emit room 1 (c ∷ []) (some [])
decode (c ∷ d ∷ []) room =
    let plain = emit room 1 (c ∷ []) (decode (d ∷ []) (room - 1)) in
    if c == b'%' then none else plain
decode (c ∷ h ∷ l ∷ rest) room =
    let escaped = unescape room (letter_to_hex h) (letter_to_hex l) (decode rest (room - 1)) in
    let plain = emit room 1 (c ∷ []) (decode (h ∷ l ∷ rest) (room - 1)) in
    if c == b'%' then escaped else plain

unfoldable pub decode_string : List ℕ → List ℕ
decode_string [] = []
decode_string (c ∷ cs) = let buffer : List ℕ = c ∷ cs in to_string (decode buffer (length buffer))
