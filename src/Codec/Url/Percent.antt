-- ===== src/Codec/Url/Percent.antt =====
-- What src/brickred/codec/url.cc writes, against percent encoding as RFC 3986 has it.
use brickred_server.Base.{
  ℕ, ◌+◌, ◌/◌, ◌%◌, ◌≡◌, refl, ap₂, subst, bit_and, Bool, true, false, ◌&&◌, ◌||◌, some, none, List,
  [], ◌∷◌, ◌++◌, length, ltb, leb, ◌==◌, if◌then◌else◌, arith, All, IsByte,
}
use brickred_server.Base.Bits.{all_below, all_below_sound}
use brickred_server.Codec.Url.{is_unreserved_char, hex_to_letter, escape, encode}
use brickred_server.Codec.Url.RoundTrip.{encoding, url_encode-encoding}

-- Letters, digits and the four marks `-`, `.`, `_` and `~`, by their codes.
abbrev pub unreserved : ℕ → Bool
unreserved c =
    leb 65 c && leb c 90
    || leb 97 c && leb c 122
    || leb 48 c && leb c 57
    || c == 45
    || c == 46
    || c == 95
    || c == 126

-- A digit of an escape, in upper case.
abbrev pub upper_digit : ℕ → ℕ
upper_digit d = if ltb d 10 then 48 + d else 55 + d

-- The percent encoding of a string: 37 is `%`.
abbrev pub percent_encoding : List ℕ → List ℕ
percent_encoding [] = []
percent_encoding (c ∷ cs) =
    (if unreserved c then c ∷ [] else 37 ∷ upper_digit (c / 16) ∷ upper_digit (c % 16) ∷ [])
    ++ percent_encoding cs

abbrev byte_ok : ℕ → Bool
byte_ok c =
    hex_to_letter (c / 16) == upper_digit (c / 16)
    && hex_to_letter (bit_and c 0x0f) == upper_digit (c % 16)
    && (if unreserved c then is_unreserved_char c else if is_unreserved_char c then false else true)

byte_table : all_below 256 byte_ok ≡ true
unfolding all_below hex_to_letter is_unreserved_char
byte_table = refl

escape_lem :
    (c : ℕ)
    → IsByte c
    → escape c
      ≡ (if unreserved c then c ∷ [] else 37 ∷ upper_digit (c / 16) ∷ upper_digit (c % 16) ∷ [])
unfolding escape
escape_lem c h =
    let ok : byte_ok c ≡ true = all_below_sound 256 byte_ok c byte_table h in ground (arith, ok)

encoding-percent_encoding : (xs : List ℕ) → All IsByte xs → encoding xs ≡ percent_encoding xs
encoding-percent_encoding [] h = refl
encoding-percent_encoding (c ∷ cs) h =
    ap₂ ◌++◌ (escape_lem c h.0) (encoding-percent_encoding cs h.1)

-- For every string of bytes and every size of the output, urlEncode writes the percent encoding,
-- with the unreserved characters of RFC 3986 and digits in upper case, and fails just if that does
-- not fit the output.
pub encode-percent_encoding :
    (xs : List ℕ) (room : ℕ)
    → All IsByte xs
    → encode xs room
      ≡ (if leb (length (percent_encoding xs)) room then some (percent_encoding xs) else none)
encode-percent_encoding xs room h =
    subst (λ ys. encode xs room ≡ (if leb (length ys) room then some ys else none))
      (encoding-percent_encoding xs h) (url_encode-encoding xs room)

abbrev pub all_safe : List ℕ → Bool
all_safe [] = true
all_safe (d ∷ ds) = (unreserved d || d == 37) && all_safe ds

all_safe-append : (xs ys : List ℕ) → all_safe (xs ++ ys) ≡ (all_safe xs && all_safe ys)
all_safe-append [] ys = refl
all_safe-append (x ∷ xs) ys = rw (all_safe-append xs ys) (ground arith)

safe_table : all_below 256 (λ c. all_safe (escape c)) ≡ true
unfolding all_below escape is_unreserved_char hex_to_letter
safe_table = refl

all_safe-encoding : (xs : List ℕ) → All IsByte xs → all_safe (encoding xs) ≡ true
all_safe-encoding [] h = refl
all_safe-encoding (c ∷ cs) h =
    rw
      (
        all_safe-append (escape c) (encoding cs),
        all_below_sound 256 (λ c. all_safe (escape c)) c safe_table h.0,
      )
      (all_safe-encoding cs h.1)

-- What urlEncode writes for a string of bytes, when it does not fail, consists of letters, digits,
-- the marks `-`, `.`, `_` and `~`, and percent signs only.
pub url_encode-safe :
    (xs out : List ℕ) (room : ℕ) → All IsByte xs → encode xs room ≡ some out → all_safe out ≡ true
url_encode-safe xs out room h e =
    let same : encoding xs ≡ out = ground (arith, url_encode-encoding xs room) in
    subst (λ ys. all_safe ys ≡ true) same (all_safe-encoding xs h)
