-- ===== src/Codec/Base64.antt =====
-- src/brickred/codec/base64.cc. A codec that would write behind the end of its output returns
-- `none`, as it does for input that it refuses: the result -1. Else the result is what was written.
pub mod Sextets
pub mod Encoding
pub mod RoundTrip
pub mod Scan
pub mod Canonical
mod Tests
use brickred_server.Base.{
  ℕ, suc, ◌+◌, ◌-◌, ◌*◌, ◌/◌, ◌%◌, bit_and, bit_or, Bool, true, false, ◌&&◌, ◌||◌, Option, none,
  some, List, [], ◌∷◌, ◌++◌, length, get_or, ltb, ◌==◌, if◌then◌else◌, ◌>>=◌, codes,
}
use brickred_server.Base.Int.{ℤ, pos, negsuc}
use brickred_server.Codec.{emit, to_string}

abbrev pub encode_table : List ℕ
encode_table = codes "ABCDEFGHIJKLMNOPQRSTUVWXYZabcdefghijklmnopqrstuvwxyz0123456789+/"

abbrev gap : ℤ
gap = negsuc 0

-- `s_decode_table`: the entry for the character `43 + i`.
abbrev pub decode_table : List ℤ
decode_table =
    pos 62
    ∷ gap
    ∷ gap
    ∷ gap
    ∷ pos 63
    ∷ pos 52
    ∷ pos 53
    ∷ pos 54
    ∷ pos 55
    ∷ pos 56
    ∷ pos 57
    ∷ pos 58
    ∷ pos 59
    ∷ pos 60
    ∷ pos 61
    ∷ gap
    ∷ gap
    ∷ gap
    ∷ negsuc 1
    ∷ gap
    ∷ gap
    ∷ gap
    ∷ pos 0
    ∷ pos 1
    ∷ pos 2
    ∷ pos 3
    ∷ pos 4
    ∷ pos 5
    ∷ pos 6
    ∷ pos 7
    ∷ pos 8
    ∷ pos 9
    ∷ pos 10
    ∷ pos 11
    ∷ pos 12
    ∷ pos 13
    ∷ pos 14
    ∷ pos 15
    ∷ pos 16
    ∷ pos 17
    ∷ pos 18
    ∷ pos 19
    ∷ pos 20
    ∷ pos 21
    ∷ pos 22
    ∷ pos 23
    ∷ pos 24
    ∷ pos 25
    ∷ gap
    ∷ gap
    ∷ gap
    ∷ gap
    ∷ gap
    ∷ gap
    ∷ pos 26
    ∷ pos 27
    ∷ pos 28
    ∷ pos 29
    ∷ pos 30
    ∷ pos 31
    ∷ pos 32
    ∷ pos 33
    ∷ pos 34
    ∷ pos 35
    ∷ pos 36
    ∷ pos 37
    ∷ pos 38
    ∷ pos 39
    ∷ pos 40
    ∷ pos 41
    ∷ pos 42
    ∷ pos 43
    ∷ pos 44
    ∷ pos 45
    ∷ pos 46
    ∷ pos 47
    ∷ pos 48
    ∷ pos 49
    ∷ pos 50
    ∷ pos 51
    ∷ []

unfoldable pub encode_char : ℕ → ℕ
encode_char i = get_or encode_table i 0

-- The four characters for three bytes, of which `b_len` were read.
unfoldable pub encode_group : ℕ → ℕ → ℕ → ℕ → List ℕ
encode_group b0 b1 b2 b_len =
    encode_char (b0 / 4)
    ∷ encode_char (bit_or (bit_and b0 0x03 * 16) (bit_and b1 0xf0 / 16))
    ∷ (if ltb 1 b_len
        then encode_char (bit_or (bit_and b1 0x0f * 4) (bit_and b2 0xc0 / 64))
        else b'=')
    ∷ (if ltb 2 b_len then encode_char (bit_and b2 0x3f) else b'=')
    ∷ []

unfoldable pub encode : List ℕ → ℕ → Option (List ℕ)
encode [] room = some []
encode (b0 ∷ []) room = emit room 4 (encode_group b0 0 0 1) (some [])
encode (b0 ∷ b1 ∷ []) room = emit room 4 (encode_group b0 b1 0 2) (some [])
encode (b0 ∷ b1 ∷ b2 ∷ rest) room = emit room 4 (encode_group b0 b1 b2 3) (encode rest (room - 4))

unfoldable pub encode_string : List ℕ → List ℕ
encode_string [] = []
encode_string (b ∷ bs) =
    let buffer : List ℕ = b ∷ bs in to_string (encode buffer ((length buffer + 2) / 3 * 4))

sextet : ℤ → Option ℕ
sextet (pos v) = some v
sextet (negsuc v) = none

unfoldable pub decode_char : ℕ → Option ℕ
unfolding sextet
decode_char c = if ltb c 43 || ltb 122 c then none else sextet (get_or decode_table (c - 43) gap)

unfoldable pub all_pad : List ℕ → Bool
all_pad [] = true
all_pad (c ∷ cs) = (c == b'=') && all_pad cs

-- The inner loop on the rest of a quad: the sextets before the padding. `last` is `in_size == 4`.
unfoldable pub scan : List ℕ → Bool → Option (List ℕ)
unfolding decode_char all_pad
scan [] last = some []
scan (c ∷ cs) last =
    if c == b'='
    then if all_pad cs then if last then some [] else none else none
    else (decode_char c >>= λ v. scan cs last >>= λ vs. some (v ∷ vs))

-- The checks on a quad behind the inner loop, and its writes.
unfoldable pub decode_group : List ℕ → ℕ → Option (List ℕ) → Option (List ℕ)
unfolding emit
decode_group (b0 ∷ b1 ∷ []) room rest =
    if bit_and b1 0x0f == 0 then emit room 1 (bit_or (b0 * 4) (b1 / 16) % 256 ∷ []) rest else none
decode_group (b0 ∷ b1 ∷ b2 ∷ []) room rest =
    if bit_and b2 0x03 == 0
    then emit room 2 (bit_or (b0 * 4) (b1 / 16) % 256 ∷ bit_or (b1 * 16) (b2 / 4) % 256 ∷ []) rest
    else none
decode_group (b0 ∷ b1 ∷ b2 ∷ b3 ∷ []) room rest =
    emit room 3
      (bit_or (b0 * 4) (b1 / 16) % 256
        ∷ bit_or (b1 * 16) (b2 / 4) % 256
        ∷ bit_or (b2 * 64) b3 % 256
        ∷ [])
      rest
decode_group vs room rest = none

abbrev pub is_empty : List ℕ → Bool
is_empty [] = true
is_empty (c ∷ cs) = false

-- What is left of the output after a quad of `n` sextets.
unfoldable pub decode : List ℕ → ℕ → Option (List ℕ)
decode [] room = some []
decode (c0 ∷ c1 ∷ c2 ∷ c3 ∷ rest) room = do
  vs ← scan (c0 ∷ c1 ∷ c2 ∷ c3 ∷ []) (is_empty rest)
  decode_group vs room (decode rest (room - (length vs - 1)))
decode cs room = none

unfoldable pub decode_string : List ℕ → List ℕ
decode_string [] = []
decode_string (c ∷ cs) =
    let buffer : List ℕ = c ∷ cs in
    if length buffer % 4 == 0 then to_string (decode buffer (length buffer / 4 * 3)) else []
