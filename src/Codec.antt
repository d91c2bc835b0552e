-- ===== src/Codec.antt =====
-- src/brickred/codec: what the text codecs share. The `int` that a codec returns is the number of
-- bytes written, or -1.
pub mod Strings
pub mod Base64
pub mod Url
use brickred_server.Base.{
  ℕ, ◌-◌, ◌%◌, ◌^◌, Option, none, some, List, [], ◌++◌, length, take, ltb, if◌then◌else◌, ◌>>=◌,
}
use brickred_server.Base.Int.{ℤ, pos, negsuc}

-- The conversion of `out - out_start` to a 32-bit `int`.
abbrev pub to_int : ℕ → ℤ
to_int n = let w = n % 2 ^ 32 in if ltb w (2 ^ 31) then pos w else negsuc (2 ^ 32 - w - 1)

-- `std::string(output, count)` if `count > 0`, and the empty string if not.
abbrev pub take_count : ℤ → List ℕ → List ℕ
take_count (pos n) out = take n out
take_count (negsuc n) out = []

abbrev pub to_string : Option (List ℕ) → List ℕ
to_string none = []
to_string (some out) = take_count (to_int (length out)) out

-- The overflow check, the writes of one round and what the later rounds write.
unfoldable pub emit : ℕ → ℕ → List ℕ → Option (List ℕ) → Option (List ℕ)
emit room need group rest = if ltb room need then none else (rest >>= λ out. some (group ++ out))
