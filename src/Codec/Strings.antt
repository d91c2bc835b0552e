-- ===== src/Codec/Strings.antt =====
-- The conversion of a codec's output to a string.
use brickred_server.Base.{ℕ, ◌^◌, ◌<◌, ◌≡◌, some, List, length, take_all, arith}
use brickred_server.Base.Int.{pos}
use brickred_server.Codec.{to_int, to_string}

to_int_small : (n : ℕ) → n < 2 ^ 31 → to_int n ≡ pos n
to_int_small n h = ground arith

-- An output whose length is an `int` becomes the string.
pub to_string-some : (out : List ℕ) → length out < 2 ^ 31 → to_string (some out) ≡ out
to_string-some out h = rw (to_int_small (length out) h) (take_all (length out) out (omega arith))
