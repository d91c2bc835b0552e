-- ===== src/Timestamp.antt =====
-- src/brickred/timestamp.cc: a moment as seconds and nanoseconds. `time_t` and `int64_t` are
-- integers of 64 bits: an operation on them that may overflow goes through `to_int64`, which wraps
-- around where C++ leaves the result undefined. The others cannot overflow: a remainder by 1000
-- times 1000000, the nanoseconds behind their comparison, and differences of milliseconds. `setNow`, `now` and `format`, which ask the system, are not modelled.
pub mod Order
pub mod Distance
mod Tests
use brickred_server.Base.{ℕ, ◌/◌, Bool, ◌&&◌, ◌||◌, not, if◌then◌else◌}
use brickred_server.Base.Int.{
  ℤ, pos, pos_part, neg_part, ◌+ℤ◌, ◌-ℤ◌, ltb_ℤ, eqb_ℤ, scale, quot, rem, to_int64,
}

pub record Timestamp : Type 0 where
  pub second : ℤ
  pub nanosecond : ℤ

unfoldable pub init : Timestamp
init = record { second = pos 0; nanosecond = pos 0 }

unfoldable pub get_milli_second : Timestamp → ℤ
get_milli_second t = quot t.nanosecond 1000000

-- `operator+=`, behind the two additions.
abbrev pub carry : ℤ → ℤ → Timestamp
carry second nanosecond =
    if not (ltb_ℤ nanosecond (pos 1000000000))
    then record { second = to_int64 (second +ℤ pos 1); nanosecond = nanosecond -ℤ pos 1000000000 }
    else if ltb_ℤ nanosecond (pos 0)
    then record { second = to_int64 (second -ℤ pos 1); nanosecond = nanosecond +ℤ pos 1000000000 }
    else record { second = second; nanosecond = nanosecond }

unfoldable pub add : Timestamp → ℤ → Timestamp
add t millisecond =
    carry (to_int64 (t.second +ℤ quot millisecond 1000))
      (to_int64 (t.nanosecond +ℤ scale 1000000 (rem millisecond 1000)))

unfoldable pub less : Timestamp → Timestamp → Bool
less t other =
    if not (eqb_ℤ t.second other.second)
    then ltb_ℤ t.second other.second
    else ltb_ℤ t.nanosecond other.nanosecond

unfoldable pub millisecond_less : Timestamp → Timestamp → Bool
unfolding get_milli_second
millisecond_less t other =
    if not (eqb_ℤ t.second other.second)
    then ltb_ℤ t.second other.second
    else ltb_ℤ (get_milli_second t) (get_milli_second other)

unfoldable pub millisecond_equal : Timestamp → Timestamp → Bool
unfolding get_milli_second
millisecond_equal t other =
    eqb_ℤ t.second other.second && eqb_ℤ (get_milli_second t) (get_milli_second other)

unfoldable pub distance_second : Timestamp → Timestamp → ℤ
distance_second t other =
    if ltb_ℤ other.second t.second
    then to_int64 (t.second -ℤ other.second)
    else to_int64 (other.second -ℤ t.second)

abbrev pub gap_millisecond : Timestamp → Timestamp → ℤ
gap_millisecond bigger smaller = to_int64 (
    to_int64 (scale 1000 (to_int64 (bigger.second -ℤ smaller.second)))
    +ℤ (get_milli_second bigger -ℤ get_milli_second smaller))

unfoldable pub distance_millisecond : Timestamp → Timestamp → ℤ
unfolding less get_milli_second
distance_millisecond t other =
    if less t other then gap_millisecond other t else gap_millisecond t other
