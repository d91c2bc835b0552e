-- ===== src/Timestamp/Tests.antt =====
-- Moments of timestamp.cc at concrete inputs.
use brickred_server.Base.{◌≡◌, refl, arith, if◌then◌else◌, true}
use brickred_server.Base.Int.{pos, negsuc, ◌+ℤ◌, ◌-ℤ◌, scale, ltb_ℤ, quot, rem, to_int64}
use brickred_server.Timestamp.{
  Timestamp, init, add, less, millisecond_less, millisecond_equal, distance_second,
  distance_millisecond,
}
use brickred_server.Timestamp.Order.{IsNormal, nanos, add_lem, less_lem}
use brickred_server.Timestamp.Distance.{millis, distance_millisecond_lem, millisecond_less_lem}

abbrev early : Timestamp
early = record { second = pos 3; nanosecond = pos 200000000 }

abbrev late : Timestamp
late = record { second = pos 4; nanosecond = pos 100999999 }

early-IsNormal : IsNormal early
early-IsNormal = record { not_negative = refl; below = omega arith; in_range = omega arith }

late-IsNormal : IsNormal late
late-IsNormal = record { not_negative = refl; below = omega arith; in_range = omega arith }

add_borrows : add early (negsuc 299) ≡ record { second = pos 2; nanosecond = pos 900000000 }
unfolding add quot rem scale ◌+ℤ◌ ◌-ℤ◌ to_int64
add_borrows = refl

distance_second_either_way : distance_second init late ≡ distance_second late init
unfolding distance_second ◌-ℤ◌ init to_int64
distance_second_either_way = refl

same_millisecond : millisecond_equal late (record late { nanosecond = pos 100000000 }) ≡ true
unfolding millisecond_equal quot
same_millisecond = refl

add_lem_example :
    IsNormal (add early (negsuc 299))
    × (nanos (add early (negsuc 299)) ≡ nanos early +ℤ scale 1000000 (negsuc 299))
add_lem_example = add_lem early (negsuc 299) early-IsNormal (omega arith)

less_lem_example : less early late ≡ ltb_ℤ (nanos early) (nanos late)
less_lem_example = less_lem early late early-IsNormal late-IsNormal

millisecond_less_lem_example : millisecond_less early late ≡ ltb_ℤ (millis early) (millis late)
millisecond_less_lem_example = millisecond_less_lem early late early-IsNormal late-IsNormal

distance_millisecond_lem_example : distance_millisecond early late ≡ (
    if ltb_ℤ (millis early) (millis late)
    then millis late -ℤ millis early
    else millis early -ℤ millis late)
distance_millisecond_lem_example =
    distance_millisecond_lem early late early-IsNormal late-IsNormal (omega arith)

-- The last second of a time_t is followed by the first one.
add_wraps :
    add (record { second = pos 9223372036854775807; nanosecond = pos 0 }) (pos 1000)
    ≡ record { second = negsuc 9223372036854775807; nanosecond = pos 0 }
unfolding add quot rem scale ◌+ℤ◌ ◌-ℤ◌ to_int64
add_wraps = refl
