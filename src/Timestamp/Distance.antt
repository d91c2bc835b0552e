-- ===== src/Timestamp/Distance.antt =====
-- Milliseconds in src/brickred/timestamp.cc.
use brickred_server.Base.{
  ◌+◌, ◌≤◌, ◌/◌, ◌≡◌, refl, true, false, arith, if◌then◌else◌, Bool-cases, inl, inr,
}
use brickred_server.Base.Int.{
  ℤ, pos_part, neg_part, ◌+ℤ◌, ◌-ℤ◌, ◌≤ℤ◌, ltb_ℤ, scale, quot, parts-+ℤ, parts--ℤ, equal_parts,
  scale_parts, one_part, to_int64, to_int64_same,
}
use brickred_server.Timestamp.{
  Timestamp, less, millisecond_less, get_milli_second, gap_millisecond, distance_millisecond,
}
use brickred_server.Timestamp.Order.{IsNormal, total_laws}

-- The milliseconds since the epoch, rounded down.
abbrev pub millis : Timestamp → ℤ
millis t = scale 1000 t.second +ℤ get_milli_second t

get_milli_second_lem :
    (t : Timestamp)
    → IsNormal t
    → (neg_part (get_milli_second t) ≡ 0)
      × (pos_part (get_milli_second t) ≡ pos_part t.nanosecond / 1000000)
unfolding get_milli_second quot
get_milli_second_lem t v = ground (arith, v.not_negative)

-- The seconds of two moments are 9 * 10 ^ 15 apart at most, which is 285 million years.
abbrev pub Near : Timestamp → Timestamp → Type 0
Near t u =
    (pos_part t.second + neg_part u.second
      ≤ pos_part u.second + neg_part t.second + 9000000000000000)
    × (pos_part u.second + neg_part t.second
        ≤ pos_part t.second + neg_part u.second + 9000000000000000)

-- Nothing overflows in the gap of near moments.
millis_gap :
    (t u : Timestamp)
    → IsNormal t
    → IsNormal u
    → Near t u
    → gap_millisecond t u ≡ millis t -ℤ millis u
millis_gap t u v w near =
    let gap : ℤ = t.second -ℤ u.second in
    let rest : ℤ = get_milli_second t -ℤ get_milli_second u in
    let whole : ℤ = scale 1000 gap +ℤ rest in
    let a = get_milli_second_lem t v in
    let b = get_milli_second_lem u w in
    let seconds = parts--ℤ t.second u.second in
    let end = one_part gap in
    let e1 : to_int64 gap ≡ gap = to_int64_same gap (omega (arith, seconds, end, near)) in
    let e2 : to_int64 (scale 1000 gap) ≡ scale 1000 gap =
      to_int64_same (scale 1000 gap)
        (omega (arith, seconds, end, near, scale_parts 1000 gap, one_part (scale 1000 gap))) in
    let e3 : to_int64 whole ≡ whole = to_int64_same whole (
      omega (
        total_laws,
        seconds,
        end,
        near,
        parts--ℤ (get_milli_second t) (get_milli_second u),
        a,
        b,
        v.below,
        w.below,
        one_part whole,
      )) in
    rw (e1, e2, e3) (equal_parts _ _ (omega total_laws))

pub less-millis :
    (t u : Timestamp) → IsNormal t → IsNormal u → less t u ≡ true → millis t ≤ℤ millis u
unfolding less
less-millis t u v w h =
    let a = get_milli_second_lem t v in
    let b = get_milli_second_lem u w in
    ground (
      arith,
      a,
      b,
      v.below,
      v.not_negative,
      w.below,
      w.not_negative,
      parts-+ℤ (scale 1000 t.second) (get_milli_second t),
      parts-+ℤ (scale 1000 u.second) (get_milli_second u),
      scale_parts 1000 t.second,
      scale_parts 1000 u.second,
    )

pub not_less-millis :
    (t u : Timestamp) → IsNormal t → IsNormal u → less t u ≡ false → millis u ≤ℤ millis t
unfolding less
not_less-millis t u v w h =
    let a = get_milli_second_lem t v in
    let b = get_milli_second_lem u w in
    ground (
      arith,
      a,
      b,
      v.below,
      v.not_negative,
      w.below,
      w.not_negative,
      parts-+ℤ (scale 1000 t.second) (get_milli_second t),
      parts-+ℤ (scale 1000 u.second) (get_milli_second u),
      scale_parts 1000 t.second,
      scale_parts 1000 u.second,
    )

-- For normal moments that are 9 * 10 ^ 15 seconds apart at most, distanceMillisecond is the
-- distance of the milliseconds since the epoch, in either order.
pub distance_millisecond_lem :
    (t other : Timestamp)
    → IsNormal t
    → IsNormal other
    → Near t other
    → distance_millisecond t other ≡ (
        if ltb_ℤ (millis t) (millis other)
        then millis other -ℤ millis t
        else millis t -ℤ millis other)
unfolding distance_millisecond
distance_millisecond_lem t u v w near = elim (Bool-cases (less t u)) [
  | inl before ↦
      let le = less-millis t u v w before in
      rw (before, millis_gap u t w v (near.1, near.0))
        (elim (Bool-cases (ltb_ℤ (millis t) (millis u))) [
          | inl lt ↦ rw lt refl
          | inr ge ↦
              let same : millis u ≤ℤ millis t = ground arith in
              rw ge (equal_parts _ _ (omega total_laws))
        ])
  | inr after ↦
      let ge = not_less-millis t u v w after in
      let no : ltb_ℤ (millis t) (millis u) ≡ false = ground arith in
      rw (after, millis_gap t u v w near, no) refl
]

-- `millisecondLess` compares the milliseconds since the epoch.
pub millisecond_less_lem :
    (t other : Timestamp)
    → IsNormal t
    → IsNormal other
    → millisecond_less t other ≡ ltb_ℤ (millis t) (millis other)
unfolding millisecond_less
millisecond_less_lem t u v w =
    let a = get_milli_second_lem t v in
    let b = get_milli_second_lem u w in
    ground (
      arith,
      a,
      b,
      v.below,
      v.not_negative,
      w.below,
      w.not_negative,
      parts-+ℤ (scale 1000 t.second) (get_milli_second t),
      parts-+ℤ (scale 1000 u.second) (get_milli_second u),
      scale_parts 1000 t.second,
      scale_parts 1000 u.second,
    )
