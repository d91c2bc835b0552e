-- ===== src/Timestamp/Order.antt =====
-- Moments of src/brickred/timestamp.cc as numbers of nanoseconds.
use brickred_server.Base.{
  ℕ, ◌+◌, ◌-◌, ◌*◌, ◌/◌, ◌%◌, ◌≤◌, ◌<◌, ◌≡◌, refl, ap, ◌∙◌, Bool, true, false, not, arith,
  if◌then◌else◌, ltb, Bool-cases, inl, inr,
}
use brickred_server.Base.Int.{
  ℤ, pos, negsuc, pos_part, neg_part, sub_ℕ, ◌+ℤ◌, ◌-ℤ◌, ◌<ℤ◌, ◌≤ℤ◌, ltb_ℤ, eqb_ℤ, scale, quot, rem,
  parts-+ℤ, parts--ℤ, equal_parts, scale_parts, one_part, to_int64, to_int64_same, to_int64-IsInt64,
  IsInt64,
}
use brickred_server.Timestamp.{Timestamp, carry, add, less}

-- The seconds are an `int64_t`, and the nanoseconds those of one second.
pub record IsNormal (t : Timestamp) : Type 0 where
  pub not_negative : neg_part t.nanosecond ≡ 0
  pub below : pos_part t.nanosecond < 1000000000
  pub in_range : IsInt64 t.second

-- The seconds, before and after the whole seconds of so many milliseconds are added, are strictly
-- between the ends of `int64_t`.
abbrev pub Fits : Timestamp → ℤ → Type 0
Fits t millisecond =
    (pos_part t.second + pos_part millisecond / 1000 < 9223372036854775807)
    × (neg_part t.second + neg_part millisecond / 1000 < 9223372036854775808)

-- The nanoseconds since the epoch.
abbrev pub nanos : Timestamp → ℤ
nanos t = scale 1000000000 t.second +ℤ t.nanosecond

quot-rem :
    (m : ℤ)
    → (pos_part m + (1000 * neg_part (quot m 1000) + neg_part (rem m 1000))
        ≡ neg_part m + (1000 * pos_part (quot m 1000) + pos_part (rem m 1000)))
      × ((pos_part (rem m 1000) < 1000) × (neg_part (rem m 1000) < 1000))
unfolding quot rem
quot-rem (pos n) = ground arith
quot-rem (negsuc n) = ground arith

pub ruleset total_laws = (arith, parts-+ℤ, parts--ℤ, scale_parts)

pub carry-IsNormal :
    (s n : ℤ) → IsInt64 s → n <ℤ pos 2000000000 → negsuc 999999999 ≤ℤ n → IsNormal (carry s n)
carry-IsNormal s n r h k = elim (Bool-cases (ltb_ℤ n (pos 1000000000))) [
  | inl small ↦ elim (Bool-cases (ltb_ℤ n (pos 0))) [
    | inl negative ↦
        let few : n <ℤ pos 0 = ground arith in
        let sum = parts-+ℤ n (pos 1000000000) in
        let part = one_part (n +ℤ pos 1000000000) in
        rw (small, negative)
          (record {
            not_negative = omega (arith, sum, part);
            below = omega (arith, sum, part);
            in_range = to_int64-IsInt64 (s -ℤ pos 1);
          })
    | inr rest ↦
        let some : pos 0 ≤ℤ n = ground arith in
        let few : n <ℤ pos 1000000000 = ground arith in
        rw (small, rest)
          (record {
            not_negative = omega (arith, one_part n);
            below = omega (arith, one_part n);
            in_range = r;
          })
  ]
  | inr large ↦
      let many : pos 1000000000 ≤ℤ n = ground arith in
      let gap = parts--ℤ n (pos 1000000000) in
      let part = one_part (n -ℤ pos 1000000000) in
      rw large (record {
        not_negative = omega (arith, gap, part);
        below = omega (arith, gap, part);
        in_range = to_int64-IsInt64 (s +ℤ pos 1);
      })
]

pub nanos-carry :
    (s n : ℤ)
    → pos_part s < 9223372036854775807
    → neg_part s < 9223372036854775808
    → nanos (carry s n) ≡ scale 1000000000 s +ℤ n
nanos-carry s n h k = elim (Bool-cases (ltb_ℤ n (pos 1000000000))) [
  | inl small ↦ elim (Bool-cases (ltb_ℤ n (pos 0))) [
    | inl negative ↦
        let exact : to_int64 (s -ℤ pos 1) ≡ s -ℤ pos 1 =
          to_int64_same (s -ℤ pos 1)
            (omega (arith, parts--ℤ s (pos 1), one_part (s -ℤ pos 1), one_part s)) in
        rw (small, negative) (rw exact (equal_parts _ _ (omega total_laws)))
    | inr rest ↦ rw (small, rest) refl
  ]
  | inr large ↦
      let exact : to_int64 (s +ℤ pos 1) ≡ s +ℤ pos 1 =
        to_int64_same (s +ℤ pos 1)
          (omega (arith, parts-+ℤ s (pos 1), one_part (s +ℤ pos 1), one_part s)) in
      rw large (rw exact (equal_parts _ _ (omega total_laws)))
]

-- The nanoseconds of `+=` cannot overflow.
added_exact :
    (t : Timestamp) (m : ℤ)
    → IsNormal t
    → to_int64 (t.nanosecond +ℤ scale 1000000 (rem m 1000))
      ≡ t.nanosecond +ℤ scale 1000000 (rem m 1000)
added_exact t m v =
    let parts = quot-rem m in
    let sum = t.nanosecond +ℤ scale 1000000 (rem m 1000) in
    to_int64_same sum (omega (total_laws, parts, v.below, v.not_negative, one_part sum))

-- `+=` of milliseconds, of either sign, keeps moments normal.
pub add-IsNormal : (t : Timestamp) (millisecond : ℤ) → IsNormal t → IsNormal (add t millisecond)
unfolding add
add-IsNormal t m v =
    let parts = quot-rem m in
    rw (added_exact t m v) (
      carry-IsNormal (to_int64 (t.second +ℤ quot m 1000))
        (t.nanosecond +ℤ scale 1000000 (rem m 1000)) (to_int64-IsInt64 (t.second +ℤ quot m 1000))
        (omega (total_laws, parts, v.below, v.not_negative))
        (omega (total_laws, parts, v.below, v.not_negative)))

quot_parts :
    (m : ℤ)
    → (pos_part (quot m 1000) ≡ pos_part m / 1000) × (neg_part (quot m 1000) ≡ neg_part m / 1000)
unfolding quot
quot_parts (pos n) = ground arith
quot_parts (negsuc n) = ground arith

-- When the seconds, before and after the whole seconds of the milliseconds are added, are strictly
-- between the ends of int64_t, adding milliseconds of either sign to a normal moment keeps the
-- nanoseconds within one second and moves the moment by just that many.
pub add_lem :
    (t : Timestamp) (millisecond : ℤ)
    → IsNormal t
    → Fits t millisecond
    → IsNormal (add t millisecond)
      × (nanos (add t millisecond) ≡ nanos t +ℤ scale 1000000 millisecond)
unfolding add
add_lem t m v fits =
    let parts = quot-rem m in
    let sum : ℤ = t.second +ℤ quot m 1000 in
    let added : ℤ = t.nanosecond +ℤ scale 1000000 (rem m 1000) in
    let whole = parts-+ℤ t.second (quot m 1000) in
    let cut = quot_parts m in
    let end = one_part sum in
    let exact : to_int64 sum ≡ sum = to_int64_same sum (omega (arith, whole, cut, end, fits)) in
    let moved : nanos (carry sum added) ≡ scale 1000000000 sum +ℤ added =
      nanos-carry sum added (omega (arith, whole, cut, end, fits))
        (omega (arith, whole, cut, end, fits)) in
    (
      add-IsNormal t m v,
      rw (exact, added_exact t m v) (moved ∙ equal_parts _ _ (omega (total_laws, parts))),
    )

-- Nothing added.
pub add_zero : (t : Timestamp) → IsNormal t → add t (pos 0) ≡ t
unfolding add quot rem
add_zero t v =
    let s : t.second +ℤ pos 0 ≡ t.second = equal_parts _ _ (omega total_laws) in
    let n : t.nanosecond +ℤ scale 1000000 (pos 0) ≡ t.nanosecond =
      equal_parts _ _ (omega total_laws) in
    let small : ltb_ℤ t.nanosecond (pos 1000000000) ≡ true =
      ground (arith, v.below, v.not_negative) in
    let rest : ltb_ℤ t.nanosecond (pos 0) ≡ false = ground (arith, v.below, v.not_negative) in
    let e : to_int64 t.second ≡ t.second = to_int64_same t.second v.in_range in
    let e' : to_int64 t.nanosecond ≡ t.nanosecond =
      to_int64_same t.nanosecond (omega (arith, v.below, v.not_negative)) in
    rw (s, n) (rw (e, e') (rw (small, rest) refl))

-- The order of normal moments is that of their nanoseconds.
pub less_lem :
    (t other : Timestamp)
    → IsNormal t
    → IsNormal other
    → less t other ≡ ltb_ℤ (nanos t) (nanos other)
unfolding less
less_lem t u v w = ground (
  arith,
  v.below,
  w.below,
  v.not_negative,
  w.not_negative,
  parts-+ℤ (scale 1000000000 t.second) t.nanosecond,
  parts-+ℤ (scale 1000000000 u.second) u.nanosecond,
  scale_parts 1000000000 t.second,
  scale_parts 1000000000 u.second,
)
