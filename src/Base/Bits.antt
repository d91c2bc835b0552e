-- ===== src/Base/Bits.antt =====
-- Bit operations as arithmetic: masks, shifts and disjoint joins.
use Prim.Native.Nat.{
  ℕ, zero, suc, ◌+◌, ◌*◌, ◌/◌, ◌%◌, ◌^◌, ◌≤◌, ◌<◌, max, min, bit_or, bit_and, bit_xor,
  bit_xor-bitwise, differ, digits, bitwise, bit_or-bitwise, bit_and-bitwise,
}
use mathlib.Core.Path.{◌≡◌, refl, ap, sym, ◌∙◌}
use mathlib.Core.Bool.{Bool, true, ◌&&◌}
use native.Mathlib.Nat.{pow-suc}
use native.Mathlib.Omega.{arith}

-- A test that every number below a bound passes.
unfoldable pub all_below : ℕ → (ℕ → Bool) → Bool
all_below zero test = true
all_below (suc bound) test = all_below bound test && test bound

pub all_below_sound :
    (bound : ℕ) (test : ℕ → Bool) (c : ℕ) → all_below bound test ≡ true → c < bound → test c ≡ true
unfolding all_below
all_below_sound zero test c passed small = absurd (omega arith)
all_below_sound (suc bound) test c passed small = ground (arith, all_below_sound bound test c)

-- The recursion on digits that the native operations stand for, at any count that is enough.
module _ (z : ℕ → ℕ) (f : ℕ → ℕ → ℕ) where
  digits_end : (count b : ℕ) → digits z f count 0 b ≡ z b
  digits_end zero b = refl
  digits_end (suc count) b = refl

  digits_enough :
      (a count more b : ℕ) → a ≤ count → a ≤ more → digits z f count a b ≡ digits z f more a b
  digits_enough zero count more b h k = digits_end count b ∙ sym (digits_end more b)
  digits_enough (suc a) zero more b h k = absurd (omega arith)
  digits_enough (suc a) (suc count) zero b h k = absurd (omega arith)
  digits_enough (suc a) (suc count) (suc more) b h k =
      ap (λ (t : ℕ). t * 2 + f (suc a % 2) (b % 2))
        (digits_enough (suc a / 2) count more (b / 2) (omega arith) (omega arith))

  lowest_digit :
      (a b : ℕ)
      → bitwise z f (suc a) b ≡ bitwise z f (suc a / 2) (b / 2) * 2 + f (suc a % 2) (b % 2)
  lowest_digit a b =
      ap (λ (t : ℕ). t * 2 + f (suc a % 2) (b % 2))
        (digits_enough (suc a / 2) a (suc a / 2) (b / 2) (omega arith) (omega arith))

pub bit_or_step : (a b : ℕ) → bit_or a b ≡ bit_or (a / 2) (b / 2) * 2 + max (a % 2) (b % 2)
bit_or_step zero b = omega (arith, bit_or-bitwise 0 b, bit_or-bitwise 0 (b / 2))
bit_or_step (suc a) b = omega (
  arith,
  lowest_digit (λ c. c) max a b,
  bit_or-bitwise (suc a / 2) (b / 2),
  bit_or-bitwise (suc a) b,
)

pub bit_and_step : (a b : ℕ) → bit_and a b ≡ bit_and (a / 2) (b / 2) * 2 + min (a % 2) (b % 2)
bit_and_step zero b = omega (arith, bit_and-bitwise 0 b, bit_and-bitwise 0 (b / 2))
bit_and_step (suc a) b = omega (
  arith,
  lowest_digit (λ c. zero) min a b,
  bit_and-bitwise (suc a / 2) (b / 2),
  bit_and-bitwise (suc a) b,
)

pub bit_xor_step : (a b : ℕ) → bit_xor a b ≡ bit_xor (a / 2) (b / 2) * 2 + differ (a % 2) (b % 2)
bit_xor_step zero b = omega (arith, bit_xor-bitwise 0 b, bit_xor-bitwise 0 (b / 2))
bit_xor_step (suc a) b = omega (
  arith,
  lowest_digit (λ c. c) differ a b,
  bit_xor-bitwise (suc a / 2) (b / 2),
  bit_xor-bitwise (suc a) b,
)

or_none : (count a : ℕ) → a ≤ count → digits (λ c. c) max count a 0 ≡ a
or_none count zero h = digits_end (λ c. c) max count 0
or_none zero (suc a) h = absurd (omega arith)
or_none (suc count) (suc a) h = omega (arith, or_none count (suc a / 2) (omega arith))

and_none : (count a : ℕ) → digits (λ c. zero) min count a 0 ≡ 0
and_none count zero = digits_end (λ c. zero) min count 0
and_none zero (suc a) = refl
and_none (suc count) (suc a) = omega (arith, and_none count (suc a / 2))

pub bit_or-zero : (a : ℕ) → bit_or a 0 ≡ a
bit_or-zero a = omega (arith, bit_or-bitwise a 0, or_none a a (omega arith))

pub bit_and-zero : (a : ℕ) → bit_and a 0 ≡ 0
bit_and-zero a = omega (arith, bit_and-bitwise a 0, and_none a a)

-- A number below `2 ^ k` and a multiple of `2 ^ k` are joined by `|` as by `+`.
pub bit_or_disjoint : (k a b c : ℕ) → a < 2 ^ k → c ≡ b * 2 ^ k → bit_or a c ≡ a + c
bit_or_disjoint zero a b c h e =
    let none_left : a ≡ 0 = omega arith in rw none_left (omega (arith, bit_or-bitwise 0 c))
bit_or_disjoint (suc k) a b c h e =
    let half : c / 2 ≡ b * 2 ^ k = omega (arith, ap (λ (t : ℕ). b * t) (pow-suc 2 k)) in
    omega (
      arith,
      ap (λ (t : ℕ). b * t) (pow-suc 2 k),
      bit_or_step a c,
      bit_or_disjoint k (a / 2) b (c / 2) (omega (arith, pow-suc 2 k)) half,
    )

-- The same join with the multiple on the left.
pub bit_or_disjoint_left : (k a b c : ℕ) → a < 2 ^ k → c ≡ b * 2 ^ k → bit_or c a ≡ c + a
bit_or_disjoint_left zero a b c h e =
    let none_left : a ≡ 0 = omega arith in rw none_left (omega (arith, bit_or-zero c))
bit_or_disjoint_left (suc k) a b c h e =
    let half : c / 2 ≡ b * 2 ^ k = omega (arith, ap (λ (t : ℕ). b * t) (pow-suc 2 k)) in
    omega (
      arith,
      ap (λ (t : ℕ). b * t) (pow-suc 2 k),
      bit_or_step c a,
      bit_or_disjoint_left k (a / 2) b (c / 2) (omega (arith, pow-suc 2 k)) half,
    )

-- Masking with `2 ^ k - 1` keeps the remainder, one digit at a time.
pub bit_and_one : (a : ℕ) → bit_and a 1 ≡ a % 2
bit_and_one a = omega (arith, bit_and_step a 1, bit_and-zero (a / 2))

pub bit_and_three : (a : ℕ) → bit_and a 3 ≡ a % 4
bit_and_three a = omega (arith, bit_and_step a 3, bit_and_one (a / 2))

pub bit_and_seven : (a : ℕ) → bit_and a 7 ≡ a % 8
bit_and_seven a = omega (arith, bit_and_step a 7, bit_and_three (a / 2))

pub bit_and_fifteen : (a : ℕ) → bit_and a 15 ≡ a % 16
bit_and_fifteen a = omega (arith, bit_and_step a 15, bit_and_seven (a / 2))

pub bit_and_31 : (a : ℕ) → bit_and a 31 ≡ a % 32
bit_and_31 a = omega (arith, bit_and_step a 31, bit_and_fifteen (a / 2))

pub bit_and_63 : (a : ℕ) → bit_and a 63 ≡ a % 64
bit_and_63 a = omega (arith, bit_and_step a 63, bit_and_31 (a / 2))

pub bit_and_127 : (a : ℕ) → bit_and a 127 ≡ a % 128
bit_and_127 a = omega (arith, bit_and_step a 127, bit_and_63 (a / 2))
