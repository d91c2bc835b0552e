-- ===== src/Base/Xor.antt =====
-- Exclusive or, digit by digit: doing it twice undoes it.
use Prim.Native.Nat.{ℕ, zero, suc, ◌+◌, ◌/◌, ◌%◌, ◌^◌, ◌≤◌, ◌<◌, bit_xor, differ}
use mathlib.Core.Path.{◌≡◌, refl, ◌∙◌}
use native.Mathlib.Nat.{pow-suc}
use native.Mathlib.Omega.{arith}
use brickred_server.Base.Bits.{bit_xor_step}

differ_digits : (a b : ℕ) → a < 2 → b < 2 → (differ (differ a b) b ≡ a) × (differ a b < 2)
differ_digits zero zero h k = (refl, omega arith)
differ_digits zero (suc zero) h k = (refl, omega arith)
differ_digits zero (suc (suc b)) h k = absurd (omega arith)
differ_digits (suc zero) zero h k = (refl, omega arith)
differ_digits (suc zero) (suc zero) h k = (refl, omega arith)
differ_digits (suc zero) (suc (suc b)) h k = absurd (omega arith)
differ_digits (suc (suc a)) b h k = absurd (omega arith)

cancel : (n x k : ℕ) → x ≤ n → k ≤ n → bit_xor (bit_xor x k) k ≡ x
cancel zero x k h j =
    let none_left : x ≡ 0 = omega arith in
    let no_key : k ≡ 0 = omega arith in rw (none_left, no_key) refl
cancel (suc n) x k h j =
    let digit = differ_digits (x % 2) (k % 2) (omega arith) (omega arith) in
    let step = bit_xor_step x k in
    let above : bit_xor x k / 2 ≡ bit_xor (x / 2) (k / 2) = omega (arith, digit, step) in
    let lowest : bit_xor x k % 2 ≡ differ (x % 2) (k % 2) = omega (arith, digit, step) in
    bit_xor_step (bit_xor x k) k
    ∙ rw (above, lowest, cancel n (x / 2) (k / 2) (omega arith) (omega arith), digit.0)
        (omega arith)

pub bit_xor_cancel : (x k : ℕ) → bit_xor (bit_xor x k) k ≡ x
bit_xor_cancel x k = cancel (x + k) x k (omega arith) (omega arith)

pub bit_xor_below : (n x k : ℕ) → x < 2 ^ n → k < 2 ^ n → bit_xor x k < 2 ^ n
bit_xor_below zero x k h j =
    let none_left : x ≡ 0 = omega arith in
    let no_key : k ≡ 0 = omega arith in rw (none_left, no_key) (omega arith)
bit_xor_below (suc n) x k h j =
    let digit = differ_digits (x % 2) (k % 2) (omega arith) (omega arith) in
    let below =
      bit_xor_below n (x / 2) (k / 2) (omega (arith, pow-suc 2 n)) (omega (arith, pow-suc 2 n)) in
    omega (arith, digit, bit_xor_step x k, below, pow-suc 2 n)
