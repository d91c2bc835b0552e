-- ===== src/DynamicBuffer/Endian.antt =====
-- Laws of the byte strings of integers.
use mathlib.Core.List.{reverse-reverse}
use native.Mathlib.Nat.{pow-suc}
use brickred_server.Base.{
  ℕ, zero, suc, ◌+◌, ◌/◌, ◌^◌, ◌<◌, ◌≡◌, refl, ap, ◌∙◌, Bool, true, false, none, some, List, [],
  ◌∷◌, length, take, drop, ltb, if◌then◌else◌, arith, All, All-reverse, length-reverse,
}
use brickred_server.DynamicBuffer.Invariant.{IsByte}
use brickred_server.DynamicBuffer.Queue.{
  Queue, in_order, encode_le, decode_le, encode, decode, peek, get,
}

encode_le-IsByte : (n v : ℕ) → All IsByte (encode_le n v)
encode_le-IsByte zero v = tt
encode_le-IsByte (suc n) v = (omega arith, encode_le-IsByte n (v / 256))

pub encode-IsByte : (n : ℕ) (le : Bool) (v : ℕ) → All IsByte (encode n le v)
encode-IsByte n true v = encode_le-IsByte n v
encode-IsByte n false v = All-reverse IsByte (encode_le n v) (encode_le-IsByte n v)

length-encode_le : (n v : ℕ) → length (encode_le n v) ≡ n
length-encode_le zero v = refl
length-encode_le (suc n) v = ap suc (length-encode_le n (v / 256))

pub length-encode : (n : ℕ) (le : Bool) (v : ℕ) → n ≡ length (encode n le v)
length-encode n true v = omega (arith, length-encode_le n v)
length-encode n false v = omega (arith, length-encode_le n v, length-reverse (encode_le n v))

decode_le-encode_le : (n v : ℕ) → v < 256 ^ n → decode_le (encode_le n v) ≡ v
decode_le-encode_le zero v h = omega arith
decode_le-encode_le (suc n) v h =
    omega (arith, decode_le-encode_le n (v / 256) (omega (arith, pow-suc 256 n)))

-- Reading in the order of writing gives the number back.
pub decode-encode : (n : ℕ) (le : Bool) (v : ℕ) → v < 256 ^ n → decode le (encode n le v) ≡ v
decode-encode n true v h = decode_le-encode_le n v h
decode-encode n false v h =
    ap decode_le (reverse-reverse (encode_le n v)) ∙ decode_le-encode_le n v h

pub encode_one : (le : Bool) (v : ℕ) → v < 256 → v ∷ [] ≡ encode 1 le v
encode_one true v h = ground arith
encode_one false v h = ground arith

in_order_one : (le : Bool) (xs : List ℕ) → in_order le (take 1 xs) ≡ take 1 xs
in_order_one true xs = refl
in_order_one false [] = refl
in_order_one false (x ∷ xs) = refl

-- One byte has no order.
pub peek_one : (offset : ℕ) (le : Bool) (q : Queue) → peek 1 offset le q ≡ peek 1 offset true q
peek_one offset le q =
    ap (λ ys. if ltb (length q) (offset + 1) then none else some (decode_le ys))
      (in_order_one le (drop offset q))

pub get_of_none : (n : ℕ) (le : Bool) (q : Queue) → none ≡ peek n 0 le q → get n q ≡ q
get_of_none n le q e = ground arith

pub get_of_some : (n x : ℕ) (le : Bool) (q : Queue) → some x ≡ peek n 0 le q → get n q ≡ drop n q
get_of_some n x le q e = ground arith
