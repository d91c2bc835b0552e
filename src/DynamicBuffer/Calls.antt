-- ===== src/DynamicBuffer/Calls.antt =====
-- What a buffer holds after each method of `DynamicBuffer`.
use brickred_server.Base.{
  ℕ, zero, suc, ◌+◌, ◌≤◌, min, ◌≡◌, refl, sym, ap, subst, ◌∙◌, Bool, Option, none, some, List, [],
  ◌∷◌, ◌++◌, length, take, drop, arith, All,
}
use brickred_server.DynamicBuffer.{
  Buffer, clear, read, write, store, readable_bytes, writable_bytes, reserve_writable_bytes,
}
use brickred_server.DynamicBuffer.Invariant.{
  IsByte, IsValid, Fits, read-IsValid, write-IsValid, store-IsValid, reserve-IsValid,
  readable_bytes_lem,
}
use brickred_server.DynamicBuffer.Contents.{
  contents, length-contents, readable-eq-contents, contents-reserve, room_after_reserve,
  contents-read, contents-store-write, writable_bytes-store,
}
use brickred_server.DynamicBuffer.Integers.{read_peeked, put_word, read_bytes, write_bytes}
use brickred_server.DynamicBuffer.Words.{}
use brickred_server.DynamicBuffer.Endian.{get_of_none, get_of_some}
use brickred_server.DynamicBuffer.Queue.{Queue, peek, get, int}

-- `b'` is a buffer that holds `q`.
pub record Holds (b' : Buffer) (q : Queue) (step : ℕ) : Type 0 where
  pub valid : IsValid b'
  pub holds : contents b' ≡ q
  pub same_step : b'.expand_size ≡ step

store-write-Holds :
    {b : Buffer} (n : ℕ) (xs : List ℕ)
    → IsValid b
    → All IsByte xs
    → n ≡ length xs
    → b.write_index + n ≤ length b.bytes
    → Holds (write (store b xs) n) (contents b ++ xs) b.expand_size
unfolding write store
store-write-Holds n xs v h e room = record {
  valid = write-IsValid n (store-IsValid xs h v);
  holds = contents-store-write n xs v e room;
  same_step = refl;
}

pub put_word-Holds :
    {b : Buffer} (n : ℕ) (xs : List ℕ)
    → IsValid b
    → Fits b n
    → All IsByte xs
    → n ≡ length xs
    → Holds (put_word b n xs) (contents b ++ xs) b.expand_size
unfolding put_word
put_word-Holds {b} n xs v fits h e =
    let (room, _, same) = room_after_reserve n v fits in
    let filled = store-write-Holds n xs (reserve-IsValid n v fits) h e room in
    record {
      valid = filled.valid;
      holds = filled.holds ∙ ap (λ (q : Queue). q ++ xs) (contents-reserve n v fits);
      same_step = filled.same_step ∙ same;
    }

-- In the room that was reserved `write_index_ += count` is `write(count)`.
write_bytes-eq-put_word :
    {b : Buffer} (xs : List ℕ)
    → IsValid b
    → Fits b (length xs)
    → put_word b (length xs) xs ≡ write_bytes b xs
unfolding put_word write_bytes write
write_bytes-eq-put_word {b} xs v fits =
    let b' : Buffer = reserve_writable_bytes b (length xs) in
    let (room, _, same) = room_after_reserve (length xs) v fits in
    let whole : min (length xs) (writable_bytes (store b' xs)) ≡ length xs =
      omega (arith, writable_bytes-store xs (reserve-IsValid (length xs) v fits)) in
    rw whole refl

pub write_bytes-Holds :
    {b : Buffer} (xs : List ℕ)
    → IsValid b
    → Fits b (length xs)
    → All IsByte xs
    → Holds (write_bytes b xs) (contents b ++ xs) b.expand_size
write_bytes-Holds {b} xs v fits h =
    subst (λ b'. Holds b' (contents b ++ xs) b.expand_size) (write_bytes-eq-put_word xs v fits)
      (put_word-Holds (length xs) xs v fits h refl)

expand_size-read : (b : Buffer) (n : ℕ) → (read b n).expand_size ≡ b.expand_size
unfolding read clear
expand_size-read b n = ground arith

pub read-Holds :
    {b : Buffer} (n : ℕ) → IsValid b → Holds (read b n) (drop n (contents b)) b.expand_size
read-Holds {b} n v = record {
  valid = read-IsValid n v;
  holds = contents-read n v;
  same_step = expand_size-read b n;
}

pub clear-Holds : {b : Buffer} → IsValid b → Holds (clear b) [] b.expand_size
unfolding clear
clear-Holds v = record { valid = ground arith; holds = refl; same_step = refl }

take-min : (n : ℕ) (q : Queue) → take (min n (length q)) q ≡ take n q
take-min zero q = let none_left : min zero (length q) ≡ 0 = omega arith in rw none_left refl
take-min (suc n) [] = let none_left : min (suc n) 0 ≡ 0 = omega arith in rw none_left refl
take-min (suc n) (x ∷ q) =
    let less : min (suc n) (suc (length q)) ≡ suc (min n (length q)) = omega arith in
    rw less (ap (◌∷◌ x) (take-min n q))

pub read_bytes_lem : {b : Buffer} (n : ℕ) → IsValid b → (read_bytes b n).0 ≡ take n (contents b)
unfolding read_bytes
read_bytes_lem {b} n v = rw (readable-eq-contents v) (
    let whole : min n (readable_bytes b) ≡ min n (length (contents b)) =
      omega (arith, readable_bytes_lem v, length-contents v) in
    rw whole (take-min n (contents b)))

pub read_bytes-Holds :
    {b : Buffer} (n : ℕ) → IsValid b → Holds (read_bytes b n).1 (drop n (contents b)) b.expand_size
unfolding read_bytes read
read_bytes-Holds n v = read-Holds n v

-- A typed read takes its bytes only if the peek succeeds.
pub read_peeked-Holds :
    {b : Buffer} (n : ℕ) (le : Bool) (p : Option ℕ)
    → IsValid b
    → p ≡ peek n 0 le (contents b)
    → (int (read_peeked b n p).0 ≡ int (peek n 0 le (contents b)))
      × Holds (read_peeked b n p).1 (get n (contents b)) b.expand_size
unfolding read_peeked
read_peeked-Holds {b} n le none v e = (
  ap int e,
  record { valid = v; holds = sym (get_of_none n le (contents b) e); same_step = refl },
)
read_peeked-Holds {b} n le (some x) v e =
    let dropped = read-Holds n v in
    (
      ap int e,
      record {
        valid = dropped.valid;
        holds = dropped.holds ∙ sym (get_of_some n x le (contents b) e);
        same_step = dropped.same_step;
      },
    )
