-- ===== src/DynamicBuffer/Refine.antt =====
-- The methods of `DynamicBuffer`, called in any order, against the byte queue.
use brickred_server.Base.{
  ℕ, ◌+◌, ◌^◌, ◌≤◌, ◌<◌, ◌≡◌, refl, sym, ap, ap₂, ◌∙◌, Bool, Option, List, [], ◌∷◌, ◌++◌, length,
  arith, All, length-append, length-drop,
}
use brickred_server.DynamicBuffer.{Buffer, clear, read, reserve_writable_bytes}
use brickred_server.DynamicBuffer.Invariant.{IsByte, IsValid, Fits, reserve-IsValid}
use brickred_server.DynamicBuffer.Contents.{
  contents, length-contents, contents-reserve, room_after_reserve,
}
use brickred_server.DynamicBuffer.Integers.{
  peek_int8, peek_int16, peek_int32, peek_int64, read_int8, read_int16, read_int32, read_int64,
  write_int8, write_int16, write_int32, write_int64, read_bytes, write_bytes,
}
use brickred_server.DynamicBuffer.Words.{
  peek_int8_refines, peek_int16_refines, peek_int32_refines, peek_int64_refines, bytes16_lem,
  bytes32_lem, bytes64_lem,
}
use brickred_server.DynamicBuffer.Calls.{
  Holds, put_word-Holds, write_bytes-Holds, read-Holds, clear-Holds, read_bytes_lem,
  read_bytes-Holds, read_peeked-Holds,
}
use brickred_server.DynamicBuffer.Endian.{encode-IsByte, length-encode, encode_one, peek_one}
use brickred_server.DynamicBuffer.Queue
use brickred_server.DynamicBuffer.Queue.{
  Queue, Width, w8, w16, w32, w64, size, encode_le, decode_le, encode, decode, peek, get, Op,
  put_int, put_bytes, peek_int, get_int, get_bytes, skip, reserve, wipe, Reply, done, int, octets,
}

pub write_int : Buffer → Width → Bool → ℕ → Buffer
write_int b w8 le v = write_int8 b v
write_int b w16 le v = write_int16 b v le
write_int b w32 le v = write_int32 b v le
write_int b w64 le v = write_int64 b v le

pub peek_width : Buffer → Width → ℕ → Bool → Option ℕ
peek_width b w8 offset le = peek_int8 b offset
peek_width b w16 offset le = peek_int16 b offset le
peek_width b w32 offset le = peek_int32 b offset le
peek_width b w64 offset le = peek_int64 b offset le

pub read_int : Buffer → Width → Bool → Option ℕ × Buffer
read_int b w8 le = read_int8 b
read_int b w16 le = read_int16 b le
read_int b w32 le = read_int32 b le
read_int b w64 le = read_int64 b le

-- One call on a buffer, with what it returns.
pub exec : Buffer → Op → Reply × Buffer
exec b (put_int w le v) = (done, write_int b w le v)
exec b (put_bytes xs) = (done, write_bytes b xs)
exec b (peek_int w offset le) = (int (peek_width b w offset le), b)
exec b (get_int w le) = let (v, b') = read_int b w le in (int v, b')
exec b (get_bytes n) = let (xs, b') = read_bytes b n in (octets xs, b')
exec b (skip n) = (done, read b n)
exec b (reserve n) = (done, reserve_writable_bytes b n)
exec b wipe = (done, clear b)

pub run : Buffer → List Op → List Reply
run b [] = []
run b (op ∷ ops) = let (reply, b') = exec b op in reply ∷ run b' ops

-- The arguments are of the types that the methods take.
abbrev pub OpOk : Op → Type 0
OpOk (put_int w le v) = v < 256 ^ size w
OpOk (put_bytes xs) = All IsByte xs
OpOk (peek_int w offset le) = offset + 8 < 2 ^ 64
OpOk _ = Unit

-- The free bytes that a call may ask for.
abbrev pub demand : Op → ℕ
demand (put_int w le v) = size w
demand (put_bytes xs) = length xs
demand (reserve n) = n
demand _ = 0

abbrev pub total : List Op → ℕ
total [] = 0
total (op ∷ ops) = demand op + total ops

-- One call: the reply is the queue's, and the buffer then holds what the queue holds.
record Refines (b : Buffer) (op : Op) : Type 0 where
  reply : (exec b op).0 ≡ (Queue.step (contents b) op).0
  after : Holds (exec b op).1 (Queue.step (contents b) op).1 b.expand_size

write_int-Holds :
    {b : Buffer} (w : Width) (le : Bool) (x : ℕ)
    → IsValid b
    → Fits b (size w)
    → x < 256 ^ size w
    → Holds (write_int b w le x) (contents b ++ encode (size w) le x) b.expand_size
unfolding write_int write_int8 write_int16 write_int32 write_int64
write_int-Holds w8 le x v fits h =
    rw (← encode_one le x h) (put_word-Holds 1 (x ∷ []) v fits (h, tt) refl)
write_int-Holds w16 le x v fits h =
    rw (bytes16_lem x le)
      (put_word-Holds 2 (encode 2 le x) v fits (encode-IsByte 2 le x) (length-encode 2 le x))
write_int-Holds w32 le x v fits h =
    rw (bytes32_lem x le)
      (put_word-Holds 4 (encode 4 le x) v fits (encode-IsByte 4 le x) (length-encode 4 le x))
write_int-Holds w64 le x v fits h =
    rw (bytes64_lem x le)
      (put_word-Holds 8 (encode 8 le x) v fits (encode-IsByte 8 le x) (length-encode 8 le x))

peek_width_lem :
    {b : Buffer} (w : Width) (offset : ℕ) (le : Bool)
    → IsValid b
    → offset + 8 < 2 ^ 64
    → peek_width b w offset le ≡ peek (size w) offset le (contents b)
unfolding peek_width
peek_width_lem {b} w8 offset le v h =
    peek_int8_refines v offset (omega arith) ∙ sym (peek_one offset le (contents b))
peek_width_lem w16 offset le v h = peek_int16_refines v offset le (omega arith)
peek_width_lem w32 offset le v h = peek_int32_refines v offset le (omega arith)
peek_width_lem w64 offset le v h = peek_int64_refines v offset le (omega arith)

read_int-Holds :
    {b : Buffer} (w : Width) (le : Bool)
    → IsValid b
    → (int (read_int b w le).0 ≡ int (peek (size w) 0 le (contents b)))
      × Holds (read_int b w le).1 (get (size w) (contents b)) b.expand_size
unfolding read_int read_int8 read_int16 read_int32 read_int64 peek_width
read_int-Holds w8 le v = read_peeked-Holds 1 le _ v (peek_width_lem w8 0 le v (omega arith))
read_int-Holds w16 le v = read_peeked-Holds 2 le _ v (peek_width_lem w16 0 le v (omega arith))
read_int-Holds w32 le v = read_peeked-Holds 4 le _ v (peek_width_lem w32 0 le v (omega arith))
read_int-Holds w64 le v = read_peeked-Holds 8 le _ v (peek_width_lem w64 0 le v (omega arith))

exec-Refines : {b : Buffer} (op : Op) → IsValid b → Fits b (demand op) → OpOk op → Refines b op
unfolding exec Queue.step
exec-Refines (put_int w le x) v fits h = record {
  reply = refl;
  after = write_int-Holds w le x v fits h;
}
exec-Refines (put_bytes xs) v fits h = record {
  reply = refl;
  after = write_bytes-Holds xs v fits h;
}
exec-Refines (peek_int w offset le) v fits h = record {
  reply = ap int (peek_width_lem w offset le v h);
  after = record { valid = v; holds = refl; same_step = refl };
}
exec-Refines (get_int w le) v fits h =
    let (reply, after) = read_int-Holds w le v in record { reply = reply; after = after }
exec-Refines (get_bytes n) v fits h = record {
  reply = ap octets (read_bytes_lem n v);
  after = read_bytes-Holds n v;
}
exec-Refines (skip n) v fits h = record { reply = refl; after = read-Holds n v }
exec-Refines {b} (reserve n) v fits h = record {
  reply = refl;
  after = record {
    valid = reserve-IsValid n v fits;
    holds = contents-reserve n v fits;
    same_step = (room_after_reserve n v fits).2;
  };
}
exec-Refines wipe v fits h = record { reply = refl; after = clear-Holds v }

step-length : (q : Queue) (op : Op) → length (Queue.step q op).1 ≤ length q + demand op
unfolding Queue.step
step-length q (put_int w le x) =
    omega (arith, length-append q (encode (size w) le x), length-encode (size w) le x)
step-length q (put_bytes xs) = omega (arith, length-append q xs)
step-length q (peek_int w offset le) = omega arith
step-length q (get_int w le) = ground (arith, length-drop (size w) q)
step-length q (get_bytes n) = omega (arith, length-drop n q)
step-length q (skip n) = omega (arith, length-drop n q)
step-length q (reserve n) = omega arith
step-length q wipe = omega arith

-- No sequence of calls tells a valid buffer from the byte queue that it holds, if the offset of
-- each peek is below 2 ^ 64 - 8, each integer and byte is of its type, and the bytes held, those
-- that the calls ask for and the growth step are fewer than 2 ^ 63 together.
pub run_refines :
    (ops : List Op) {b : Buffer}
    → IsValid b
    → All OpOk ops
    → length (contents b) + total ops + b.expand_size < 2 ^ 63
    → run b ops ≡ Queue.run (contents b) ops
unfolding run Queue.run
run_refines [] v h room = refl
run_refines (op ∷ ops) {b} v h room =
    let now = exec-Refines op v (omega (arith, length-contents v)) h.0 in
    ap₂ ◌∷◌ now.reply (
      run_refines ops now.after.valid h.1
        (omega (arith, ap length now.after.holds, now.after.same_step, step-length (contents b) op))
      ∙ ap (λ (q : Queue). Queue.run q ops) now.after.holds)
