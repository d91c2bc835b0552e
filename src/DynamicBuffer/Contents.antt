-- ===== src/DynamicBuffer/Contents.antt =====
-- What each method of `DynamicBuffer` does to the bytes that are still to be read.
use brickred_server.Base.{
  ℕ, ◌+◌, ◌-◌, ◌≤◌, ◌<◌, min, ◌≡◌, refl, sym, ap, ◌∙◌, List, [], ◌++◌, ◌==◌, Bool-cases, inl, inr,
  length, take, drop, replicate, overlay, slice, arith, length-overlay, length-replicate,
  length-take, slice-overlay, drop-drop, drop-take, drop_all,
}
use native.Mathlib.Decide.{dec_le}
use brickred_server.DynamicBuffer.{
  Buffer, size_add, clear, clear_if_drained, read, write, store, readable, readable_bytes,
  writable_bytes, discardable_bytes, compact, expand, expanded_size, reserve_writable_bytes,
}
use brickred_server.DynamicBuffer.Invariant.{
  IsValid, Fits, readable_bytes_lem, writable_bytes_lem, length-readable, expanded_size_lem,
  free_bytes_lem,
}

-- The bytes between the two positions.
abbrev pub contents : Buffer → List ℕ
contents b = slice b.bytes b.read_index b.write_index

pub readable-eq-contents : {b : Buffer} → IsValid b → readable b ≡ contents b
unfolding readable
readable-eq-contents {b} v =
    ap (λ (n : ℕ). take n (drop b.read_index b.bytes)) (readable_bytes_lem v)

pub length-contents : {b : Buffer} → IsValid b → length (contents b) ≡ b.write_index - b.read_index
length-contents {b} v = ap length (sym (readable-eq-contents v)) ∙ length-readable v

-- The head of a storage that has just been filled from its start.
slice-overlay_start :
    (l xs : List ℕ) (n : ℕ) → n ≡ length xs → n ≤ length l → slice (overlay l 0 xs) 0 n ≡ xs
slice-overlay_start l xs n e h = slice-overlay l 0 0 n xs (omega arith) (omega arith) h

contents-compact : {b : Buffer} → IsValid b → contents (compact b) ≡ contents b
unfolding compact
contents-compact {b} v =
    slice-overlay_start b.bytes (readable b) (readable_bytes b)
      (omega (arith, readable_bytes_lem v, length-readable v)) (omega (arith, readable_bytes_lem v))
    ∙ readable-eq-contents v

contents-expand :
    {b : Buffer} (size free : ℕ)
    → IsValid b
    → Fits b size
    → free ≡ b.read_index + (length b.bytes - b.write_index)
    → free < size
    → contents (expand b size free) ≡ contents b
unfolding expand
contents-expand {b} size free v fits e less =
    slice-overlay_start (replicate (expanded_size b size free) 0) (readable b) (readable_bytes b)
      (omega (arith, readable_bytes_lem v, length-readable v))
      (omega (
        arith,
        readable_bytes_lem v,
        expanded_size_lem size free v fits e less,
        length-replicate {A = ℕ} (expanded_size b size free) 0,
      ))
    ∙ readable-eq-contents v

-- `reserveWritableBytes` changes nothing that can be read.
pub contents-reserve :
    {b : Buffer} (size : ℕ)
    → IsValid b
    → Fits b size
    → contents (reserve_writable_bytes b size) ≡ contents b
unfolding reserve_writable_bytes
contents-reserve {b} size v fits = ground (
  arith,
  contents-compact v,
  free_bytes_lem v,
  contents-expand size (size_add (discardable_bytes b) (writable_bytes b)) v fits,
)

-- On a valid buffer whose readable bytes, `size` and growth step are fewer than 2 ^ 63 together,
-- after reserveWritableBytes(size) at least `size` bytes can be stored; the storage has not shrunk,
-- and the growth step is the same.
pub room_after_reserve :
    {b : Buffer} (size : ℕ)
    → IsValid b
    → Fits b size
    → let b' = reserve_writable_bytes b size in
      (b'.write_index + size ≤ length b'.bytes)
      × (length b.bytes ≤ length b'.bytes)
      × (b'.expand_size ≡ b.expand_size)
unfolding reserve_writable_bytes compact expand
room_after_reserve {b} size v fits = ground (
  arith,
  writable_bytes_lem v,
  readable_bytes_lem v,
  free_bytes_lem v,
  length-overlay b.bytes 0 (readable b),
  expanded_size_lem size (size_add (discardable_bytes b) (writable_bytes b)) v fits,
  length-overlay
      (replicate (expanded_size b size (size_add (discardable_bytes b) (writable_bytes b))) 0) 0
      (readable b),
  length-replicate {A = ℕ}
      (expanded_size b size (size_add (discardable_bytes b) (writable_bytes b))) 0,
)

pub contents-clear : (b : Buffer) → contents (clear b) ≡ []
unfolding clear
contents-clear b = refl

contents-clear_if_drained : {b : Buffer} → IsValid b → contents (clear_if_drained b) ≡ contents b
unfolding clear_if_drained clear
contents-clear_if_drained {b} v = elim (Bool-cases (b.read_index == b.write_index)) [
  | inl same ↦
      let gone : b.write_index - b.read_index ≡ 0 = ground arith in
      rw (same, clear_if_drained) (rw gone refl)
  | inr more ↦ rw (more, clear_if_drained) refl
]

advance_read-IsValid :
    {b : Buffer} (n : ℕ)
    → IsValid b
    → IsValid (record b { read_index = size_add b.read_index (min n (readable_bytes b)) })
advance_read-IsValid n v = ground (arith, readable_bytes_lem v)

slice_skip :
    (l : List ℕ) (r w n r' : ℕ) → r' ≡ r + min n (w - r) → slice l r' w ≡ drop n (slice l r w)
slice_skip l r w n r' e = elim (dec_le n (w - r)) [
  | yes le ↦
      let there : r' ≡ r + n = omega arith in
      let left : w - r - n ≡ w - r' = omega arith in
      sym (
        drop-take n (w - r) (w - r') (drop r l) (sym left)
        ∙ ap (take (w - r')) (drop-drop n r r' l there))
  | no gt ↦
      let gone : w - r' ≡ 0 = omega arith in
      rw gone (sym (drop_all n (slice l r w) (omega (arith, length-take (w - r) (drop r l)))))
]

-- `read(n)` drops the first `n` readable bytes, or all of them if there are fewer.
pub contents-read : {b : Buffer} (n : ℕ) → IsValid b → contents (read b n) ≡ drop n (contents b)
unfolding read
contents-read {b} n v =
    let moved : size_add b.read_index (min n (readable_bytes b))
        ≡ b.read_index + min n (b.write_index - b.read_index) =
      omega (arith, readable_bytes_lem v) in
    contents-clear_if_drained (advance_read-IsValid n v)
    ∙ slice_skip b.bytes b.read_index b.write_index n _ moved

pub writable_bytes-store :
    {b : Buffer} (xs : List ℕ)
    → IsValid b
    → writable_bytes (store b xs) ≡ length b.bytes - b.write_index
unfolding writable_bytes store
writable_bytes-store {b} xs v = omega (arith, length-overlay b.bytes b.write_index xs)

-- Bytes that are stored at the write position become readable by `write`.
pub contents-store-write :
    {b : Buffer} (n : ℕ) (xs : List ℕ)
    → IsValid b
    → n ≡ length xs
    → b.write_index + n ≤ length b.bytes
    → contents (write (store b xs) n) ≡ contents b ++ xs
unfolding write store
contents-store-write {b} n xs v e room =
    let all : size_add b.write_index (min n (writable_bytes (store b xs))) ≡ b.write_index + n =
      omega (arith, writable_bytes-store xs v) in
    rw all (
      slice-overlay b.bytes b.read_index b.write_index (b.write_index + n) xs v.read_le
        (omega arith) room)
