-- ===== src/DynamicBuffer/Invariant.antt =====
-- The representation invariant of `DynamicBuffer`, and that no size computation wraps under it.
use brickred_server.Base.{
  ℕ, ◌+◌, ◌-◌, ◌*◌, ◌/◌, ◌^◌, ◌≤◌, ◌<◌, ◌≡◌, List, length, replicate, drop, arith, All,
  length-overlay, length-replicate, All-overlay, All-take, All-drop, All-replicate, length-take,
  length-drop,
}
pub use brickred_server.Base.{IsByte}
use native.Mathlib.Nat.{div-add-mod, mod-lt, div-le_self}
use brickred_server.DynamicBuffer.{
  Buffer, size_add, size_sub, init, clear_if_drained, read, write, store, readable, readable_bytes,
  writable_bytes, discardable_bytes, compact, expand, expanded_size, reserve_writable_bytes,
}

pub record IsValid (b : Buffer) : Type 0 where
  pub step_pos : 0 < b.expand_size
  pub read_le : b.read_index ≤ b.write_index
  pub write_le : b.write_index ≤ length b.bytes
  pub small : length b.bytes < 2 ^ 63
  pub octets : All IsByte b.bytes

-- `size` more bytes can be reserved within the largest size of a vector.
abbrev pub Fits : Buffer → ℕ → Type 0
Fits b size = b.write_index + size + b.expand_size < 2 ^ 63 + b.read_index

pub readable_bytes_lem : {b : Buffer} → IsValid b → readable_bytes b ≡ b.write_index - b.read_index
unfolding readable_bytes
readable_bytes_lem v = omega arith

pub writable_bytes_lem :
    {b : Buffer} → IsValid b → writable_bytes b ≡ length b.bytes - b.write_index
unfolding writable_bytes
writable_bytes_lem v = omega arith

-- The constructor makes a valid buffer for all arguments below 2 ^ 63, zeros included.
pub init-IsValid :
    (init_size expand_size : ℕ)
    → init_size < 2 ^ 63
    → expand_size < 2 ^ 63
    → IsValid (init init_size expand_size)
unfolding init
init-IsValid i e hi he = ground (
  arith,
  length-replicate {A = ℕ} i 0,
  length-replicate {A = ℕ} e 0,
  All-replicate IsByte i 0 (omega arith),
  All-replicate IsByte e 0 (omega arith),
)

clear_if_drained-IsValid : {b : Buffer} → IsValid b → IsValid (clear_if_drained b)
unfolding clear_if_drained
clear_if_drained-IsValid v = ground arith

pub read-IsValid : {b : Buffer} (n : ℕ) → IsValid b → IsValid (read b n)
unfolding read
read-IsValid n v = ground (arith, readable_bytes_lem v)

pub write-IsValid : {b : Buffer} (n : ℕ) → IsValid b → IsValid (write b n)
unfolding write
write-IsValid n v = ground (arith, writable_bytes_lem v)

pub store-IsValid : {b : Buffer} (xs : List ℕ) → All IsByte xs → IsValid b → IsValid (store b xs)
unfolding store
store-IsValid {b} xs h v = ground (
  arith,
  length-overlay b.bytes b.write_index xs,
  All-overlay IsByte b.bytes b.write_index xs v.octets h,
)

pub readable-IsByte : {b : Buffer} → IsValid b → All IsByte (readable b)
unfolding readable
readable-IsByte {b} v =
    All-take IsByte (readable_bytes b) _ (All-drop IsByte b.read_index b.bytes v.octets)

pub length-readable : {b : Buffer} → IsValid b → length (readable b) ≡ b.write_index - b.read_index
unfolding readable
length-readable {b} v = omega (
  arith,
  readable_bytes_lem v,
  length-take (readable_bytes b) (drop b.read_index b.bytes),
  length-drop b.read_index b.bytes,
)

compact-IsValid : {b : Buffer} → IsValid b → IsValid (compact b)
unfolding compact
compact-IsValid {b} v = ground (
  arith,
  readable_bytes_lem v,
  length-overlay b.bytes 0 (readable b),
  All-overlay IsByte b.bytes 0 (readable b) v.octets (readable-IsByte v),
)

-- The least multiple of `e` above `d`.
round_up : (d e : ℕ) → 0 < e → (d < e * (d / e + 1)) × (e * (d / e + 1) ≤ d + e)
round_up d e h = omega (arith, div-add-mod d e, mod-lt d h)

-- The size that `reserveWritableBytes` asks for when it has to grow.
pub expanded_size_lem :
    {b : Buffer} (size free : ℕ)
    → IsValid b
    → Fits b size
    → free ≡ b.read_index + (length b.bytes - b.write_index)
    → free < size
    → (size + (b.write_index - b.read_index) < expanded_size b size free)
      × (length b.bytes ≤ expanded_size b size free)
      × (expanded_size b size free < 2 ^ 63)
unfolding expanded_size
expanded_size_lem {b} size free v fits e less =
    let gap : size_sub size free ≡ size - free = omega arith in
    let (above, below) = round_up (size - free) b.expand_size v.step_pos in
    let few : (size - free) / b.expand_size ≤ size - free =
      div-le_self (size - free) b.expand_size in
    let count : size_add ((size - free) / b.expand_size) 1 ≡ (size - free) / b.expand_size + 1 =
      omega arith in
    rw (gap, count) (omega (arith, above, below))

expand-IsValid :
    {b : Buffer} (size free : ℕ)
    → IsValid b
    → Fits b size
    → free ≡ b.read_index + (length b.bytes - b.write_index)
    → free < size
    → IsValid (expand b size free)
unfolding expand
expand-IsValid {b} size free v fits e less = ground (
  arith,
  readable_bytes_lem v,
  expanded_size_lem size free v fits e less,
  length-overlay (replicate (expanded_size b size free) 0) 0 (readable b),
  length-replicate {A = ℕ} (expanded_size b size free) 0,
  All-replicate IsByte (expanded_size b size free) 0 (omega arith),
  All-overlay IsByte (replicate (expanded_size b size free) 0) 0 (readable b),
  readable-IsByte v,
)

pub free_bytes_lem :
    {b : Buffer}
    → IsValid b
    → size_add (discardable_bytes b) (writable_bytes b)
      ≡ b.read_index + (length b.bytes - b.write_index)
unfolding discardable_bytes
free_bytes_lem v = omega (arith, writable_bytes_lem v)

-- `reserveWritableBytes` keeps the invariant.
pub reserve-IsValid :
    {b : Buffer} (size : ℕ) → IsValid b → Fits b size → IsValid (reserve_writable_bytes b size)
unfolding reserve_writable_bytes
reserve-IsValid {b} size v fits = ground (
  arith,
  compact-IsValid v,
  free_bytes_lem v,
  expand-IsValid size (size_add (discardable_bytes b) (writable_bytes b)) v fits,
)
