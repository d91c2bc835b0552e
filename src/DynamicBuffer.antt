-- ===== src/DynamicBuffer.antt =====
-- src/brickred/dynamic_buffer.cc: a growing byte buffer with a read and a write position.
-- `buffer_` is a list of bytes, and a `size_t` a number below 2 ^ 64. A method that changes the
-- object returns the new one. Reads behind the end of the storage give 0 here and writes there are
-- dropped; failure of an allocation is not modelled.
pub mod Invariant
pub mod Contents
pub mod Integers
pub mod Queue
pub mod Words
pub mod Endian
pub mod Calls
pub mod Refine
mod Tests
use brickred_server.Base.{
  ℕ, ◌+◌, ◌-◌, ◌*◌, ◌/◌, ◌%◌, ◌^◌, min, List, length, take, drop, replicate, overlay, leb, ◌==◌,
  if◌then◌else◌,
}

pub record Buffer : Type 0 where
  pub bytes : List ℕ
  pub expand_size : ℕ
  pub read_index : ℕ
  pub write_index : ℕ

-- `size_t` addition, subtraction and multiplication.
abbrev pub size_add : ℕ → ℕ → ℕ
size_add a b = (a + b) % 2 ^ 64

abbrev pub size_sub : ℕ → ℕ → ℕ
size_sub a b = (a + 2 ^ 64 - b) % 2 ^ 64

unfoldable pub init : ℕ → ℕ → Buffer
init init_size expand_size =
    let step : ℕ = if expand_size == 0 then 1 else expand_size in
    record {
      bytes = if init_size == 0 then replicate step 0 else replicate init_size 0;
      expand_size = step;
      read_index = 0;
      write_index = 0;
    }

-- `a.swap(b)` is the pair after the exchange.
unfoldable pub swap : Buffer → Buffer → Buffer × Buffer
swap a b = (
  record {
    bytes = b.bytes;
    expand_size = b.expand_size;
    read_index = b.read_index;
    write_index = b.write_index;
  },
  record {
    bytes = a.bytes;
    expand_size = a.expand_size;
    read_index = a.read_index;
    write_index = a.write_index;
  },
)

unfoldable pub capacity : Buffer → ℕ
capacity b = length b.bytes

unfoldable pub discardable_bytes : Buffer → ℕ
discardable_bytes b = b.read_index

unfoldable pub readable_bytes : Buffer → ℕ
readable_bytes b = size_sub b.write_index b.read_index

unfoldable pub writable_bytes : Buffer → ℕ
writable_bytes b = size_sub (length b.bytes) b.write_index

unfoldable pub clear : Buffer → Buffer
clear b = record b { read_index = 0; write_index = 0 }

pub clear_if_drained : Buffer → Buffer
unfolding clear
clear_if_drained b = if b.read_index == b.write_index then clear b else b

unfoldable pub read : Buffer → ℕ → Buffer
unfolding clear_if_drained
read b size =
    clear_if_drained (record b { read_index = size_add b.read_index (min size (readable_bytes b)) })

unfoldable pub write : Buffer → ℕ → Buffer
write b size = record b { write_index = size_add b.write_index (min size (writable_bytes b)) }

-- `memcpy(writeBegin(), xs, n)`
unfoldable pub store : Buffer → List ℕ → Buffer
store b xs = record b { bytes = overlay b.bytes b.write_index xs }

-- The `readable_bytes` bytes at `readBegin()`.
unfoldable pub readable : Buffer → List ℕ
readable b = take (readable_bytes b) (drop b.read_index b.bytes)

pub compact : Buffer → Buffer
compact b = record b {
  bytes = overlay b.bytes 0 (readable b);
  read_index = 0;
  write_index = readable_bytes b;
}

pub expanded_size : Buffer → ℕ → ℕ → ℕ
expanded_size b size free_bytes =
    size_add (length b.bytes)
      ((b.expand_size * size_add (size_sub size free_bytes / b.expand_size) 1) % 2 ^ 64)

pub expand : Buffer → ℕ → ℕ → Buffer
unfolding expanded_size
expand b size free_bytes = record b {
  bytes = overlay (replicate (expanded_size b size free_bytes) 0) 0 (readable b);
  read_index = 0;
  write_index = readable_bytes b;
}

unfoldable pub reserve_writable_bytes : Buffer → ℕ → Buffer
unfolding compact expand
reserve_writable_bytes b size =
    let free_bytes : ℕ = size_add (discardable_bytes b) (writable_bytes b) in
    if leb size (writable_bytes b)
    then b
    else if leb size free_bytes
    then compact b
    else expand b size free_bytes
