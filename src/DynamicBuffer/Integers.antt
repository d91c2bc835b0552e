-- ===== src/DynamicBuffer/Integers.antt =====
-- The typed reads and writes of src/brickred/dynamic_buffer.cc. An output parameter is `some v`,
-- and `none` is the result `false`.
use brickred_server.Base.{
  ℕ, ◌+◌, ◌*◌, ◌/◌, ◌%◌, ◌^◌, min, bit_or, Bool, Option, none, some, List, [], ◌∷◌, length, get_or,
  take, ltb, if◌then◌else◌, ◌>>=◌,
}
use brickred_server.DynamicBuffer.{
  Buffer, size_add, readable_bytes, readable, read, write, store, clear_if_drained,
  reserve_writable_bytes,
}

-- The byte at `readBegin() + i`.
unfoldable pub at : Buffer → ℕ → ℕ
at b i = get_or b.bytes (b.read_index + i) 0

-- `(x0) | (x1) << 8`, and its wider forms.
unfoldable pub word16 : ℕ → ℕ → ℕ
word16 x0 x1 = bit_or x0 (x1 * 2 ^ 8)

unfoldable pub word32 : ℕ → ℕ → ℕ → ℕ → ℕ
unfolding word16
word32 x0 x1 x2 x3 = bit_or (bit_or (word16 x0 x1) (x2 * 2 ^ 16)) (x3 * 2 ^ 24)

unfoldable pub word64 : ℕ → ℕ → ℕ → ℕ → ℕ → ℕ → ℕ → ℕ → ℕ
unfolding word32
word64 x0 x1 x2 x3 x4 x5 x6 x7 =
    bit_or (bit_or (bit_or (bit_or (word32 x0 x1 x2 x3) (x4 * 2 ^ 32)) (x5 * 2 ^ 40)) (x6 * 2 ^ 48))
      (x7 * 2 ^ 56)

unfoldable pub peek_int8 : Buffer → ℕ → Option ℕ
peek_int8 b offset = if ltb (readable_bytes b) (size_add offset 1) then none else some (at b offset)

unfoldable pub peek_int16 : Buffer → ℕ → Bool → Option ℕ
peek_int16 b offset little_endian =
    if ltb (readable_bytes b) (size_add offset 2)
    then none
    else if little_endian
    then some (word16 (at b offset) (at b (offset + 1)))
    else some (word16 (at b (offset + 1)) (at b offset))

unfoldable pub peek_int32 : Buffer → ℕ → Bool → Option ℕ
peek_int32 b offset little_endian =
    if ltb (readable_bytes b) (size_add offset 4)
    then none
    else if little_endian
    then some (word32 (at b offset) (at b (offset + 1)) (at b (offset + 2)) (at b (offset + 3)))
    else some (word32 (at b (offset + 3)) (at b (offset + 2)) (at b (offset + 1)) (at b offset))

unfoldable pub peek_int64 : Buffer → ℕ → Bool → Option ℕ
peek_int64 b offset little_endian =
    if ltb (readable_bytes b) (size_add offset 8)
    then none
    else if little_endian
    then some (
        word64 (at b offset) (at b (offset + 1)) (at b (offset + 2)) (at b (offset + 3))
          (at b (offset + 4)) (at b (offset + 5)) (at b (offset + 6)) (at b (offset + 7)))
    else some (
        word64 (at b (offset + 7)) (at b (offset + 6)) (at b (offset + 5)) (at b (offset + 4))
          (at b (offset + 3)) (at b (offset + 2)) (at b (offset + 1)) (at b offset))

-- The overloads with a wider output: the narrow number, widened.
unfoldable pub peek_int8_wide : Buffer → ℕ → Option ℕ
peek_int8_wide b offset = do v8 ← peek_int8 b offset; some v8

unfoldable pub peek_int16_wide : Buffer → ℕ → Bool → Option ℕ
peek_int16_wide b offset little_endian = do v16 ← peek_int16 b offset little_endian; some v16

unfoldable pub peek_int32_wide : Buffer → ℕ → Bool → Option ℕ
peek_int32_wide b offset little_endian = do v32 ← peek_int32 b offset little_endian; some v32

-- `read(size)` after a peek that succeeded.
unfoldable pub read_peeked : Buffer → ℕ → Option ℕ → Option ℕ × Buffer
read_peeked b size none = (none, b)
read_peeked b size (some v) = (some v, read b size)

unfoldable pub read_int8 : Buffer → Option ℕ × Buffer
unfolding read_peeked
read_int8 b = read_peeked b 1 (peek_int8 b 0)

unfoldable pub read_int16 : Buffer → Bool → Option ℕ × Buffer
unfolding read_peeked
read_int16 b little_endian = read_peeked b 2 (peek_int16 b 0 little_endian)

unfoldable pub read_int32 : Buffer → Bool → Option ℕ × Buffer
unfolding read_peeked
read_int32 b little_endian = read_peeked b 4 (peek_int32 b 0 little_endian)

unfoldable pub read_int64 : Buffer → Bool → Option ℕ × Buffer
unfolding read_peeked
read_int64 b little_endian = read_peeked b 8 (peek_int64 b 0 little_endian)

unfoldable pub read_int8_wide : Buffer → Option ℕ × Buffer
unfolding read_peeked
read_int8_wide b = read_peeked b 1 (peek_int8_wide b 0)

unfoldable pub read_int16_wide : Buffer → Bool → Option ℕ × Buffer
unfolding read_peeked
read_int16_wide b little_endian = read_peeked b 2 (peek_int16_wide b 0 little_endian)

unfoldable pub read_int32_wide : Buffer → Bool → Option ℕ × Buffer
unfolding read_peeked
read_int32_wide b little_endian = read_peeked b 4 (peek_int32_wide b 0 little_endian)

-- `(uint8_t)(v >> k)`
abbrev pub byte_at : ℕ → ℕ → ℕ
byte_at v k = v / 2 ^ k % 256

unfoldable pub bytes16 : ℕ → Bool → List ℕ
bytes16 v little_endian =
    if little_endian then byte_at v 0 ∷ byte_at v 8 ∷ [] else byte_at v 8 ∷ byte_at v 0 ∷ []

unfoldable pub bytes32 : ℕ → Bool → List ℕ
bytes32 v little_endian =
    if little_endian
    then byte_at v 0 ∷ byte_at v 8 ∷ byte_at v 16 ∷ byte_at v 24 ∷ []
    else byte_at v 24 ∷ byte_at v 16 ∷ byte_at v 8 ∷ byte_at v 0 ∷ []

unfoldable pub bytes64 : ℕ → Bool → List ℕ
bytes64 v little_endian =
    if little_endian
    then byte_at v 0
      ∷ byte_at v 8
      ∷ byte_at v 16
      ∷ byte_at v 24
      ∷ byte_at v 32
      ∷ byte_at v 40
      ∷ byte_at v 48
      ∷ byte_at v 56
      ∷ []
    else byte_at v 56
      ∷ byte_at v 48
      ∷ byte_at v 40
      ∷ byte_at v 32
      ∷ byte_at v 24
      ∷ byte_at v 16
      ∷ byte_at v 8
      ∷ byte_at v 0
      ∷ []

-- `reserveWritableBytes(n)`, bytes stored at `writeBegin()`, `write(n)`.
unfoldable pub put_word : Buffer → ℕ → List ℕ → Buffer
put_word b n xs = write (store (reserve_writable_bytes b n) xs) n

unfoldable pub write_int8 : Buffer → ℕ → Buffer
unfolding put_word
write_int8 b v = put_word b 1 (v ∷ [])

unfoldable pub write_int16 : Buffer → ℕ → Bool → Buffer
unfolding put_word bytes16
write_int16 b v little_endian = put_word b 2 (bytes16 v little_endian)

unfoldable pub write_int32 : Buffer → ℕ → Bool → Buffer
unfolding put_word bytes32
write_int32 b v little_endian = put_word b 4 (bytes32 v little_endian)

unfoldable pub write_int64 : Buffer → ℕ → Bool → Buffer
unfolding put_word bytes64
write_int64 b v little_endian = put_word b 8 (bytes64 v little_endian)

-- The bytes copied out, and the buffer after.
unfoldable pub read_bytes : Buffer → ℕ → List ℕ × Buffer
unfolding clear_if_drained
read_bytes b count =
    let real_count : ℕ = min count (readable_bytes b) in
    (
      take real_count (readable b),
      clear_if_drained (record b { read_index = size_add b.read_index real_count }),
    )

unfoldable pub write_bytes : Buffer → List ℕ → Buffer
write_bytes b xs =
    let b' : Buffer = store (reserve_writable_bytes b (length xs)) xs in
    record b' { write_index = size_add b'.write_index (length xs) }
