-- ===== src/Digest.antt =====
-- src/brickred/codec/{md5,sha1,sha256}.cc: message digests. The three classes have the same text
-- for `update` and `digest` but for the block function and the byte order: it is written once here,
-- over those two.
pub mod Blocks
pub mod Streaming
pub mod Update
pub mod Padding
pub mod Hex
pub mod Text
pub mod Word32
pub mod Sha256
pub mod Sha1
pub mod Md5
mod Tests
use brickred_server.Base.{
  ℕ, zero, suc, ◌+◌, ◌-◌, ◌*◌, ◌/◌, ◌%◌, ◌^◌, min, bit_and, Bool, true, false, List, [], ◌∷◌, ◌++◌,
  length, take, drop, replicate, overlay, ltb, if◌then◌else◌,
}

-- `hash_`, `message_size_` and the 64 bytes of `work_block_`.
pub record Context : Type 0 where
  pub hash : List ℕ
  pub message_size : ℕ
  pub work_block : List ℕ

-- What one block does to the hash.
abbrev pub ProcessBlock : Type 0
ProcessBlock = List ℕ → List ℕ → List ℕ

abbrev byte_at : ℕ → ℕ → ℕ
byte_at v k = v / 2 ^ k % 256

-- `pad_len`: the 64-bit size in bits, in the byte order of the digest.
unfoldable pub pad_len : Bool → ℕ → List ℕ
pad_len big_endian message_size =
    let bit_size : ℕ = message_size * 8 % 2 ^ 64 in
    if big_endian
    then byte_at bit_size 56
      ∷ byte_at bit_size 48
      ∷ byte_at bit_size 40
      ∷ byte_at bit_size 32
      ∷ byte_at bit_size 24
      ∷ byte_at bit_size 16
      ∷ byte_at bit_size 8
      ∷ byte_at bit_size 0
      ∷ []
    else byte_at bit_size 0
      ∷ byte_at bit_size 8
      ∷ byte_at bit_size 16
      ∷ byte_at bit_size 24
      ∷ byte_at bit_size 32
      ∷ byte_at bit_size 40
      ∷ byte_at bit_size 48
      ∷ byte_at bit_size 56
      ∷ []

-- The bytes of the hash words.
unfoldable pub output : Bool → List ℕ → List ℕ
output big_endian [] = []
output big_endian (w ∷ ws) =
    (if big_endian
      then byte_at w 24 ∷ byte_at w 16 ∷ byte_at w 8 ∷ byte_at w 0 ∷ []
      else byte_at w 0 ∷ byte_at w 8 ∷ byte_at w 16 ∷ byte_at w 24 ∷ [])
    ++ output big_endian ws

-- `pad`: 0x80 and 63 zeros.
abbrev pub pad : List ℕ
pad = 0x80 ∷ replicate 63 0

module _ (process_block : ProcessBlock) where
  -- `while (size >= 64)`, on a round for each whole block: the hash and the bytes that are left.
  pub loop : ℕ → List ℕ → List ℕ → List ℕ × List ℕ
  loop zero hash buffer = (hash, buffer)
  loop (suc fuel) hash buffer =
      let rest = loop fuel (process_block hash (take 64 buffer)) (drop 64 buffer) in
      if ltb (length buffer) 64 then (hash, buffer) else rest

  -- The loop, and the leftover saved to the work block.
  pub absorb : Context → List ℕ → Context
  unfolding loop
  absorb c buffer =
      let (hash, rest) = loop (length buffer / 64) c.hash buffer in
      record c {
        hash = hash;
        work_block = if ltb 0 (length rest) then overlay c.work_block 0 rest else c.work_block;
      }

  unfoldable pub update : Context → List ℕ → Context
  unfolding absorb
  update c buffer =
      let size : ℕ = length buffer in
      let wb_size : ℕ = bit_and c.message_size 63 in
      let left : ℕ = 64 - wb_size in
      let sized : Context = record c { message_size = (c.message_size + size) % 2 ^ 64 } in
      let filled : List ℕ = overlay c.work_block wb_size (take (min size left) buffer) in
      if ltb 0 wb_size
      then if ltb size left
        then record sized { work_block = filled }
        else absorb (record sized { hash = process_block c.hash filled; work_block = filled })
            (drop left buffer)
      else absorb sized buffer

  unfoldable pub finish : Bool → Context → Context
  unfolding update pad_len
  finish big_endian c =
      let length_bytes : List ℕ = pad_len big_endian c.message_size in
      let wb_size : ℕ = bit_and c.message_size 63 in
      if ltb 55 wb_size
      then update (update c (take (64 - wb_size + 56) pad)) length_bytes
      else update (update c (take (56 - wb_size) pad)) length_bytes

  -- The digest, and the context after.
  unfoldable pub digest : Bool → Context → List ℕ × Context
  unfolding finish output
  digest big_endian c = let c' : Context = finish big_endian c in (output big_endian c'.hash, c')
