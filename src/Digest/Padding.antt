-- ===== src/Digest/Padding.antt =====
-- `digest` of src/brickred/codec/{md5,sha1,sha256}.cc against the padding of the standards.
use brickred_server.Base.{
  ℕ, zero, suc, ◌+◌, ◌-◌, ◌*◌, ◌/◌, ◌%◌, ◌^◌, ◌≤◌, ◌≡◌, refl, sym, ap, ◌∙◌, bit_and, Bool,
  Bool-cases, inl, inr, List, ◌∷◌, ◌++◌, length, take, replicate, ltb, arith, length-append,
  length-replicate, append_assoc, true, false, not,
}
use brickred_server.Base.Bits.{bit_and_63}
use brickred_server.Digest.{ProcessBlock, Context, pad, pad_len, output, update, finish, digest}
use brickred_server.Digest.Blocks.{run_blocks}
use brickred_server.Digest.Streaming.{Represents}
use brickred_server.DynamicBuffer.Queue.{encode}
use brickred_server.DynamicBuffer.Integers.{bytes64}
use brickred_server.DynamicBuffer.Words.{bytes64_lem}
use brickred_server.Digest.Update.{update-Represents}

-- The zeros that leave room for 8 bytes at the end of a block, after one byte more than `n`.
abbrev pub zero_count : ℕ → ℕ
zero_count n = (119 - n % 64) % 64

-- The length in bits, as 64 bits with the lowest byte last or first.
abbrev pub bits_of : Bool → ℕ → List ℕ
bits_of big_endian n = encode 8 (not big_endian) (n * 8 % 2 ^ 64)

-- The message, a one bit, zeros, and the length in bits.
unfoldable pub padded : Bool → List ℕ → List ℕ
padded big_endian m =
    m ++ ((0x80 ∷ replicate (zero_count (length m)) 0) ++ bits_of big_endian (length m))

pad_len_bits : (big_endian : Bool) (n : ℕ) → pad_len big_endian n ≡ bits_of big_endian n
unfolding pad_len bytes64
pad_len_bits true n = bytes64_lem (n * 8 % 2 ^ 64) false
pad_len_bits false n = bytes64_lem (n * 8 % 2 ^ 64) true

length-pad_len : (big_endian : Bool) (n : ℕ) → length (pad_len big_endian n) ≡ 8
unfolding pad_len
length-pad_len true n = refl
length-pad_len false n = refl

padded_parts :
    (big_endian : Bool) (m : List ℕ)
    → padded big_endian m
      ≡ (m ++ (0x80 ∷ replicate (zero_count (length m)) 0)) ++ pad_len big_endian (length m)
unfolding padded
padded_parts big_endian m = rw (pad_len_bits big_endian (length m)) (
    sym
      (append_assoc m (0x80 ∷ replicate (zero_count (length m)) 0) (bits_of big_endian (length m))))

-- A padded message is whole blocks.
pub length-padded : (big_endian : Bool) (m : List ℕ) → length (padded big_endian m) % 64 ≡ 0
length-padded big_endian m =
    let zeros : List ℕ = replicate (zero_count (length m)) 0 in
    rw (padded_parts big_endian m) (
      omega (
        arith,
        length-append (m ++ (0x80 ∷ zeros)) (pad_len big_endian (length m)),
        length-append m (0x80 ∷ zeros),
        length-pad_len big_endian (length m),
        length-replicate {A = ℕ} (zero_count (length m)) 0,
      ))

pad_len_mod : (big_endian : Bool) (n : ℕ) → pad_len big_endian (n % 2 ^ 64) ≡ pad_len big_endian n
unfolding pad_len
pad_len_mod big_endian n =
    let same : n % 2 ^ 64 * 8 % 2 ^ 64 ≡ n * 8 % 2 ^ 64 = omega arith in rw same refl

take-replicate : (j n : ℕ) → j ≤ n → take {A = ℕ} j (replicate n 0) ≡ replicate j 0
take-replicate zero n h = refl
take-replicate (suc j) zero h = absurd (omega arith)
take-replicate (suc j) (suc n) h = ap (◌∷◌ 0) (take-replicate j n (omega arith))

take-pad : (k n : ℕ) → k ≡ suc n → n ≤ 63 → take {A = ℕ} k pad ≡ 0x80 ∷ replicate n 0
take-pad zero n e h = absurd (omega arith)
take-pad (suc k) n e h =
    let same : k ≡ n = omega arith in rw same (ap (◌∷◌ 0x80) (take-replicate n 63 h))

module _ (process_block : ProcessBlock) where
  -- The two calls of `update` in `digest`.
  pad_with :
      {h : List ℕ} (big_endian : Bool) (c : Context) (m : List ℕ) (k : ℕ)
      → Represents process_block h c m
      → k ≡ suc (zero_count (length m))
      → Represents process_block h
          (update process_block
            (update process_block c (take k pad))
            (pad_len big_endian c.message_size))
          (padded big_endian m)
  pad_with {h} big_endian c m k r e =
      let zeros : List ℕ = 0x80 ∷ replicate (zero_count (length m)) 0 in
      let same_tail : pad_len big_endian c.message_size ≡ pad_len big_endian (length m) =
        ap (pad_len big_endian) r.counted ∙ pad_len_mod big_endian (length m) in
      rw (take-pad k (zero_count (length m)) e (omega arith), same_tail, padded_parts big_endian m)
        (update-Represents process_block (update process_block c zeros) (m ++ zeros)
          (pad_len big_endian (length m)) (update-Represents process_block c m zeros r))

  pub finish-Represents :
      {h : List ℕ} (big_endian : Bool) (c : Context) (m : List ℕ)
      → Represents process_block h c m
      → Represents process_block h (finish process_block big_endian c) (padded big_endian m)
  unfolding finish
  finish-Represents big_endian c m r =
      let wb_size : ℕ = bit_and c.message_size 63 in
      let at : wb_size ≡ length m % 64 = omega (arith, bit_and_63 c.message_size, r.counted) in
      elim (Bool-cases (ltb 55 wb_size)) [
        | inl full ↦
            let one_over : 64 - wb_size + 56 ≡ suc (zero_count (length m)) = ground arith in
            rw full (pad_with big_endian c m (64 - wb_size + 56) r one_over)
        | inr room ↦
            let one_over : 56 - wb_size ≡ suc (zero_count (length m)) = ground arith in
            rw room (pad_with big_endian c m (56 - wb_size) r one_over)
      ]

  -- The digest is that of the blocks of the padded message.
  pub digest_lem :
      {h : List ℕ} (big_endian : Bool) (c : Context) (m : List ℕ)
      → Represents process_block h c m
      → (digest process_block big_endian c).0
        ≡ output big_endian
            (run_blocks process_block (length (padded big_endian m) / 64) h (padded big_endian m))
  unfolding digest
  digest_lem big_endian c m r =
      let done = finish-Represents big_endian c m r in ap (output big_endian) done.absorbed.hashed
