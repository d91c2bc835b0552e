-- ===== src/Digest/Word32.antt =====
-- `uint32_t` in the block functions of src/brickred/codec/{md5,sha1,sha256}.cc.
use brickred_server.Base.{
  ℕ, zero, suc, ◌+◌, ◌-◌, ◌*◌, ◌/◌, ◌%◌, ◌^◌, bit_or, bit_xor, List, [], ◌∷◌, ◌++◌, get_or,
}

infixl 60 ◌+ʷ◌
abbrev pub ◌+ʷ◌ : ℕ → ℕ → ℕ
a +ʷ b = (a + b) % 2 ^ 32

-- `~a`
abbrev pub bit_not : ℕ → ℕ
bit_not a = bit_xor a 0xffffffff

abbrev pub shift_left : ℕ → ℕ → ℕ
shift_left a n = a * 2 ^ n % 2 ^ 32

abbrev pub shift_right : ℕ → ℕ → ℕ
shift_right a n = a / 2 ^ n

-- `ROTLEFT`, and `ROTRIGHT`.
abbrev pub rot_left : ℕ → ℕ → ℕ
rot_left a n = bit_or (shift_left a n) (shift_right a (32 - n))

abbrev pub rot_right : ℕ → ℕ → ℕ
rot_right a n = bit_or (shift_right a n) (shift_left a (32 - n))

-- `w[i]` of the first 16 words, big-endian.
abbrev pub word_big : List ℕ → ℕ → ℕ
word_big work_block i =
    bit_or
      (bit_or
        (bit_or (shift_left (get_or work_block (i * 4) 0) 24)
          (shift_left (get_or work_block (i * 4 + 1) 0) 16))
        (shift_left (get_or work_block (i * 4 + 2) 0) 8))
      (get_or work_block (i * 4 + 3) 0)

-- The same, little-endian.
abbrev pub word_little : List ℕ → ℕ → ℕ
word_little work_block i =
    bit_or
      (bit_or
        (bit_or (shift_left (get_or work_block (i * 4 + 3) 0) 24)
          (shift_left (get_or work_block (i * 4 + 2) 0) 16))
        (shift_left (get_or work_block (i * 4 + 1) 0) 8))
      (get_or work_block (i * 4) 0)

-- `for (int i = from; i < from + n; ++i) w[i] = f(w, i)`.
abbrev pub fill : (List ℕ → ℕ → ℕ) → ℕ → ℕ → List ℕ → List ℕ
fill f zero i w = w
fill f (suc n) i w = fill f n (suc i) (w ++ (f w i ∷ []))
