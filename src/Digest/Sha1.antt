-- ===== src/Digest/Sha1.antt =====
-- src/brickred/codec/sha1.cc: the class `Sha1` and the functions over it.
pub mod Standard
use brickred_server.Base.{
  ℕ, zero, suc, ◌+◌, ◌-◌, bit_and, bit_or, bit_xor, true, List, [], ◌∷◌, get_or,
}
use brickred_server.Digest
use brickred_server.Digest.{Context}
use brickred_server.Digest.Hex.{hex}
use brickred_server.Digest.Word32.{◌+ʷ◌, bit_not, shift_left, shift_right, word_big, fill}

abbrev pub initial_hash : List ℕ
initial_hash = 0x67452301 ∷ 0xefcdab89 ∷ 0x98badcfe ∷ 0x10325476 ∷ 0xc3d2e1f0 ∷ []

unfoldable pub reset : Context → Context
reset c = record c { hash = initial_hash; message_size = 0 }

-- `ROTL32`, joined by `^` here.
abbrev pub rotl_32 : ℕ → ℕ → ℕ
rotl_32 dword n = bit_xor (shift_left dword n) (shift_right dword (32 - n))

abbrev next_word : List ℕ → ℕ → ℕ
next_word w i =
    rotl_32
      (bit_xor (bit_xor (bit_xor (get_or w (i - 3) 0) (get_or w (i - 8) 0)) (get_or w (i - 14) 0))
        (get_or w (i - 16) 0))
      1

-- The array `w`.
unfoldable pub words : List ℕ → List ℕ
words work_block = fill next_word 64 16 (fill (λ w i. word_big work_block i) 16 0 [])

pub record Registers : Type 0 where
  pub a : ℕ
  pub b : ℕ
  pub c : ℕ
  pub d : ℕ
  pub e : ℕ

-- The three functions of `b`, `c` and `d` in the rounds.
abbrev choose : ℕ → ℕ → ℕ → ℕ
choose b c d = bit_or (bit_and b c) (bit_and (bit_not b) d)

abbrev parity : ℕ → ℕ → ℕ → ℕ
parity b c d = bit_xor (bit_xor b c) d

abbrev majority : ℕ → ℕ → ℕ → ℕ
majority b c d = bit_or (bit_or (bit_and b c) (bit_and b d)) (bit_and c d)

unfoldable pub step : (ℕ → ℕ → ℕ → ℕ) → ℕ → ℕ → Registers → Registers
step f k w r =
    let temp : ℕ = rotl_32 r.a 5 +ʷ f r.b r.c r.d +ʷ r.e +ʷ w +ʷ k in
    record { a = temp; b = r.a; c = rotl_32 r.b 30; d = r.c; e = r.d }

-- `n` steps of one round, from step `i` on.
unfoldable pub round : (ℕ → ℕ → ℕ → ℕ) → ℕ → ℕ → ℕ → List ℕ → Registers → Registers
unfolding step
round f k zero i ws r = r
round f k (suc n) i ws r = round f k n (suc i) ws (step f k (get_or ws i 0) r)

unfoldable pub rounds : List ℕ → Registers → Registers
unfolding round
rounds ws r =
    let r1 : Registers = round choose 0x5a827999 20 0 ws r in
    let r2 : Registers = round parity 0x6ed9eba1 20 20 ws r1 in
    let r3 : Registers = round majority 0x8f1bbcdc 20 40 ws r2 in
    round parity 0xca62c1d6 20 60 ws r3

unfoldable pub process_block : List ℕ → List ℕ → List ℕ
unfolding words rounds
process_block hash work_block =
    let at : ℕ → ℕ = λ i. get_or hash i 0 in
    let r : Registers =
      rounds (words work_block) (record { a = at 0; b = at 1; c = at 2; d = at 3; e = at 4 }) in
    (at 0 +ʷ r.a) ∷ (at 1 +ʷ r.b) ∷ (at 2 +ʷ r.c) ∷ (at 3 +ʷ r.d) ∷ (at 4 +ʷ r.e) ∷ []

-- The constructor: the work block holds whatever was there.
unfoldable pub init : List ℕ → Context
unfolding reset
init work_block = reset (record { hash = []; message_size = 0; work_block = work_block })

unfoldable pub update : Context → List ℕ → Context
unfolding Digest.update process_block
update = Digest.update process_block

unfoldable pub digest : Context → List ℕ × Context
unfolding Digest.digest process_block
digest = Digest.digest process_block true

unfoldable pub digest_string : Context → List ℕ × Context
unfolding digest hex
digest_string c = let (hash, c') = digest c in (hex hash, c')

unfoldable pub sha1 : List ℕ → List ℕ → List ℕ
unfolding init update digest_string
sha1 work_block buffer = (digest_string (update (init work_block) buffer)).0

unfoldable pub sha1_binary : List ℕ → List ℕ → List ℕ
unfolding init update digest
sha1_binary work_block buffer = (digest (update (init work_block) buffer)).0
