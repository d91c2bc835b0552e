-- ===== src/Digest/Sha256.antt =====
-- src/brickred/codec/sha256.cc: the class `Sha256` and the functions over it.
pub mod Standard
use brickred_server.Base.{ℕ, zero, suc, ◌+◌, ◌-◌, bit_and, bit_xor, true, List, [], ◌∷◌, get_or}
use brickred_server.Digest
use brickred_server.Digest.{Context}
use brickred_server.Digest.Hex.{hex}
use brickred_server.Digest.Word32.{◌+ʷ◌, bit_not, rot_right, shift_right, word_big, fill}

abbrev pub initial_hash : List ℕ
initial_hash =
    0x6a09e667 ∷ 0xbb67ae85 ∷ 0x3c6ef372 ∷ 0xa54ff53a ∷ 0x510e527f ∷ 0x9b05688c ∷ 0x1f83d9ab
    ∷ 0x5be0cd19 ∷ []

unfoldable pub reset : Context → Context
reset c = record c { hash = initial_hash; message_size = 0 }

-- `k`
abbrev pub round_constants : List ℕ
round_constants =
    0x428a2f98 ∷ 0x71374491 ∷ 0xb5c0fbcf ∷ 0xe9b5dba5 ∷ 0x3956c25b ∷ 0x59f111f1 ∷ 0x923f82a4
    ∷ 0xab1c5ed5 ∷ 0xd807aa98 ∷ 0x12835b01 ∷ 0x243185be ∷ 0x550c7dc3 ∷ 0x72be5d74 ∷ 0x80deb1fe
    ∷ 0x9bdc06a7 ∷ 0xc19bf174 ∷ 0xe49b69c1 ∷ 0xefbe4786 ∷ 0x0fc19dc6 ∷ 0x240ca1cc ∷ 0x2de92c6f
    ∷ 0x4a7484aa ∷ 0x5cb0a9dc ∷ 0x76f988da ∷ 0x983e5152 ∷ 0xa831c66d ∷ 0xb00327c8 ∷ 0xbf597fc7
    ∷ 0xc6e00bf3 ∷ 0xd5a79147 ∷ 0x06ca6351 ∷ 0x14292967 ∷ 0x27b70a85 ∷ 0x2e1b2138 ∷ 0x4d2c6dfc
    ∷ 0x53380d13 ∷ 0x650a7354 ∷ 0x766a0abb ∷ 0x81c2c92e ∷ 0x92722c85 ∷ 0xa2bfe8a1 ∷ 0xa81a664b
    ∷ 0xc24b8b70 ∷ 0xc76c51a3 ∷ 0xd192e819 ∷ 0xd6990624 ∷ 0xf40e3585 ∷ 0x106aa070 ∷ 0x19a4c116
    ∷ 0x1e376c08 ∷ 0x2748774c ∷ 0x34b0bcb5 ∷ 0x391c0cb3 ∷ 0x4ed8aa4a ∷ 0x5b9cca4f ∷ 0x682e6ff3
    ∷ 0x748f82ee ∷ 0x78a5636f ∷ 0x84c87814 ∷ 0x8cc70208 ∷ 0x90befffa ∷ 0xa4506ceb ∷ 0xbef9a3f7
    ∷ 0xc67178f2 ∷ []

-- `CH`, `MAJ`, `EP0`, `EP1`, `SIG0` and `SIG1`.
abbrev ch : ℕ → ℕ → ℕ → ℕ
ch x y z = bit_xor (bit_and x y) (bit_and (bit_not x) z)

abbrev maj : ℕ → ℕ → ℕ → ℕ
maj x y z = bit_xor (bit_xor (bit_and x y) (bit_and x z)) (bit_and y z)

abbrev ep0 : ℕ → ℕ
ep0 x = bit_xor (bit_xor (rot_right x 2) (rot_right x 13)) (rot_right x 22)

abbrev ep1 : ℕ → ℕ
ep1 x = bit_xor (bit_xor (rot_right x 6) (rot_right x 11)) (rot_right x 25)

abbrev sig0 : ℕ → ℕ
sig0 x = bit_xor (bit_xor (rot_right x 7) (rot_right x 18)) (shift_right x 3)

abbrev sig1 : ℕ → ℕ
sig1 x = bit_xor (bit_xor (rot_right x 17) (rot_right x 19)) (shift_right x 10)

abbrev next_word : List ℕ → ℕ → ℕ
next_word w i =
    sig1 (get_or w (i - 2) 0)
    +ʷ get_or w (i - 7) 0
    +ʷ sig0 (get_or w (i - 15) 0)
    +ʷ get_or w (i - 16) 0

-- The array `w`.
unfoldable pub words : List ℕ → List ℕ
words work_block = fill next_word 48 16 (fill (λ w i. word_big work_block i) 16 0 [])

pub record Registers : Type 0 where
  pub a : ℕ
  pub b : ℕ
  pub c : ℕ
  pub d : ℕ
  pub e : ℕ
  pub f : ℕ
  pub g : ℕ
  pub h : ℕ

unfoldable pub round : ℕ → ℕ → Registers → Registers
round k w r =
    let t1 : ℕ = r.h +ʷ ep1 r.e +ʷ ch r.e r.f r.g +ʷ k +ʷ w in
    let t2 : ℕ = ep0 r.a +ʷ maj r.a r.b r.c in
    record { a = t1 +ʷ t2; b = r.a; c = r.b; d = r.c; e = r.d +ʷ t1; f = r.e; g = r.f; h = r.g }

-- The rounds over `k` and `w`.
unfoldable pub rounds : List ℕ → List ℕ → Registers → Registers
unfolding round
rounds [] ws r = r
rounds (k ∷ ks) [] r = r
rounds (k ∷ ks) (w ∷ ws) r = rounds ks ws (round k w r)

unfoldable pub process_block : List ℕ → List ℕ → List ℕ
unfolding words rounds
process_block hash work_block =
    let at : ℕ → ℕ = λ i. get_or hash i 0 in
    let r : Registers =
      rounds round_constants (words work_block) (record {
        a = at 0;
        b = at 1;
        c = at 2;
        d = at 3;
        e = at 4;
        f = at 5;
        g = at 6;
        h = at 7;
      }) in
    (at 0 +ʷ r.a)
    ∷ (at 1 +ʷ r.b)
    ∷ (at 2 +ʷ r.c)
    ∷ (at 3 +ʷ r.d)
    ∷ (at 4 +ʷ r.e)
    ∷ (at 5 +ʷ r.f)
    ∷ (at 6 +ʷ r.g)
    ∷ (at 7 +ʷ r.h)
    ∷ []

-- The constructor: the work block holds whatever was there.
unfoldable pub init : List ℕ → Context
unfolding reset
init work_block = reset (record { hash = []; message_size = 0; work_block = work_block })

unfoldable pub update : Context → List ℕ → Context
unfolding Digest.update process_block
update = Digest.update process_block

unfoldable pub digest : Context → List ℕ × Context
unfolding Digest.digest process_block
digest = Digest.digest process_block true

unfoldable pub digest_string : Context → List ℕ × Context
unfolding digest hex
digest_string c = let (hash, c') = digest c in (hex hash, c')

unfoldable pub sha256 : List ℕ → List ℕ → List ℕ
unfolding init update digest_string
sha256 work_block buffer = (digest_string (update (init work_block) buffer)).0

unfoldable pub sha256_binary : List ℕ → List ℕ → List ℕ
unfolding init update digest
sha256_binary work_block buffer = (digest (update (init work_block) buffer)).0
