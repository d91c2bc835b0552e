-- ===== src/Digest/Md5.antt =====
-- src/brickred/codec/md5.cc: the class `Md5` and the functions over it.
pub mod Standard
use brickred_server.Base.{
  ℕ, zero, suc, ◌+◌, ◌-◌, bit_and, bit_or, bit_xor, false, List, [], ◌∷◌, get_or,
}
use brickred_server.Digest
use brickred_server.Digest.{Context}
use brickred_server.Digest.Hex.{hex}
use brickred_server.Digest.Word32.{◌+ʷ◌, bit_not, rot_left, word_little, fill}

abbrev pub initial_hash : List ℕ
initial_hash = 0x67452301 ∷ 0xefcdab89 ∷ 0x98badcfe ∷ 0x10325476 ∷ []

unfoldable pub reset : Context → Context
reset c = record c { hash = initial_hash; message_size = 0 }

-- `F`, `G`, `H` and `I`.
abbrev mix_f : ℕ → ℕ → ℕ → ℕ
mix_f x y z = bit_or (bit_and x y) (bit_and (bit_not x) z)

abbrev mix_g : ℕ → ℕ → ℕ → ℕ
mix_g x y z = bit_or (bit_and x z) (bit_and y (bit_not z))

abbrev mix_h : ℕ → ℕ → ℕ → ℕ
mix_h x y z = bit_xor (bit_xor x y) z

abbrev mix_i : ℕ → ℕ → ℕ → ℕ
mix_i x y z = bit_xor y (bit_or x (bit_not z))

-- The first 16 elements of the array `w`; the others are never read.
unfoldable pub words : List ℕ → List ℕ
words work_block = fill (λ w i. word_little work_block i) 16 0 []

-- The arguments `_a`, `_b`, `_c` and `_d` of a call of `FF`, `GG`, `HH` or `II`.
pub record Registers : Type 0 where
  pub a : ℕ
  pub b : ℕ
  pub c : ℕ
  pub d : ℕ

-- A call, and the turn of the names that the next call makes: `(a, b, c, d)`, then `(d, a, b, c)`.
unfoldable pub step : (ℕ → ℕ → ℕ → ℕ) → ℕ → ℕ → ℕ → Registers → Registers
step f m s t r =
    let sum : ℕ = r.a +ʷ (f r.b r.c r.d +ʷ m +ʷ t) in
    record { a = r.d; b = r.b +ʷ rot_left sum s; c = r.b; d = r.c }

-- `_m` as an index of `w`, `_s` and `_t` of the calls in their order.
abbrev pub ff_calls : List (ℕ × (ℕ × ℕ))
ff_calls =
    (0, (7, 0xd76aa478))
    ∷ (1, (12, 0xe8c7b756))
    ∷ (2, (17, 0x242070db))
    ∷ (3, (22, 0xc1bdceee))
    ∷ (4, (7, 0xf57c0faf))
    ∷ (5, (12, 0x4787c62a))
    ∷ (6, (17, 0xa8304613))
    ∷ (7, (22, 0xfd469501))
    ∷ (8, (7, 0x698098d8))
    ∷ (9, (12, 0x8b44f7af))
    ∷ (10, (17, 0xffff5bb1))
    ∷ (11, (22, 0x895cd7be))
    ∷ (12, (7, 0x6b901122))
    ∷ (13, (12, 0xfd987193))
    ∷ (14, (17, 0xa679438e))
    ∷ (15, (22, 0x49b40821))
    ∷ []

abbrev pub gg_calls : List (ℕ × (ℕ × ℕ))
gg_calls =
    (1, (5, 0xf61e2562))
    ∷ (6, (9, 0xc040b340))
    ∷ (11, (14, 0x265e5a51))
    ∷ (0, (20, 0xe9b6c7aa))
    ∷ (5, (5, 0xd62f105d))
    ∷ (10, (9, 0x02441453))
    ∷ (15, (14, 0xd8a1e681))
    ∷ (4, (20, 0xe7d3fbc8))
    ∷ (9, (5, 0x21e1cde6))
    ∷ (14, (9, 0xc33707d6))
    ∷ (3, (14, 0xf4d50d87))
    ∷ (8, (20, 0x455a14ed))
    ∷ (13, (5, 0xa9e3e905))
    ∷ (2, (9, 0xfcefa3f8))
    ∷ (7, (14, 0x676f02d9))
    ∷ (12, (20, 0x8d2a4c8a))
    ∷ []

abbrev pub hh_calls : List (ℕ × (ℕ × ℕ))
hh_calls =
    (5, (4, 0xfffa3942))
    ∷ (8, (11, 0x8771f681))
    ∷ (11, (16, 0x6d9d6122))
    ∷ (14, (23, 0xfde5380c))
    ∷ (1, (4, 0xa4beea44))
    ∷ (4, (11, 0x4bdecfa9))
    ∷ (7, (16, 0xf6bb4b60))
    ∷ (10, (23, 0xbebfbc70))
    ∷ (13, (4, 0x289b7ec6))
    ∷ (0, (11, 0xeaa127fa))
    ∷ (3, (16, 0xd4ef3085))
    ∷ (6, (23, 0x04881d05))
    ∷ (9, (4, 0xd9d4d039))
    ∷ (12, (11, 0xe6db99e5))
    ∷ (15, (16, 0x1fa27cf8))
    ∷ (2, (23, 0xc4ac5665))
    ∷ []

abbrev pub ii_calls : List (ℕ × (ℕ × ℕ))
ii_calls =
    (0, (6, 0xf4292244))
    ∷ (7, (10, 0x432aff97))
    ∷ (14, (15, 0xab9423a7))
    ∷ (5, (21, 0xfc93a039))
    ∷ (12, (6, 0x655b59c3))
    ∷ (3, (10, 0x8f0ccc92))
    ∷ (10, (15, 0xffeff47d))
    ∷ (1, (21, 0x85845dd1))
    ∷ (8, (6, 0x6fa87e4f))
    ∷ (15, (10, 0xfe2ce6e0))
    ∷ (6, (15, 0xa3014314))
    ∷ (13, (21, 0x4e0811a1))
    ∷ (4, (6, 0xf7537e82))
    ∷ (11, (10, 0xbd3af235))
    ∷ (2, (15, 0x2ad7d2bb))
    ∷ (9, (21, 0xeb86d391))
    ∷ []

unfoldable pub round : (ℕ → ℕ → ℕ → ℕ) → List (ℕ × (ℕ × ℕ)) → List ℕ → Registers → Registers
unfolding step
round f [] ws r = r
round f ((m, (s, t)) ∷ calls) ws r = round f calls ws (step f (get_or ws m 0) s t r)

unfoldable pub rounds : List ℕ → Registers → Registers
unfolding round
rounds ws r =
    round mix_i ii_calls ws
      (round mix_h hh_calls ws (round mix_g gg_calls ws (round mix_f ff_calls ws r)))

unfoldable pub process_block : List ℕ → List ℕ → List ℕ
unfolding words rounds
process_block hash work_block =
    let at : ℕ → ℕ = λ i. get_or hash i 0 in
    let r : Registers =
      rounds (words work_block) (record { a = at 0; b = at 1; c = at 2; d = at 3 }) in
    (at 0 +ʷ r.a) ∷ (at 1 +ʷ r.b) ∷ (at 2 +ʷ r.c) ∷ (at 3 +ʷ r.d) ∷ []

-- The constructor: the work block holds whatever was there.
unfoldable pub init : List ℕ → Context
unfolding reset
init work_block = reset (record { hash = []; message_size = 0; work_block = work_block })

unfoldable pub update : Context → List ℕ → Context
unfolding Digest.update process_block
update = Digest.update process_block

unfoldable pub digest : Context → List ℕ × Context
unfolding Digest.digest process_block
digest = Digest.digest process_block false

unfoldable pub digest_string : Context → List ℕ × Context
unfolding digest hex
digest_string c = let (hash, c') = digest c in (hex hash, c')

unfoldable pub md5 : List ℕ → List ℕ → List ℕ
unfolding init update digest_string
md5 work_block buffer = (digest_string (update (init work_block) buffer)).0

unfoldable pub md5_binary : List ℕ → List ℕ → List ℕ
unfolding init update digest
md5_binary work_block buffer = (digest (update (init work_block) buffer)).0
