-- ===== src/Mt19937.antt =====
-- src/brickred/codec/mt19937.cc: the Mersenne Twister. `mt_` is a list of 624 words, and `mti_` a
-- number. The class without `Impl` only passes the calls on. `nextDouble` is not modelled.
pub mod Range
pub mod Below
mod Tests
use brickred_server.Base.{
  ℕ, zero, suc, ◌+◌, ◌-◌, ◌*◌, ◌/◌, ◌%◌, ◌^◌, max, bit_and, bit_or, bit_xor, Option, none, some,
  List, [], ◌∷◌, length, get_or, overlay, ltb, leb, ◌==◌, if◌then◌else◌, ◌>>=◌,
}

pub record Impl : Type 0 where
  pub mt : List ℕ
  pub mti : ℕ

abbrev pub word : List ℕ → ℕ → ℕ
word mt i = get_or mt i 0

-- `mt_[i] = x`
abbrev pub set : List ℕ → ℕ → ℕ → List ℕ
set mt i x = overlay mt i (x ∷ [])

-- `mt_[i] ^ (mt_[i] >> 30)`
abbrev folded : ℕ → ℕ
folded x = bit_xor x (x / 2 ^ 30)

-- The words from `mt_[i]` on, where `prev` is `mt_[i - 1]`.
unfoldable pub seed_words : ℕ → ℕ → ℕ → List ℕ
seed_words zero i prev = []
seed_words (suc n) i prev =
    let x : ℕ = (1812433253 * folded prev + i) % 2 ^ 32 in x ∷ seed_words n (suc i) x

unfoldable pub seed : ℕ → Impl
seed s = record { mt = s ∷ seed_words 623 1 s; mti = 624 }

-- `i` after `++i`, and the copy of the last word when it wraps.
unfoldable pub advance : List ℕ → ℕ → List ℕ × ℕ
advance mt i = if leb 624 (suc i) then (set mt 0 (word mt 623), 1) else (mt, suc i)

-- The first loop of the seeding by a key, of `k` rounds.
unfoldable pub mix_key : ℕ → List ℕ → List ℕ → ℕ → ℕ → List ℕ × ℕ
unfolding advance
mix_key zero key mt i j = (mt, i)
mix_key (suc k) key mt i j =
    let mixed : ℕ =
      (bit_xor (word mt i) (folded (word mt (i - 1)) * 1664525 % 2 ^ 32) + get_or key j 0 + j)
      % 2 ^ 32 in
    let (mt', i') = advance (set mt i mixed) i in
    mix_key k key mt' i' (if leb (length key) (suc j) then 0 else suc j)

-- The second loop.
unfoldable pub mix_index : ℕ → List ℕ → ℕ → List ℕ
unfolding advance
mix_index zero mt i = mt
mix_index (suc k) mt i =
    let mixed : ℕ =
      (bit_xor (word mt i) (folded (word mt (i - 1)) * 1566083941 % 2 ^ 32) + (2 ^ 32 - i))
      % 2 ^ 32 in
    let (mt', i') = advance (set mt i mixed) i in mix_index k mt' i'

-- The key is not empty and has fewer than 2 ^ 31 words.
unfoldable pub seed_by_key : List ℕ → Impl
seed_by_key key =
    let start : Impl = seed 19650218 in
    let (mt, i) = mix_key (max 624 (length key)) key start.mt 1 0 in
    record { mt = set (mix_index 623 mt i) 0 0x80000000; mti = start.mti }

-- The assignment to `mt_[i]`, with `y` of the top bit of that word and the others of `mt_[after]`.
abbrev pub twist : List ℕ → ℕ → ℕ → ℕ → List ℕ
twist mt i after from =
    let y : ℕ = bit_or (bit_and (word mt i) 0x80000000) (bit_and (word mt after) 0x7fffffff) in
    set mt i (bit_xor (bit_xor (word mt from) (y / 2)) (if y % 2 == 0 then 0 else 0x9908b0df))

-- The loops over `i`, of `n` rounds; `from` is `i + M` or `i + (M - N)`.
unfoldable pub twist_loop : ℕ → ℕ → ℕ → List ℕ → List ℕ
twist_loop zero i from mt = mt
twist_loop (suc n) i from mt = twist_loop n (suc i) (suc from) (twist mt i (suc i) from)

unfoldable pub generate : List ℕ → List ℕ
generate mt = twist (twist_loop 396 227 0 (twist_loop 227 0 397 mt)) 623 0 396

abbrev pub temper : ℕ → ℕ
temper y0 =
    let y1 : ℕ = bit_xor y0 (y0 / 2 ^ 11) in
    let y2 : ℕ = bit_xor y1 (bit_and (y1 * 2 ^ 7 % 2 ^ 32) 0x9d2c5680) in
    let y3 : ℕ = bit_xor y2 (bit_and (y2 * 2 ^ 15 % 2 ^ 32) 0xefc60000) in bit_xor y3 (y3 / 2 ^ 18)

unfoldable pub next_int : Impl → ℕ × Impl
next_int g =
    let ready : Impl = if leb 624 g.mti then record { mt = generate g.mt; mti = 0 } else g in
    (temper (word ready.mt ready.mti), record ready { mti = suc ready.mti })

-- `(-max) % max`
unfoldable pub drop_threshold : ℕ → ℕ
drop_threshold max = (2 ^ 32 - max) % max

-- The rejection loop, on fuel.
unfoldable pub sample : ℕ → ℕ → Impl → Option (ℕ × Impl)
sample zero max g = none
sample (suc fuel) max g =
    let (r, g') = next_int g in
    let again = sample fuel max g' in
    if ltb r (drop_threshold max) then again else some (r % max, g')

unfoldable pub next_int_below : ℕ → ℕ → Impl → Option (ℕ × Impl)
next_int_below fuel max g = if leb max 1 then some (0, g) else sample fuel max g

unfoldable pub next_int_between : ℕ → ℕ → ℕ → Impl → Option (ℕ × Impl)
next_int_between fuel min max g =
    if leb max min
    then some (min, g)
    else if max - min == 2 ^ 32 - 1
    then some (next_int g)
    else (next_int_below fuel (max - min + 1) g >>= λ (r, g'). some ((min + r) % 2 ^ 32, g'))
