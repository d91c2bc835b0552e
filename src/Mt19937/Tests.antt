-- ===== src/Mt19937/Tests.antt =====
-- Runs of mt19937.cc, and its theorems at such inputs.
use brickred_server.Base.{some, ap, ◌%◌, ◌<◌, ◌≡◌, refl, [], ◌∷◌, arith}
use brickred_server.Mt19937.{
  seed, seed_by_key, seed_words, mix_key, mix_index, advance, next_int, generate, twist_loop,
  next_int_below,
}
use brickred_server.Mt19937.Below.{nothing, next_int_below_lem}

first_output : (next_int (seed 5489)).0 ≡ 3499211612
unfolding next_int seed seed_words generate twist_loop
first_output = refl

first_draw : next_int (seed 5489) ≡ (3499211612, (next_int (seed 5489)).1)
first_draw = ap (λ r. (r, (next_int (seed 5489)).1)) first_output

-- The first output of the reference implementation for this key.
first_output_by_key : (next_int (seed_by_key (0x123 ∷ 0x234 ∷ 0x345 ∷ 0x456 ∷ []))).0 ≡ 1067595299
unfolding next_int seed_by_key mix_key mix_index advance seed seed_words generate twist_loop
first_output_by_key = refl

-- The first word of this seed is above the threshold of 6, which is 4.
next_int_below_lem_example :
    (next_int_below 1 6 (seed 5489) ≡ some (3499211612 % 6, (next_int (seed 5489)).1))
    × (3499211612 % 6 < 6)
next_int_below_lem_example =
    next_int_below_lem 6 1 0 3499211612 (seed 5489) (seed 5489) (next_int (seed 5489)).1
      (omega arith) (omega arith) (omega arith) nothing first_draw (omega arith)
