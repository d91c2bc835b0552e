-- ===== src/Mt19937/Below.antt =====
-- `nextInt(max)` of src/brickred/codec/mt19937.cc.
use brickred_server.Base.{
  ℕ, zero, suc, ◌+◌, ◌-◌, ◌*◌, ◌%◌, ◌^◌, ◌≤◌, ◌<◌, ◌≡◌, refl, sym, ap, ◌∙◌, true, false, some, leb,
  ltb, arith,
}
use native.Mathlib.Nat.{add-mul-mod_self_right, mod-lt}
use brickred_server.Mt19937.{Impl, next_int, drop_threshold, sample, next_int_below}

-- `n` words in turn that are below 2 ^ 32 % max, and the generator behind them.
pub data Rejects (max : ℕ) : ℕ → Impl → Impl → Type 0 where
  nothing : {g : Impl} → Rejects max 0 g g
  one_more :
      {n r : ℕ} {g next after : Impl}
      → next_int g ≡ (r, next)
      → r < 2 ^ 32 % max
      → Rejects max n next after
      → Rejects max (suc n) g after

drop_threshold_lem : (max : ℕ) → 0 < max → max < 2 ^ 32 → drop_threshold max ≡ 2 ^ 32 % max
unfolding drop_threshold
drop_threshold_lem max some_max small =
    let whole : 2 ^ 32 - max + 1 * max ≡ 2 ^ 32 = omega (arith, small) in
    sym (add-mul-mod_self_right (2 ^ 32 - max) 1 max) ∙ ap (λ n. n % max) whole

sample_lem :
    (max fuel n r : ℕ) {g h after : Impl}
    → 0 < max
    → max < 2 ^ 32
    → n < fuel
    → Rejects max n g h
    → next_int h ≡ (r, after)
    → 2 ^ 32 % max ≤ r
    → sample fuel max g ≡ some (r % max, after)
unfolding sample
sample_lem max zero n r some_max small enough rejected drawn accepted =
    absurd (omega (arith, enough))
sample_lem max (suc fuel) n r some_max small enough nothing drawn accepted =
    let pass : ltb r (drop_threshold max) ≡ false =
      ground (arith, accepted, drop_threshold_lem max some_max small) in
    rw (drawn, sample) (rw pass refl)
sample_lem max (suc fuel) n r some_max small enough (one_more {n = n'} {r = r'} first low later)
      drawn accepted =
    let drop : ltb r' (drop_threshold max) ≡ true =
      ground (arith, low, drop_threshold_lem max some_max small) in
    rw (first, sample)
      (rw drop
        (sample_lem max fuel n' r some_max small (omega (arith, enough)) later drawn accepted))

-- For a max above 1, nextInt(max) draws until a word is not below 2 ^ 32 % max, and returns that
-- word's remainder, which is below max, with the generator behind it; one round for each word drawn
-- is enough.
pub next_int_below_lem :
    (max fuel n r : ℕ) (g h after : Impl)
    → 1 < max
    → max < 2 ^ 32
    → n < fuel
    → Rejects max n g h
    → next_int h ≡ (r, after)
    → 2 ^ 32 % max ≤ r
    → (next_int_below fuel max g ≡ some (r % max, after)) × (r % max < max)
unfolding next_int_below
next_int_below_lem max fuel n r g h after large small enough rejected drawn accepted =
    let not_one : leb max 1 ≡ false = ground (arith, large) in
    (
      rw not_one
          (sample_lem max fuel n r (omega (arith, large)) small enough rejected drawn accepted),
      mod-lt r (omega (arith, large)),
    )
