-- ===== src/Digest/Blocks.antt =====
-- A message cut into blocks of 64 bytes.
use brickred_server.Base.{
  ℕ, zero, suc, ◌+◌, ◌*◌, ◌≤◌, ◌≡◌, refl, ap, ◌∙◌, List, ◌++◌, length, take, drop, arith,
  length-drop, take-append_left, drop-append_left, drop-drop,
}
use brickred_server.Digest.{ProcessBlock}

module _ (process_block : ProcessBlock) where
  -- The hash after the first `n` blocks of a message.
  unfoldable pub run_blocks : ℕ → List ℕ → List ℕ → List ℕ
  run_blocks zero hash m = hash
  run_blocks (suc n) hash m = run_blocks n (process_block hash (take 64 m)) (drop 64 m)

  pub run_blocks-add :
      (a b k : ℕ) (h m : List ℕ)
      → k ≡ a + b
      → run_blocks k h m ≡ run_blocks b (run_blocks a h m) (drop (a * 64) m)
  unfolding run_blocks
  run_blocks-add zero b k h m e =
      let same : k ≡ b = omega arith in ap (λ (n : ℕ). run_blocks n h m) same
  run_blocks-add (suc a) b zero h m e = absurd (omega arith)
  run_blocks-add (suc a) b (suc k) h m e =
      run_blocks-add a b k (process_block h (take 64 m)) (drop 64 m) (omega arith)
      ∙ ap (run_blocks b (run_blocks a (process_block h (take 64 m)) (drop 64 m)))
          (drop-drop (a * 64) 64 (suc a * 64) m (omega arith))

  pub run_blocks-append :
      (n : ℕ) (h m xs : List ℕ) → n * 64 ≤ length m → run_blocks n h (m ++ xs) ≡ run_blocks n h m
  unfolding run_blocks
  run_blocks-append zero h m xs room = refl
  run_blocks-append (suc n) h m xs room =
      rw (take-append_left 64 m xs (omega arith), drop-append_left 64 m xs (omega arith))
        (run_blocks-append n (process_block h (take 64 m)) (drop 64 m) xs
          (omega (arith, length-drop 64 m)))
