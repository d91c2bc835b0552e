-- ===== src/RankSet/Height.antt =====
-- How deep the tree of a set can be, which bounds every search in it.
use brickred_server.Base.{ℕ, ◌+◌, ◌*◌, ◌^◌, ◌≤◌, ◌≡◌, some, List, [], Bool, true, false, max, arith}
use brickred_server.RankSet.Nodes.{Tree, leaf, node, is_red, count}
use brickred_server.RankSet.Balance.{height, IsBalanced}
use brickred_server.RankSet.Valid.{IsValid}
use brickred_server.RankSet.{RankSet, new, size}
use brickred_server.RankSet.Order.{IsOrder}
use brickred_server.RankSet.Run.{Call, run, replay, new-IsValid, run-replay}
use native.Mathlib.Numerals.{towards_suc}

red : Bool → ℕ
red true = 1
red false = 0

red_le : (b : Bool) → red b ≤ 1
unfolding red
red_le true = omega arith
red_le false = omega arith

pow_suc : (h : ℕ) → 2 ^ (h + 1) ≡ 2 * 2 ^ h
pow_suc h = simp towards_suc (omega arith)

module _ {ℓ} {A : Type ℓ} where
  abbrev pub depth : Tree A → ℕ
  depth leaf = 0
  depth (node c l n v r) = 1 + max (depth l) (depth r)

  depth-le : (t : Tree A) → IsBalanced t → depth t ≤ 2 * height t + red (is_red t)
  unfolding red
  depth-le leaf g = omega arith
  depth-le (node true leaf n v leaf) g = omega arith
  depth-le (node true leaf n v (node true a m w b)) g = cc
  depth-le (node true leaf n v (node false a m w b)) g =
      ground (arith, depth-le (node false a m w b) g.1)
  depth-le (node true (node true a m w b) n v r) g = cc
  depth-le (node true (node false a m w b) n v leaf) g =
      ground (arith, depth-le (node false a m w b) g.0)
  depth-le (node true (node false a m w b) n v (node true a' m' w' b')) g = cc
  depth-le (node true (node false a m w b) n v (node false a' m' w' b')) g =
      ground (arith, depth-le (node false a m w b) g.0, depth-le (node false a' m' w' b') g.1)
  depth-le (node false l n v r) g =
      ground (arith, depth-le l g.0, depth-le r g.1, red_le (is_red l), red_le (is_red r))

  -- As many black nodes on the way down make a tree of at least so many nodes.
  pow-height-le : (t : Tree A) → IsBalanced t → 2 ^ height t ≤ count t + 1
  pow-height-le leaf g = omega arith
  pow-height-le (node true l n v r) g = ground (arith, pow-height-le l g.0)
  pow-height-le (node false l n v r) g =
      let right : 2 ^ height l ≤ count r + 1 = rw g.3 (pow-height-le r g.1) in
      omega (arith, pow_suc (height l), pow-height-le l g.0, right, g.2)

  -- The tree of a valid set is at most 2 * h deep for an h with 2 ^ h at most the size and 1.
  pub size_depth :
      {less : A → A → Bool} (s : RankSet A)
      → IsValid less s
      → (h : ℕ) × (depth s.parent ≤ 2 * h) × (2 ^ h ≤ size s + 1)
  unfolding red
  size_depth s h =
      let le : depth s.parent ≤ 2 * height s.parent + 0 =
        rw h.black_root at (depth-le s.parent h.balanced) in
      (
        height s.parent,
        omega (arith, le),
        omega (arith, pow-height-le s.parent h.balanced, h.counts),
      )

module _ {ℓ} {A : Type ℓ} {less : A → A → Bool} (o : IsOrder less) where
  -- Whatever calls are made on a new set, they return, and the tree that they leave is at most
  -- 2 * h deep for an h such that 2 ^ h is at most the size of the set and 1: every search, insertion
  -- and erasure then goes through logarithmically many nodes.
  pub depth-run :
      (cs : List (Call A))
      → (after : RankSet A) × (h : ℕ) × (run less cs new ≡ some (replay less cs [], after))
        × (depth after.parent ≤ 2 * h)
        × (2 ^ h ≤ size after + 1)
  depth-run cs =
      let (after, returned, valid) = run-replay o cs new (new-IsValid o) in
      let (h, deep, large) = size_depth after valid in (after, h, returned, deep, large)
