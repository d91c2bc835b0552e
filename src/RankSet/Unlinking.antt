-- ===== src/RankSet/Unlinking.antt =====
-- `eraseNode` takes a node out of the tree and leaves a red-black tree with the other values.
use brickred_server.Base.{
  ℕ, ◌+◌, ◌≡◌, refl, ◌∙◌, ap, Bool, true, false, ◌&&◌, List, [], ◌∷◌, ◌++◌, append_assoc, arith,
  length,
}
use brickred_server.RankSet.Nodes.{
  Tree, leaf, node, Frame, left_of, right_of, is_red, count, root_of, update_above, leftmost,
}
use brickred_server.RankSet.Balance.{
  black, height, IsBalanced, Holds, Holds-same, Holds-black, to_list, before, after,
  root_of-IsBalanced, paint-IsBalanced, to_list-root_of,
}
use brickred_server.RankSet.Searching.{before-update_above, after-update_above, update_above-Holds}
use brickred_server.RankSet.Siblings.{Erased}
use brickred_server.RankSet.Erasing.{erase_node_fixup_lem}
use brickred_server.RankSet.{erase_settled, erase_tree, unlink}

module _ {ℓ} {A : Type ℓ} where
  abbrev SameAbove : List (Frame A) → List (Frame A) → Type ℓ
  SameAbove p q = (c : ℕ) → update_above c p ≡ update_above c q

  -- Where the counts above a place are updated, those that stood there do not matter.
  SameAbove-leftmost :
      (t : Tree A) (p q : List (Frame A))
      → SameAbove p q
      → SameAbove (leftmost t p).1 (leftmost t q).1
  SameAbove-leftmost leaf p q e = e
  SameAbove-leftmost (node c leaf n v r) p q e = e
  SameAbove-leftmost (node c (node b l m u s) n v r) p q e =
      SameAbove-leftmost (node b l m u s) (left_of c n v r ∷ p) (left_of c n v r ∷ q)
        λ k. ap (λ w. left_of c (k + count r + 1) v r ∷ w) (e (k + count r + 1))

  leftmost_tree : (t : Tree A) (p q : List (Frame A)) → (leftmost t p).0 ≡ (leftmost t q).0
  leftmost_tree leaf p q = refl
  leftmost_tree (node c leaf n v r) p q = refl
  leftmost_tree (node c (node b l m u s) n v r) p q =
      leftmost_tree (node b l m u s) (left_of c n v r ∷ p) (left_of c n v r ∷ q)

  leftmost_node :
      (c : Bool) (l : Tree A) (n : ℕ) (x : A) (r : Tree A) (p : List (Frame A))
      → (c' : Bool) × (n' : ℕ) × (x' : A) × (r' : Tree A) × ((leftmost (node c l n x r) p).0
          ≡ node c' leaf n' x' r')
  leftmost_node c leaf n x r p = (c, n, x, r, refl)
  leftmost_node c (node c' l' n' x' r') n x r p = leftmost_node c' l' n' x' r' (left_of c n x r ∷ p)

  -- The leftmost place below a place at which the tree is in balance.
  leftmost_lem :
      (t : Tree A) (p : List (Frame A))
      → IsBalanced t
      → Holds (count t) (height t) (is_red t) p
      → (let m = leftmost t p in
          IsBalanced m.0
          × Holds (count m.0) (height m.0) (is_red m.0) m.1
          × (before m.1 ≡ before p)
          × (to_list m.0 ++ after m.1 ≡ to_list t ++ after p))
  leftmost_lem leaf p g k = (g, k, refl, refl)
  leftmost_lem (node c leaf n v r) p g k = (g, k, refl, refl)
  leftmost_lem (node c (node b l m u s) n v r) p g k =
      let (g', k', b', a') =
        leftmost_lem (node b l m u s) (left_of c n v r ∷ p) g.0 (g.1, g.2, g.3, g.4, k) in
      (g', k', b', a' ∙ simp append_assoc)

  -- The tree is settled when a node of colour `c` has gone from above `x`.
  settled_lem :
      (x : Tree A) (p q : List (Frame A)) (c : Bool) (k : ℕ) {vs : List A}
      → SameAbove p q
      → IsBalanced x
      → Holds k (height x + black c) c q
      → (c && is_red x) ≡ false
      → before q ++ (to_list x ++ after q) ≡ vs
      → Erased (erase_settled (x, p, c)) vs
  settled_lem x p q true k e g hq b wanted =
      let p' = update_above (count x) q in
      let hold : Holds (count x) (height x) (is_red x) p' = rw b (
        update_above-Holds k (count x) (height x) false q
          (Holds-same false q refl (omega arith) (Holds-black k (height x + 0) true q hq))) in
      let (good, top) = root_of-IsBalanced x p' g hold in
      rw (e (count x)) (
        root_of x p',
        refl,
        good,
        top,
        to_list-root_of x p'
            ∙ rw (before-update_above (count x) q, after-update_above (count x) q) wanted,
      )
  settled_lem x p q false k e g hq b wanted =
      let p' = update_above (count x) q in
      let hold : Holds (count x) (height x + 1) false p' =
        update_above-Holds k (count x) (height x + 1) false q hq in
      let (t, et, good, top, vs) =
        erase_node_fixup_lem (length p' + 2) x p' (ground arith) (paint-IsBalanced x g).0 hold in
      rw (e (count x)) (
        t,
        et,
        good,
        top,
        vs
            ∙ to_list-root_of x p'
            ∙ rw (before-update_above (count x) q, after-update_above (count x) q) wanted,
      )

  regroup : (xs ys zs : List A) (y : A) → (xs ++ (ys ++ (y ∷ []))) ++ zs ≡ xs ++ (ys ++ (y ∷ zs))
  regroup xs ys zs y = simp append_assoc

  pub erase_tree_lem :
      (c : Bool) (l : Tree A) (n : ℕ) (z : A) (r : Tree A) (p : List (Frame A))
      → IsBalanced (node c l n z r)
      → Holds n (height l + black c) c p
      → Erased (erase_tree (node c l n z r) p) (before p ++ (to_list l ++ (to_list r ++ after p)))
  unfolding erase_tree unlink
  erase_tree_lem c leaf n z r p g k =
      settled_lem r p p c n (λ i. refl) g.1 (Holds-same c p refl (ground arith) k) (g.4) refl
  erase_tree_lem c (node cl ll nl vl rl) n z leaf p g k =
      settled_lem (node cl ll nl vl rl) p p c n (λ i. refl) g.0 k (ground arith) refl
  erase_tree_lem c (node cl ll nl vl rl) n z (node cr lr nr vr rr) p g k =
      let (cy, ny, y, yr, found) = leftmost_node cr lr nr vr rr [] in
      let old_path = right_of c (node cl ll nl vl rl) ny y ∷ p in
      let path = right_of c (node cl ll nl vl rl) n y ∷ p in
      let m = leftmost (node cr lr nr vr rr) path in
      let (gm, km, bm, am) = leftmost_lem (node cr lr nr vr rr) path g.1 (g.0, g.2, g.3, g.4, k) in
      let here : m.0 ≡ node cy leaf ny y yr = leftmost_tree (node cr lr nr vr rr) path [] ∙ found in
      rw found (
        settled_lem yr (leftmost (node cr lr nr vr rr) old_path).1 m.1 cy ny
          (SameAbove-leftmost (node cr lr nr vr rr) old_path path (λ i. refl)) (rw here at gm).1
          (Holds-same cy m.1 refl (omega (arith, (rw here at gm).3)) (rw here at km))
          (rw here at gm).4
          (ap (λ (w : List A). w ++ (to_list yr ++ after m.1)) bm
            ∙ regroup (before p) (to_list (node cl ll nl vl rl)) (to_list yr ++ after m.1) y
            ∙ ap (λ (w : List A). before p ++ (to_list (node cl ll nl vl rl) ++ w))
                (rw here at am)))
