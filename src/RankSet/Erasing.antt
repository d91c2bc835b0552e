-- ===== src/RankSet/Erasing.antt =====
-- `eraseNodeFixup` makes a red-black tree of one in which a place is one black node too low.
use brickred_server.Base.{
  ℕ, zero, suc, ◌+◌, ◌≤◌, ◌≡◌, refl, Bool, true, false, Option, List, [], ◌∷◌, append_assoc, arith,
  Bool-cases, inl, inr, length, if◌then◌else◌,
}
use brickred_server.RankSet.Nodes.{
  Tree, leaf, node, Frame, left_of, right_of, is_red, count, paint, root_of,
}
use brickred_server.RankSet.Rebalance.{erase_turn, erase_node_fixup}
use brickred_server.RankSet.Balance.{
  black, height, IsBalanced, Holds, Holds-same, Holds-black, to_list, to_list-paint,
}
use brickred_server.RankSet.Inserting.{same_values}
use brickred_server.RankSet.Siblings.{
  Erased, paint_same, in_place, AgainAt, erase_black_left_lem, erase_black_right_lem,
}

module _ {ℓ} {A : Type ℓ} where
  erase_turn_left :
      (again : Tree A → List (Frame A) → Option (Tree A)) (c : Bool) (x : Tree A) (n : ℕ) (v : A)
      (w : Tree A) (p : List (Frame A))
      → IsBalanced x
      → is_red x ≡ false
      → Holds (count x) (height x + 1) false (left_of c n v w ∷ p)
      → AgainAt again c p
      → ((f : Frame A) → AgainAt again true (f ∷ p))
      → Erased (erase_turn again x (left_of c n v w) p) (to_list (root_of (node c x n v w) p))
  unfolding erase_turn
  erase_turn_left again c x n v leaf p gx bx k ih red_ih =
      erase_black_left_lem again c x n v leaf p gx bx refl k ih
  erase_turn_left again c x n v (node false w1 m y w2) p gx bx k ih red_ih =
      erase_black_left_lem again c x n v (node false w1 m y w2) p gx bx refl k ih
  erase_turn_left again c x n v (node true w1 m y w2) p gx bx k ih red_ih =
      let low = count x + count w1 + 1 in
      let above : Holds (low + count w2 + 1) (height x + 1 + black true + black false) false p =
        Holds-same false p (ground arith) (ground arith)
          (Holds-black n (height x + 1 + black c) c p k.4) in
      rw
        (same_values (node c x n v (node true w1 m y w2))
          (node false (node true x low v w1) (low + count w2 + 1) y w2) p (simp append_assoc))
        (erase_black_left_lem again true x low v w1 (left_of false (low + count w2 + 1) y w2 ∷ p) gx
          bx (ground arith)
          (
            ground arith,
            refl,
            ground arith,
            ground arith,
            (ground arith, refl, ground arith, refl, above),
          )
          (red_ih (left_of false (low + count w2 + 1) y w2)))

  erase_turn_right :
      (again : Tree A → List (Frame A) → Option (Tree A)) (c : Bool) (w : Tree A) (n : ℕ) (v : A)
      (x : Tree A) (p : List (Frame A))
      → IsBalanced x
      → is_red x ≡ false
      → Holds (count x) (height x + 1) false (right_of c w n v ∷ p)
      → AgainAt again c p
      → ((f : Frame A) → AgainAt again true (f ∷ p))
      → Erased (erase_turn again x (right_of c w n v) p) (to_list (root_of (node c w n v x) p))
  unfolding erase_turn
  erase_turn_right again c leaf n v x p gx bx k ih red_ih =
      erase_black_right_lem again c leaf n v x p gx bx refl k ih
  erase_turn_right again c (node false w1 m y w2) n v x p gx bx k ih red_ih =
      erase_black_right_lem again c (node false w1 m y w2) n v x p gx bx refl k ih
  erase_turn_right again c (node true w1 m y w2) n v x p gx bx k ih red_ih =
      let low = count w2 + count x + 1 in
      let above : Holds (count w1 + low + 1) (height w1 + black false) false p =
        Holds-same false p (ground arith) (ground arith)
          (Holds-black n (height w1 + 0 + black c) c p k.4) in
      rw
        (same_values (node c (node true w1 m y w2) n v x)
          (node false w1 (count w1 + low + 1) y (node true w2 low v x)) p (simp append_assoc))
        (erase_black_right_lem again true w2 low v x (right_of false w1 (count w1 + low + 1) y ∷ p)
          gx bx (ground arith)
          (
            ground arith,
            refl,
            ground arith,
            ground arith,
            (ground arith, refl, ground arith, refl, above),
          )
          (red_ih (right_of false w1 (count w1 + low + 1) y)))

  -- The rounds that the loop takes at most.
  abbrev pub rounds : Tree A → List (Frame A) → ℕ
  rounds x p = if is_red x then 1 else length p + 1

  black_at : (t : Tree A) → IsBalanced (paint false t) → is_red t ≡ false → IsBalanced t
  black_at t g e = rw (paint_same t e) at g

  paint_black : (t : Tree A) → is_red (paint false t) ≡ false
  paint_black leaf = refl
  paint_black (node c l n v r) = refl

  -- Painting a red node black makes up for the black node that is missing.
  painted_holds :
      (x : Tree A) (p : List (Frame A))
      → is_red x ≡ true
      → Holds (count x) (height x + 1) false p
      → Holds (count (paint false x)) (height (paint false x)) (is_red (paint false x)) p
  painted_holds leaf p e k = cc
  painted_holds (node c l n v r) p e k = Holds-same false p refl (ground arith) k

  pub erase_node_fixup_lem :
      (fuel : ℕ) (x : Tree A) (p : List (Frame A))
      → rounds x p ≤ fuel
      → IsBalanced (paint false x)
      → Holds (count x) (height x + 1) false p
      → Erased (erase_node_fixup fuel x p) (to_list (root_of x p))
  unfolding erase_node_fixup
  erase_node_fixup_lem zero x p h g k = absurd (ground arith)
  erase_node_fixup_lem (suc fuel) x [] h g k =
      (paint false x, refl, g, paint_black x, to_list-paint false x)
  erase_node_fixup_lem (suc fuel) x (left_of c n v w ∷ p) h g k = elim (Bool-cases (is_red x)) [
    | inl red ↦ rw red (
        in_place (paint false x) x (left_of c n v w ∷ p) g
          (painted_holds x (left_of c n v w ∷ p) red k) (to_list-paint false x))
    | inr b ↦ rw b (
        erase_turn_left (erase_node_fixup fuel) c x n v w p (black_at x g b) b k
          (λ t gt e kt. erase_node_fixup_lem fuel t p (ground arith) gt kt)
          (λ f t gt e kt. erase_node_fixup_lem fuel t (f ∷ p) (ground arith) gt kt))
  ]
  erase_node_fixup_lem (suc fuel) x (right_of c w n v ∷ p) h g k = elim (Bool-cases (is_red x)) [
    | inl red ↦ rw red (
        in_place (paint false x) x (right_of c w n v ∷ p) g
          (painted_holds x (right_of c w n v ∷ p) red k) (to_list-paint false x))
    | inr b ↦ rw b (
        erase_turn_right (erase_node_fixup fuel) c w n v x p (black_at x g b) b k
          (λ t gt e kt. erase_node_fixup_lem fuel t p (ground arith) gt kt)
          (λ f t gt e kt. erase_node_fixup_lem fuel t (f ∷ p) (ground arith) gt kt))
  ]
