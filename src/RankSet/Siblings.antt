-- ===== src/RankSet/Siblings.antt =====
-- Cases 2, 3 and 4 of `eraseNodeFixup`, in which the sibling of node_x is black.
use brickred_server.Base.{
  ℕ, ◌+◌, ◌≡◌, refl, Bool, true, false, Option, some, List, ◌∷◌, append_assoc, arith, Bool-cases,
  inl, inr, ◌>>=◌,
}
use brickred_server.RankSet.Nodes.{
  Tree, leaf, node, Frame, left_of, right_of, is_red, count, paint, root_of, counted, rotate_left,
  rotate_right,
}
use brickred_server.RankSet.Rebalance.{
  erase_last_left, erase_last_right, erase_black_left, erase_black_right, recounted_root,
}
use brickred_server.RankSet.Balance.{
  black, height, IsBalanced, Holds, Holds-same, Holds-black, to_list, root_of-IsBalanced,
  update_node_count_same, update_above_same,
}
use brickred_server.RankSet.Inserting.{same_values}

module _ {ℓ} {A : Type ℓ} where
  -- A red-black tree with a black root and the given values comes out.
  abbrev pub Erased : Option (Tree A) → List A → Type ℓ
  Erased r vs = (t : Tree A) × (r ≡ some t) × IsBalanced t × (is_red t ≡ false) × (to_list t ≡ vs)

  pub paint_same : (t : Tree A) → is_red t ≡ false → paint false t ≡ t
  paint_same leaf e = refl
  paint_same (node c l n v r) e = rw e refl

  -- A balanced tree in the place of another one with the same values.
  module _ (t s : Tree A) (p : List (Frame A)) (g : IsBalanced t)
      (k : Holds (count t) (height t) (is_red t) p) (values : to_list t ≡ to_list s) where
    pub in_place : Erased (some (root_of t p)) (to_list (root_of s p))
    in_place =
        let (good, b) = root_of-IsBalanced t p g k in
        (root_of t p, refl, good, b, same_values t s p values)

  recounted_left :
      (c : Bool) (l : Tree A) (n : ℕ) (v : A) (r : Tree A) (p : List (Frame A))
      → IsBalanced (node c l n v r)
      → Holds n (height l + black c) c p
      → recounted_root (l, left_of c n v r ∷ p) ≡ root_of (node c l n v r) p
  recounted_left c l n v r p g k =
      rw (update_node_count_same l g.0)
        (rw (← g.2) (rw (update_above_same n (height l + black c) c p k) refl))

  recounted_right :
      (c : Bool) (l : Tree A) (n : ℕ) (v : A) (r : Tree A) (p : List (Frame A))
      → IsBalanced (node c l n v r)
      → Holds n (height l + black c) c p
      → recounted_root (r, right_of c l n v ∷ p) ≡ root_of (node c l n v r) p
  recounted_right c l n v r p g k =
      rw (update_node_count_same r g.1)
        (rw (← g.2) (rw (update_above_same n (height l + black c) c p k) refl))

  erase_last_left_lem :
      (c : Bool) (x : Tree A) (n : ℕ) (v : A) (cw : Bool) (w1 : Tree A) (m : ℕ) (y : A)
      (w2 : Tree A) (p : List (Frame A))
      → IsBalanced x
      → is_red x ≡ false
      → cw ≡ false
      → is_red w2 ≡ true
      → Holds (count x) (height x + 1) false (left_of c n v (node cw w1 m y w2) ∷ p)
      → Erased
          (erase_last_left c x n v (node cw w1 m y w2) p)
          (to_list (root_of (node c x n v (node cw w1 m y w2)) p))
  unfolding erase_last_left
  erase_last_left_lem c x n v cw w1 m y leaf p gx bx bw red k = cc
  erase_last_left_lem c x n v cw w1 m y (node c2 l2 n2 v2 r2) p gx bx bw red k =
      let low = counted false x v w1 in
      let far = node false l2 n2 v2 r2 in
      let good : IsBalanced (counted c low y far) = ground arith in
      let above : Holds (count low + n2 + 1) (height low + black c) c p =
        Holds-same c p (ground arith) (ground arith) k.4 in
      rw (paint_same x bx) (
        rw (recounted_left c low (count low + n2 + 1) y far p good above) (
          in_place (counted c low y far) (node c x n v (node cw w1 m y (node c2 l2 n2 v2 r2))) p
            good above (simp append_assoc)))

  erase_last_right_lem :
      (c : Bool) (cw : Bool) (w1 : Tree A) (m : ℕ) (y : A) (w2 : Tree A) (n : ℕ) (v : A)
      (x : Tree A) (p : List (Frame A))
      → IsBalanced x
      → is_red x ≡ false
      → cw ≡ false
      → is_red w1 ≡ true
      → Holds (count x) (height x + 1) false (right_of c (node cw w1 m y w2) n v ∷ p)
      → Erased
          (erase_last_right c (node cw w1 m y w2) n v x p)
          (to_list (root_of (node c (node cw w1 m y w2) n v x) p))
  unfolding erase_last_right
  erase_last_right_lem c cw leaf m y w2 n v x p gx bx bw red k = cc
  erase_last_right_lem c cw (node c1 l1 n1 v1 r1) m y w2 n v x p gx bx bw red k =
      let low = counted false w2 v x in
      let far = node false l1 n1 v1 r1 in
      let good : IsBalanced (counted c far y low) = ground arith in
      let above : Holds (n1 + count low + 1) (height far + black c) c p =
        Holds-same c p (ground arith) (ground arith) k.4 in
      rw (paint_same x bx) (
        rw (recounted_right c far (n1 + count low + 1) y low p good above) (
          in_place (counted c far y low) (node c (node cw (node c1 l1 n1 v1 r1) m y w2) n v x) p
            good above (simp append_assoc)))

  -- Case 3 and then case 4: the near child of the sibling is red.
  erase_near_left_lem :
      (c : Bool) (x : Tree A) (n : ℕ) (v : A) (cw : Bool) (w1 : Tree A) (m : ℕ) (y : A)
      (w2 : Tree A) (p : List (Frame A))
      → IsBalanced x
      → is_red x ≡ false
      → cw ≡ false
      → is_red w1 ≡ true
      → is_red w2 ≡ false
      → Holds (count x) (height x + 1) false (left_of c n v (node cw w1 m y w2) ∷ p)
      → Erased
          (rotate_right (node true (paint false w1) m y w2) >>= λ w. erase_last_left c x n v w p)
          (to_list (root_of (node c x n v (node cw w1 m y w2)) p))
  erase_near_left_lem c x n v cw leaf m y w2 p gx bx bw red b2 k = cc
  erase_near_left_lem c x n v cw (node c1 a i z b) m y w2 p gx bx bw red b2 k =
      let low = counted true b y w2 in
      rw
        (same_values (node c x n v (node cw (node c1 a i z b) m y w2))
          (node c x n v (counted false a z low)) p (simp append_assoc))
        (erase_last_left_lem c x n v false a (count a + count low + 1) z low p gx bx refl refl
          (ground arith))

  erase_near_right_lem :
      (c : Bool) (cw : Bool) (w1 : Tree A) (m : ℕ) (y : A) (w2 : Tree A) (n : ℕ) (v : A)
      (x : Tree A) (p : List (Frame A))
      → IsBalanced x
      → is_red x ≡ false
      → cw ≡ false
      → is_red w1 ≡ false
      → is_red w2 ≡ true
      → Holds (count x) (height x + 1) false (right_of c (node cw w1 m y w2) n v ∷ p)
      → Erased
          (rotate_left (node true w1 m y (paint false w2)) >>= λ w. erase_last_right c w n v x p)
          (to_list (root_of (node c (node cw w1 m y w2) n v x) p))
  erase_near_right_lem c cw w1 m y leaf n v x p gx bx bw b1 red k = cc
  erase_near_right_lem c cw w1 m y (node c2 a i z b) n v x p gx bx bw b1 red k =
      let low = counted true w1 y a in
      let above : Holds n (height low + 1 + black c) c p = Holds-same c p refl (ground arith) k.4 in
      rw
        (same_values (node c (node cw w1 m y (node c2 a i z b)) n v x)
          (node c (counted false low z b) n v x) p (simp append_assoc))
        (erase_last_right_lem c false low (count low + count b + 1) z b n v x p gx bx refl refl
          (ground arith, ground arith, ground arith, ground arith, above))

  -- Cases 2 to 4, where `again` is right when it is called.
  module _ (again : Tree A → List (Frame A) → Option (Tree A)) where
    abbrev pub AgainAt : Bool → List (Frame A) → Type ℓ
    AgainAt c p =
        (t : Tree A)
        → IsBalanced (paint false t)
        → is_red t ≡ c
        → Holds (count t) (height t + 1) false p
        → Erased (again t p) (to_list (root_of t p))

    pub erase_black_left_lem :
        (c : Bool) (x : Tree A) (n : ℕ) (v : A) (w : Tree A) (p : List (Frame A))
        → IsBalanced x
        → is_red x ≡ false
        → is_red w ≡ false
        → Holds (count x) (height x + 1) false (left_of c n v w ∷ p)
        → AgainAt c p
        → Erased (erase_black_left again (node c x n v w) p) (to_list (root_of (node c x n v w) p))
    unfolding erase_black_left
    erase_black_left_lem c x n v leaf p gx bx bw k ih = absurd (omega arith)
    erase_black_left_lem c x n v (node cw w1 m y w2) p gx bx bw k ih =
        elim (Bool-cases (is_red w2)) [
          | inl far ↦ elim (Bool-cases (is_red w1)) [
            | inl near ↦ rw (near, far) (erase_last_left_lem c x n v cw w1 m y w2 p gx bx bw far k)
            | inr b1 ↦ rw (b1, far) (erase_last_left_lem c x n v cw w1 m y w2 p gx bx bw far k)
          ]
          | inr b2 ↦ elim (Bool-cases (is_red w1)) [
            | inl near ↦
                rw (near, b2) (erase_near_left_lem c x n v cw w1 m y w2 p gx bx bw near b2 k)
            | inr b1 ↦
                rw (b1, b2)
                  (rw
                    (same_values (node c x n v (node cw w1 m y w2))
                      (node c x n v (node true w1 m y w2)) p refl)
                    (ih (node c x n v (node true w1 m y w2)) (ground arith) refl (
                      Holds-same false p refl (ground arith)
                        (Holds-black n (height x + 1 + black c) c p k.4))))
          ]
        ]

    pub erase_black_right_lem :
        (c : Bool) (w : Tree A) (n : ℕ) (v : A) (x : Tree A) (p : List (Frame A))
        → IsBalanced x
        → is_red x ≡ false
        → is_red w ≡ false
        → Holds (count x) (height x + 1) false (right_of c w n v ∷ p)
        → AgainAt c p
        → Erased (erase_black_right again (node c w n v x) p) (to_list (root_of (node c w n v x) p))
    unfolding erase_black_right
    erase_black_right_lem c leaf n v x p gx bx bw k ih = absurd (omega arith)
    erase_black_right_lem c (node cw w1 m y w2) n v x p gx bx bw k ih =
        elim (Bool-cases (is_red w1)) [
          | inl far ↦ elim (Bool-cases (is_red w2)) [
            | inl near ↦ rw (near, far) (erase_last_right_lem c cw w1 m y w2 n v x p gx bx bw far k)
            | inr b2 ↦ rw (b2, far) (erase_last_right_lem c cw w1 m y w2 n v x p gx bx bw far k)
          ]
          | inr b1 ↦ elim (Bool-cases (is_red w2)) [
            | inl near ↦
                rw (near, b1) (erase_near_right_lem c cw w1 m y w2 n v x p gx bx bw b1 near k)
            | inr b2 ↦
                rw (b1, b2)
                  (rw
                    (same_values (node c (node cw w1 m y w2) n v x)
                      (node c (node true w1 m y w2) n v x) p refl)
                    (ih (node c (node true w1 m y w2) n v x) (ground arith) refl (
                      Holds-same false p refl (ground arith)
                        (Holds-black n (height w1 + black cw + black c) c p k.4))))
          ]
        ]
