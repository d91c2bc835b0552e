-- ===== src/RankSet/Inserting.antt =====
-- `insertNodeFixup` makes a red-black tree of one with a red node below a red one.
use brickred_server.Base.{
  ℕ, ◌+◌, ◌≡◌, refl, ◌∙◌, Bool, true, false, Option, some, List, [], ◌∷◌, append_assoc, arith,
  Bool-cases, inl, inr,
}
use brickred_server.RankSet.Nodes.{
  Tree, leaf, node, Frame, left_of, right_of, Place, is_red, count, paint, root_of, counted, plug,
}
use brickred_server.RankSet.Rebalance.{
  insert_rotated, insert_loop, insert_node_fixup, is_red_frame, uncle, recoloured,
}
use brickred_server.RankSet.Balance.{
  black, height, IsBalanced, Holds, Fits, Holds-same, Holds-black, to_list, to_list-root_of,
  paint-IsBalanced, Fits-root_of, update_node_count_same, update_above-Fits, to_list-paint,
}

module _ {ℓ} {A : Type ℓ} where
  -- What the loop has to come to, from a tree with the given values.
  abbrev pub Settled : Option (Place A) → List A → Type ℓ
  Settled r vs =
      (y : Tree A) × (q : List (Frame A)) × (r ≡ some (y, q))
      × IsBalanced y
      × Fits y q
      × (to_list (root_of y q) ≡ vs)

  -- Two trees with the same values, at one place.
  pub same_values :
      (s t : Tree A) (p : List (Frame A))
      → to_list s ≡ to_list t
      → to_list (root_of s p) ≡ to_list (root_of t p)
  same_values s t p e = rw (to_list-root_of s p, to_list-root_of t p, e) refl

  module _ (t : Tree A) (c : Bool) (l : Tree A) (n : ℕ) (v : A) (r : Tree A) (p : List (Frame A))
      (old_red : Bool) (g : IsBalanced (node c l n v r)) (is_black : c ≡ false)
      (counts : count t ≡ n) (heights : height t ≡ height l + black c)
      (values : to_list (node c l n v r) ≡ to_list t)
      (k : Holds (count t) (height t) old_red p) where
    new_place : Holds n (height l + black c) c p
    new_place =
        Holds-same c p counts heights (rw is_black (Holds-black (count t) (height t) old_red p k))

    -- A black node takes the place of `t`, and node_x is its left child, or its right one.
    pub Settled-left : Settled (some (l, left_of c n v r ∷ p)) (to_list (root_of t p))
    Settled-left = (
      l,
      left_of c n v r ∷ p,
      refl,
      g.0,
      (g.1, g.2, g.3, g.4, new_place),
      same_values (node c l n v r) t p values,
    )

    pub Settled-right : Settled (some (r, right_of c l n v ∷ p)) (to_list (root_of t p))
    Settled-right = (
      r,
      right_of c l n v ∷ p,
      refl,
      g.1,
      (g.0, g.2, g.3, g.4, new_place),
      same_values (node c l n v r) t p values,
    )

  pub insert_rotated_lem :
      (x : Tree A) (f g : Frame A) (p : List (Frame A))
      → IsBalanced x
      → is_red x ≡ true
      → is_red_frame f ≡ true
      → is_red (uncle g) ≡ false
      → Holds (count x) (height x) false (f ∷ g ∷ p)
      → Settled (insert_rotated x f g p) (to_list (root_of x (f ∷ g ∷ p)))
  unfolding insert_rotated
  insert_rotated_lem leaf f g p gx e b u k = cc
  insert_rotated_lem (node c l n v r) (left_of c1 n1 v1 s) (left_of c2 n2 v2 u) p gx e b bu k =
      Settled-left (node c2 (node c1 (node c l n v r) n1 v1 s) n2 v2 u) false (node c l n v r)
        (n + (count s + count u + 1) + 1) v1 (counted true s v2 u) p c2 (ground arith) refl
        (ground arith) (ground arith) (simp append_assoc) k.4.4
  insert_rotated_lem (node c l n v r) (right_of c1 s n1 v1) (right_of c2 u n2 v2) p gx e b bu k =
      Settled-right (node c2 u n2 v2 (node c1 s n1 v1 (node c l n v r))) false (counted true u v2 s)
        (count u + count s + 1 + n + 1) v1 (node c l n v r) p c2 (ground arith) refl (ground arith)
        (ground arith) (simp append_assoc) k.4.4
  insert_rotated_lem (node c l n v r) (right_of c1 s n1 v1) (left_of c2 n2 v2 u) p gx e b bu k =
      Settled-left (node c2 (node c1 s n1 v1 (node c l n v r)) n2 v2 u) false (counted c1 s v1 l)
        (count s + count l + 1 + (count r + count u + 1) + 1) v (counted true r v2 u) p c2
        (ground arith) refl (ground arith) (ground arith) (simp append_assoc) k.4.4
  insert_rotated_lem (node c l n v r) (left_of c1 n1 v1 s) (right_of c2 u n2 v2) p gx e b bu k =
      Settled-right (node c2 u n2 v2 (node c1 (node c l n v r) n1 v1 s)) false (counted true u v2 l)
        (count u + count l + 1 + (count r + count s + 1) + 1) v (counted c1 r v1 s) p c2
        (ground arith) refl (ground arith) (ground arith) (simp append_assoc) k.4.4

  -- Case 1.
  recoloured_lem :
      (x : Tree A) (f g : Frame A) (p : List (Frame A))
      → IsBalanced x
      → is_red_frame f ≡ true
      → is_red (uncle g) ≡ true
      → Holds (count x) (height x) false (f ∷ g ∷ p)
      → (let t = recoloured (plug f x) g in
          IsBalanced t
          × (is_red t ≡ true)
          × Holds (count t) (height t) false p
          × (to_list (root_of t p) ≡ to_list (root_of x (f ∷ g ∷ p))))
  recoloured_lem x f (left_of c n v leaf) p gx b bu k = cc
  recoloured_lem x f (right_of c leaf n v) p gx b bu k = cc
  recoloured_lem x (left_of c1 n1 v1 s) (left_of c2 n2 v2 (node cu lu nu vu ru)) p gx b bu k = (
    ground arith,
    refl,
    Holds-same false p refl (ground arith)
        (Holds-black n2 (height x + black c1 + black c2) c2 p k.4.4),
    same_values (node true (node false x n1 v1 s) n2 v2 (node false lu nu vu ru))
        (node c2 (node c1 x n1 v1 s) n2 v2 (node cu lu nu vu ru)) p refl,
  )
  recoloured_lem x (right_of c1 s n1 v1) (left_of c2 n2 v2 (node cu lu nu vu ru)) p gx b bu k = (
    ground arith,
    refl,
    Holds-same false p refl (ground arith)
        (Holds-black n2 (height s + black c1 + black c2) c2 p k.4.4),
    same_values (node true (node false s n1 v1 x) n2 v2 (node false lu nu vu ru))
        (node c2 (node c1 s n1 v1 x) n2 v2 (node cu lu nu vu ru)) p refl,
  )
  recoloured_lem x (left_of c1 n1 v1 s) (right_of c2 (node cu lu nu vu ru) n2 v2) p gx b bu k = (
    ground arith,
    refl,
    Holds-same false p refl (ground arith)
        (Holds-black n2 (height lu + black cu + black c2) c2 p k.4.4),
    same_values (node true (node false lu nu vu ru) n2 v2 (node false x n1 v1 s))
        (node c2 (node cu lu nu vu ru) n2 v2 (node c1 x n1 v1 s)) p refl,
  )
  recoloured_lem x (right_of c1 s n1 v1) (right_of c2 (node cu lu nu vu ru) n2 v2) p gx b bu k = (
    ground arith,
    refl,
    Holds-same false p refl (ground arith)
        (Holds-black n2 (height lu + black cu + black c2) c2 p k.4.4),
    same_values (node true (node false lu nu vu ru) n2 v2 (node false s n1 v1 x))
        (node c2 (node cu lu nu vu ru) n2 v2 (node c1 s n1 v1 x)) p refl,
  )

  -- Below a black node the colour does not matter.
  Holds-any :
      (c h : ℕ) (red : Bool) (f : Frame A) (p : List (Frame A))
      → is_red_frame f ≡ false
      → Holds c h false (f ∷ p)
      → Holds c h red (f ∷ p)
  Holds-any c h red (left_of b n v r) p e k = ground arith
  Holds-any c h red (right_of b l n v) p e k = ground arith

  top_black : (c h : ℕ) (red : Bool) (f : Frame A) → Holds c h red (f ∷ []) → is_red_frame f ≡ false
  top_black c h red (left_of b n v r) k = k.4
  top_black c h red (right_of b l n v) k = k.4

  pub insert_loop_lem :
      (x : Tree A) (p : List (Frame A))
      → IsBalanced x
      → is_red x ≡ true
      → Holds (count x) (height x) false p
      → Settled (insert_loop x p) (to_list (root_of x p))
  unfolding insert_loop
  insert_loop_lem x [] g e k = (x, [], refl, g, tt, refl)
  insert_loop_lem x (f ∷ []) g e k =
      let b = top_black (count x) (height x) false f k in
      (x, f ∷ [], rw b refl, g, Holds-any (count x) (height x) (is_red x) f [] b k, refl)
  insert_loop_lem x (f ∷ h ∷ p) g e k = elim (Bool-cases (is_red_frame f)) [
    | inr b ↦
        (x, f ∷ h ∷ p, rw b refl, g, Holds-any (count x) (height x) (is_red x) f (h ∷ p) b k, refl)
    | inl b ↦ elim (Bool-cases (is_red (uncle h))) [
      | inr u ↦ rw b (rw u (insert_rotated_lem x f h p g e b u k))
      | inl u ↦
          let again = recoloured_lem x f h p g b u k in
          rw b (
            rw u (
              rw (← again.3) (insert_loop_lem (recoloured (plug f x) h) p again.0 again.1 again.2)))
    ]
  ]

  -- The tree that comes out is red-black again, with a black root and the same values.
  pub insert_node_fixup_lem :
      (x : Tree A) (p : List (Frame A))
      → IsBalanced x
      → is_red x ≡ true
      → Holds (count x) (height x) false p
      → (t : Tree A) × (insert_node_fixup x p ≡ some t)
        × IsBalanced t
        × (is_red t ≡ false)
        × (to_list t ≡ to_list (root_of x p))
  unfolding insert_node_fixup
  insert_node_fixup_lem x p g e k =
      let (y, q, eq, gy, fits, vs) = insert_loop_lem x p g e k in
      let good = paint-IsBalanced (root_of y q) (Fits-root_of y q gy fits) in
      (
        paint false (root_of y q),
        rw eq (rw (update_node_count_same y gy) (rw (update_above-Fits y q fits) refl)),
        good.0,
        good.1,
        to_list-paint false (root_of y q) ∙ vs,
      )
