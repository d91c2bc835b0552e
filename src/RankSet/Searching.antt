-- ===== src/RankSet/Searching.antt =====
-- The loop that `findNode`, `lowerBoundNode` and `insertNode` share ends below the place where
-- the value belongs, and the target is the node that comes next.
use brickred_server.Base.{
  ℕ, ◌+◌, ◌≡◌, refl, ap, Bool, true, false, Option, none, some, List, [], ◌∷◌, ◌++◌, All,
  All-append, Bool-cases, inl, inr,
}
use brickred_server.RankSet.Nodes.{
  Tree, leaf, node, Frame, left_of, right_of, Place, is_red, count, root_of, next_above, search,
  rightmost, update_above,
}
use brickred_server.RankSet.Balance.{black, height, IsBalanced, Holds, to_list, before, after}
use brickred_server.RankSet.Order.{
  IsOrder, IsSorted, IsBelow, IsNotBelow, IsSorted-append, IsBelow-trans, IsNotBelow-above, head?,
}
use brickred_server.RankSet.{pointer, below_right}

module _ {ℓ} {A : Type ℓ} where
  pub pointer-next_above :
      (t : Tree A) (p : List (Frame A)) → pointer (next_above t p) ≡ head? (after p)
  pointer-next_above t [] = refl
  pointer-next_above t (left_of c n v r ∷ p) = refl
  pointer-next_above t (right_of c l n v ∷ p) = pointer-next_above (node c l n v t) p

  -- What the target says of the greatest place below it; without a target, of that of the tree.
  abbrev pub AtSpot : Tree A → Option (Place A) → Place A → Type ℓ
  AtSpot root none m = rightmost root [] ≡ m
  AtSpot root (some (leaf, p)) m = some m ≡ none
  AtSpot root (some (node c l n x r, p)) m = rightmost l (left_of c n x r ∷ p) ≡ m

  pub next_above-AtSpot :
      (c : Bool) (l : Tree A) (n : ℕ) (x : A) (r : Tree A) (p : List (Frame A))
      → AtSpot
          (root_of (node c l n x r) p)
          (next_above (node c l n x r) p)
          (rightmost (node c l n x r) p)
  next_above-AtSpot c l n x r [] = refl
  next_above-AtSpot c l n x r (left_of c' n' v' r' ∷ p) = refl
  next_above-AtSpot c l n x r (right_of c' l' n' v' ∷ p) =
      next_above-AtSpot c' l' n' v' (node c l n x r) p

  pub rightmost_node :
      (c : Bool) (l : Tree A) (n : ℕ) (x : A) (r : Tree A) (p : List (Frame A))
      → (c' : Bool) × (l' : Tree A) × (n' : ℕ) × (x' : A) × (p' : List (Frame A)) × (rightmost
            (node c l n x r)
            p
          ≡ (node c' l' n' x' leaf, p'))
  rightmost_node c l n x leaf p = (c, l, n, x, p, refl)
  rightmost_node c l n x (node c' l' n' x' r') p =
      rightmost_node c' l' n' x' r' (right_of c l n x ∷ p)

  -- Below the greatest place that comes before the target is the end of the search.
  pub spot_below :
      (f : Frame A) (q : List (Frame A))
      → (m : Place A) × AtSpot (root_of leaf (f ∷ q)) (next_above leaf (f ∷ q)) m
        × (below_right m ≡ f ∷ q)
  spot_below (left_of c n v r) q = ((leaf, left_of c n v r ∷ q), refl, refl)
  spot_below (right_of c l n v) q =
      (rightmost (node c l n v leaf) q, next_above-AtSpot c l n v leaf q, refl)

  pub before-update_above : (c : ℕ) (p : List (Frame A)) → before (update_above c p) ≡ before p
  before-update_above c [] = refl
  before-update_above c (left_of b n v r ∷ p) = before-update_above (c + count r + 1) p
  before-update_above c (right_of b l n v ∷ p) =
      ap (λ (xs : List A). xs ++ (to_list l ++ (v ∷ []))) (before-update_above (count l + c + 1) p)

  pub after-update_above : (c : ℕ) (p : List (Frame A)) → after (update_above c p) ≡ after p
  after-update_above c [] = refl
  after-update_above c (left_of b n v r ∷ p) =
      ap (λ (xs : List A). v ∷ (to_list r ++ xs)) (after-update_above (c + count r + 1) p)
  after-update_above c (right_of b l n v ∷ p) = after-update_above (count l + c + 1) p

  -- With the counts above it updated, a place may take another number of nodes.
  pub update_above-Holds :
      (c c' h : ℕ) (red : Bool) (p : List (Frame A))
      → Holds c h red p
      → Holds c' h red (update_above c' p)
  update_above-Holds c c' h red [] k = k
  update_above-Holds c c' h red (left_of b n v r ∷ p) k =
      (k.0, refl, k.2, k.3, update_above-Holds n (c' + count r + 1) (h + black b) b p k.4)
  update_above-Holds c c' h red (right_of b l n v ∷ p) k =
      (k.0, refl, k.2, k.3, update_above-Holds n (count l + c' + 1) (height l + black b) b p k.4)

module _ {ℓ} {A : Type ℓ} (less : A → A → Bool) (v : A) where
  -- The null pointer at which the search ends.
  pub end_path : Tree A → List (Frame A) → List (Frame A)
  end_path leaf p = p
  end_path (node c l n x r) p = elim (less x v) [
    | false ↦ end_path l (left_of c n x r ∷ p)
    | true ↦ end_path r (right_of c l n x ∷ p)
  ]

  end_path_leaf : (p : List (Frame A)) → end_path leaf p ≡ p
  unfolding end_path
  end_path_leaf p = refl

  end_path_right :
      (c : Bool) (l : Tree A) (n : ℕ) (x : A) (r : Tree A) (p : List (Frame A))
      → less x v ≡ true
      → end_path (node c l n x r) p ≡ end_path r (right_of c l n x ∷ p)
  unfolding end_path
  end_path_right c l n x r p e = rw (e, end_path) refl

  end_path_left :
      (c : Bool) (l : Tree A) (n : ℕ) (x : A) (r : Tree A) (p : List (Frame A))
      → less x v ≡ false
      → end_path (node c l n x r) p ≡ end_path l (left_of c n x r ∷ p)
  unfolding end_path
  end_path_left c l n x r p e = rw (e, end_path) refl

  pub search-next_above :
      (t : Tree A) (p : List (Frame A))
      → search less v t p (next_above t p) ≡ next_above leaf (end_path t p)
  unfolding search
  search-next_above leaf p = rw (end_path_leaf p) refl
  search-next_above (node c l n x r) p = elim (Bool-cases (less x v)) [
    | inl e ↦
        rw (end_path_right c l n x r p e)
          (rw (e, search) (search-next_above r (right_of c l n x ∷ p)))
    | inr e ↦
        rw (end_path_left c l n x r p e)
          (rw (e, search) (search-next_above l (left_of c n x r ∷ p)))
  ]

  pub root_of-end_path :
      (t : Tree A) (p : List (Frame A)) → root_of leaf (end_path t p) ≡ root_of t p
  root_of-end_path leaf p = rw (end_path_leaf p) refl
  root_of-end_path (node c l n x r) p = elim (Bool-cases (less x v)) [
    | inl e ↦ rw (end_path_right c l n x r p e) (root_of-end_path r (right_of c l n x ∷ p))
    | inr e ↦ rw (end_path_left c l n x r p e) (root_of-end_path l (left_of c n x r ∷ p))
  ]

  pub end_path-Holds :
      (t : Tree A) (p : List (Frame A))
      → IsBalanced t
      → Holds (count t) (height t) (is_red t) p
      → Holds 0 0 false (end_path t p)
  end_path-Holds leaf p g k = rw (end_path_leaf p) k
  end_path-Holds (node c l n x r) p g k = elim (Bool-cases (less x v)) [
    | inl e ↦
        rw (end_path_right c l n x r p e)
          (end_path-Holds r (right_of c l n x ∷ p) g.1 (g.0, g.2, g.3, g.4, k))
    | inr e ↦
        rw (end_path_left c l n x r p e)
          (end_path-Holds l (left_of c n x r ∷ p) g.0 (g.1, g.2, g.3, g.4, k))
  ]

  pub end_path_sides :
      IsOrder less
      → (t : Tree A) (p : List (Frame A)) → IsSorted less (to_list t)
      → All (IsBelow less v) (before p)
      → All (IsNotBelow less v) (after p)
      → All (IsBelow less v) (before (end_path t p))
        × All (IsNotBelow less v) (after (end_path t p))
  end_path_sides o leaf p s b a = rw (end_path_leaf p) (b, a)
  end_path_sides o (node c l n x r) p s b a =
      let (lb, ls, ra, rs) = IsSorted-append o (to_list l) (to_list r) x s in
      elim (Bool-cases (less x v)) [
        | inl e ↦ rw (end_path_right c l n x r p e) (
            end_path_sides o r (right_of c l n x ∷ p) rs
              (All-append (IsBelow less v) (before p) (to_list l ++ (x ∷ [])) b (
                All-append (IsBelow less v) (to_list l) (x ∷ [])
                  (IsBelow-trans o v x (to_list l) e lb) (e, tt)))
              a)
        | inr e ↦ rw (end_path_left c l n x r p e) (
            end_path_sides o l (left_of c n x r ∷ p) ls b (
              e,
              All-append (IsNotBelow less v) (to_list r) (after p)
                  (IsNotBelow-above o v x (to_list r) e ra) a,
            ))
      ]
