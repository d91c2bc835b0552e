-- ===== src/RankSet/Lookup.antt =====
-- `find`, `lowerBound` and `rank` on the sorted list of values.
use brickred_server.Base.{
  ℕ, ◌+◌, ◌≡◌, refl, ◌∙◌, ap, sym, Bool, true, false, Option, none, some, List, [], ◌∷◌, ◌++◌,
  append-nil, arith, All, Bool-cases, inl, inr, if◌then◌else◌,
}
use brickred_server.RankSet.Nodes.{
  Tree, leaf, node, Frame, Place, count, next_above, search, find_node, lower_bound_node, rank_node,
}
use brickred_server.RankSet.Balance.{
  IsBalanced, to_list, before, after, count-length, to_list-root_of,
}
use brickred_server.RankSet.Order.{
  IsOrder, IsSorted, IsBelow, IsNotBelow, IsSorted-append, found, first_not_below, number_below,
  found-append, first_not_below-append, number_below-append, number_below-All, number_below-none,
  IsBelow-trans, IsNotBelow-above, asym,
}
use brickred_server.RankSet.Searching.{
  end_path, search-next_above, root_of-end_path, end_path_sides,
}
use brickred_server.RankSet.Neighbours.{IsBetween, next_above_lem}
use brickred_server.RankSet.{pointer}

module _ {ℓ} {A : Type ℓ} (less : A → A → Bool) (v : A) (root : Tree A) where
  pub find_none : search less v root [] none ≡ none → find_node less v root ≡ none
  unfolding find_node
  find_none e = rw (e, find_node) refl

  module _ (c : Bool) (l : Tree A) (n : ℕ) (x : A) (r : Tree A) (p : List (Frame A))
      (e : search less v root [] none ≡ some (node c l n x r, p)) where
    pub find_above : less v x ≡ true → find_node less v root ≡ none
    unfolding find_node
    find_above above = rw (e, find_node) (rw above refl)

    pub find_here : less v x ≡ false → find_node less v root ≡ some (node c l n x r, p)
    unfolding find_node
    find_here same_x = rw (e, find_node) (rw same_x refl)

module _ {ℓ} {A : Type ℓ} {less : A → A → Bool} (o : IsOrder less) where
  -- The search splits the values into those below `v` and those that are not, and its target is
  -- between the two.
  pub search_lem :
      (v : A) (root : Tree A)
      → IsSorted less (to_list root)
      → (t : Option (Place A)) × (bs : List A) × (cs : List A) × (search less v root [] none ≡ t)
        × IsBetween root bs cs t
        × (to_list root ≡ bs ++ cs)
        × All (IsBelow less v) bs
        × All (IsNotBelow less v) cs
  search_lem v root s =
      let q = end_path less v root [] in
      let top = root_of-end_path less v root [] in
      let (b, a) = end_path_sides less v o root [] s tt tt in
      (
        next_above leaf q,
        before q,
        after q,
        search-next_above less v root [],
        rw (top, append-nil (before q)) at (next_above_lem leaf q),
        ap to_list (sym top) ∙ to_list-root_of leaf q,
        b,
        a,
      )

  at_target :
      (v : A) (root : Tree A) (t : Option (Place A)) (bs cs : List A)
      → search less v root [] none ≡ t
      → IsBetween root bs cs t
      → to_list root ≡ bs ++ cs
      → All (IsBelow less v) bs
      → All (IsNotBelow less v) cs
      → (pointer (lower_bound_node less v root) ≡ first_not_below less v (to_list root))
        × (pointer (find_node less v root) ≡ found less v (to_list root))
  unfolding lower_bound_node
  at_target v root none bs cs e between split b a =
      rw
        (
          find_none less v root e,
          split,
          between,
          found-append o v bs [] b,
          first_not_below-append o v bs [] b,
        )
        (rw e refl, refl)
  at_target v root (some (leaf, p)) bs cs e between split b a = cc
  at_target v root (some (node c l n x r, p)) bs cs e between split b a =
      let rest = to_list r ++ after p in
      let at_x : to_list root ≡ bs ++ (x ∷ rest) =
        split ∙ ap (λ (w : List A). bs ++ w) (sym between.2) in
      let x_not_below : less x v ≡ false = (rw (← between.2) at a).0 in
      let bound : first_not_below less v (to_list root) ≡ some x =
        rw (at_x, first_not_below-append o v bs (x ∷ rest) b) (rw x_not_below refl) in
      let here : found less v (to_list root) ≡ (if less v x then none else some x) =
        rw (at_x, found-append o v bs (x ∷ rest) b) (rw x_not_below refl) in
      (
        rw (e, bound) refl,
        elim (Bool-cases (less v x)) [
          | inl above ↦ rw (find_above less v root c l n x r p e above, here) (rw above refl)
          | inr same_x ↦ rw (find_here less v root c l n x r p e same_x, here) (rw same_x refl)
        ],
      )

  pub bounds_lem :
      (v : A) (root : Tree A)
      → IsSorted less (to_list root)
      → (pointer (lower_bound_node less v root) ≡ first_not_below less v (to_list root))
        × (pointer (find_node less v root) ≡ found less v (to_list root))
  bounds_lem v root s =
      let (t, bs, cs, e, between, split, b, a) = search_lem v root s in
      at_target v root t bs cs e between split b a

  -- What is below `x` is below `v`, when `v` is not below `x`.
  All-IsBelow_same :
      (v x : A) (xs : List A) → less v x ≡ false → All (IsBelow less x) xs → All (IsBelow less v) xs
  All-IsBelow_same v x [] h b = tt
  All-IsBelow_same v x (y ∷ ys) h b = elim (Bool-cases (less y v)) [
    | inl e ↦ (e, All-IsBelow_same v x ys h b.1)
    | inr e ↦ absurd (cc (o.negative y v x e h, b.0))
  ]

  -- `rank` counts the values below `v`.
  rank_node_lem :
      (v : A) (t : Tree A) (k : ℕ)
      → IsBalanced t
      → IsSorted less (to_list t)
      → rank_node less v t k ≡ k + number_below less v (to_list t)
  unfolding rank_node
  rank_node_lem v leaf k g s = omega arith
  rank_node_lem v (node c l n x r) k g s =
      let (lb, ls, ra, rs) = IsSorted-append o (to_list l) (to_list r) x s in
      let sum = number_below-append o v (to_list l) (x ∷ to_list r) in
      elim (Bool-cases (less v x)) [
        | inl above ↦
            let none_right =
              number_below-none o v (to_list r)
                (IsNotBelow-above o v x (to_list r) (asym o v x above) ra) in
            rw (above, rank_node)
              (rw (sum, asym o v x above, none_right) (omega (arith, rank_node_lem v l k g.0 ls)))
        | inr not_above ↦ elim (Bool-cases (less x v)) [
          | inl below ↦
              let all_left =
                number_below-All o v (to_list l) (IsBelow-trans o v x (to_list l) below lb) in
              rw (not_above, rank_node)
                (rw (sum, below, all_left)
                  (omega (arith, rank_node_lem v r (k + (1 + count l)) g.1 rs, count-length l g.0)))
          | inr same_x ↦
              let all_left =
                number_below-All o v (to_list l) (All-IsBelow_same v x (to_list l) not_above lb) in
              let none_right =
                number_below-none o v (to_list r) (IsNotBelow-above o v x (to_list r) same_x ra) in
              rw (not_above, rank_node)
                (rw (sum, same_x, all_left, none_right) (omega (arith, count-length l g.0)))
        ]
      ]

  pub rank_lem :
      (v : A) (root : Tree A)
      → IsBalanced root
      → IsSorted less (to_list root)
      → rank_node less v root 0 ≡ number_below less v (to_list root)
  rank_lem v root g s = omega (arith, rank_node_lem v root 0 g s)
