-- ===== src/RankSet/Bounds.antt =====
-- `upperBound` and `select` on the sorted list of values.
use brickred_server.Base.{
  ℕ, ◌+◌, ◌-◌, ◌≤◌, ◌≡◌, refl, ◌∙◌, ap, sym, Bool, true, false, ◌==◌, ltb, Option, none, some, List,
  [], ◌∷◌, ◌++◌, arith, All, Bool-cases, inl, inr, length, zero, suc,
}
use brickred_server.RankSet.Nodes.{
  Tree, leaf, node, Frame, left_of, right_of, Place, count, upper_bound_node, search_above,
  select_node,
}
use brickred_server.RankSet.Balance.{IsBalanced, to_list, count-length}
use brickred_server.RankSet.Order.{
  IsOrder, IsSorted, IsBelow, IsSorted-append, first_above, get_elem?, asym,
}
use brickred_server.RankSet.Searching.{}
use brickred_server.RankSet.{pointer}

module _ {ℓ} {A : Type ℓ} {less : A → A → Bool} (o : IsOrder less) where
  -- `upperBound`, with the target of the nodes above.
  or_else : Option A → Option A → Option A
  or_else none y = y
  or_else (some x) y = some x

  or_else-none : (x : Option A) → or_else x none ≡ x
  unfolding or_else
  or_else-none none = refl
  or_else-none (some x) = refl

  not_above_below :
      (v x : A) (xs : List A)
      → less v x ≡ false
      → All (IsBelow less x) xs
      → All (λ y. less v y ≡ false) xs
  not_above_below v x [] h b = tt
  not_above_below v x (y ∷ ys) h b =
      (o.negative v x y h (asym o y x b.0), not_above_below v x ys h b.1)

  first_above-append :
      (v : A) (xs ys : List A)
      → All (λ y. less v y ≡ false) xs
      → first_above less v (xs ++ ys) ≡ first_above less v ys
  first_above-append v [] ys h = refl
  first_above-append v (x ∷ xs) ys h = rw h.0 (first_above-append v xs ys h.1)

  above_in_front :
      (v : A) (xs : List A) (x : A) (ys : List A) (y : Option A)
      → less v x ≡ true
      → or_else (first_above less v (xs ++ (x ∷ ys))) y ≡ or_else (first_above less v xs) (some x)
  unfolding or_else
  above_in_front v [] x ys y h = rw h refl
  above_in_front v (z ∷ zs) x ys y h = elim (Bool-cases (less v z)) [
    | inl e ↦ rw e refl
    | inr e ↦ rw e (above_in_front v zs x ys y h)
  ]

  search_above_lem :
      (v : A) (t : Tree A) (p : List (Frame A)) (target : Option (Place A))
      → IsSorted less (to_list t)
      → pointer (search_above less v t p target)
        ≡ or_else (first_above less v (to_list t)) (pointer target)
  unfolding or_else
  search_above_lem v leaf p target s = refl
  search_above_lem v (node c l n x r) p target s =
      let (lb, ls, ra, rs) = IsSorted-append o (to_list l) (to_list r) x s in
      elim (Bool-cases (less v x)) [
        | inl above ↦
            rw (above, search_above)
              (search_above_lem v l (left_of c n x r ∷ p) (some (node c l n x r, p)) ls
                ∙ sym (above_in_front v (to_list l) x (to_list r) (pointer target) above))
        | inr not_above ↦
            rw (not_above, search_above)
              (rw
                (
                  first_above-append v (to_list l) (x ∷ to_list r)
                      (not_above_below v x (to_list l) not_above lb),
                  not_above,
                )
                (search_above_lem v r (right_of c l n x ∷ p) target rs))
      ]

  pub upper_bound_lem :
      (v : A) (root : Tree A)
      → IsSorted less (to_list root)
      → pointer (upper_bound_node less v root) ≡ first_above less v (to_list root)
  unfolding upper_bound_node or_else
  upper_bound_lem v root s =
      search_above_lem v root [] none s ∙ or_else-none (first_above less v (to_list root))

module _ {ℓ} {A : Type ℓ} where
  get_elem?-append_left :
      (xs ys : List A) (k : ℕ) → suc k ≤ length xs → get_elem? (xs ++ ys) k ≡ get_elem? xs k
  get_elem?-append_left [] ys k h = absurd (omega arith)
  get_elem?-append_left (x ∷ xs) ys zero h = refl
  get_elem?-append_left (x ∷ xs) ys (suc k) h = get_elem?-append_left xs ys k (omega arith)

  get_elem?-append_right :
      (xs ys : List A) (k i : ℕ) → k ≡ length xs + i → get_elem? (xs ++ ys) k ≡ get_elem? ys i
  get_elem?-append_right [] ys k i h = ap (get_elem? ys) (omega arith)
  get_elem?-append_right (x ∷ xs) ys zero i h = absurd (omega arith)
  get_elem?-append_right (x ∷ xs) ys (suc k) i h = get_elem?-append_right xs ys k i (omega arith)

  -- `select` goes to the value of the given rank, and to the end when there are not as many.
  pub select_node_lem :
      (k : ℕ) (t : Tree A) (p : List (Frame A))
      → IsBalanced t
      → pointer (select_node k t p) ≡ get_elem? (to_list t) k
  unfolding select_node
  select_node_lem k leaf p g = refl
  select_node_lem k (node c l n x r) p g =
      let counts = count-length l g.0 in
      elim (Bool-cases (k == count l)) [
        | inl here ↦
            rw (here, select_node)
              (sym
                (get_elem?-append_right (to_list l) (x ∷ to_list r) k 0 (ground (arith, counts))))
        | inr other ↦ elim (Bool-cases (ltb k (count l))) [
          | inl less_left ↦
              rw (other, select_node)
                (rw less_left (
                  select_node_lem k l (left_of c n x r ∷ p) g.0
                  ∙ sym (
                      get_elem?-append_left (to_list l) (x ∷ to_list r) k
                        (ground (arith, counts)))))
          | inr more ↦
              rw (other, select_node)
                (rw more (
                  select_node_lem (k - (count l + 1)) r (right_of c l n x ∷ p) g.1
                  ∙ sym (
                      get_elem?-append_right (to_list l) (x ∷ to_list r) k (suc (k - (count l + 1)))
                        (ground (arith, counts)))))
        ]
      ]
