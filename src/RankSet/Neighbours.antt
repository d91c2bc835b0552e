-- ===== src/RankSet/Neighbours.antt =====
-- The way from a node to the next one and to the one before, by `increment` and `decrement`.
use brickred_server.Base.{
  ℕ, ◌≡◌, refl, ◌∙◌, ap, sym, Bool, false, Option, none, some, List, [], ◌∷◌, ◌++◌, append_assoc,
  append-nil,
}
use brickred_server.RankSet.Nodes.{
  Tree, leaf, node, Frame, left_of, right_of, Place, is_red, count, root_of, next_above,
  previous_above, leftmost, rightmost, increment, decrement,
}
use brickred_server.RankSet.Balance.{height, IsBalanced, Holds, to_list, before, after}
use brickred_server.RankSet.Order.{head?, last?, last?-append}
use brickred_server.RankSet.{pointer}

module _ {ℓ} {A : Type ℓ} where
  -- Balance of the whole tree is balance at each of its places.
  pub place-IsBalanced :
      (t : Tree A) (p : List (Frame A))
      → IsBalanced (root_of t p)
      → is_red (root_of t p) ≡ false
      → IsBalanced t × Holds (count t) (height t) (is_red t) p
  place-IsBalanced t [] g b = (g, b)
  place-IsBalanced t (left_of c n v r ∷ p) g b =
      let (gt, hp) = place-IsBalanced (node c t n v r) p g b in (gt.0, (gt.1, gt.2, gt.3, gt.4, hp))
  place-IsBalanced t (right_of c l n v ∷ p) g b =
      let (gt, hp) = place-IsBalanced (node c l n v t) p g b in (gt.1, (gt.0, gt.2, gt.3, gt.4, hp))

  -- A place, or the end, in a tree: the values before it and those from it on.
  abbrev pub IsBetween : Tree A → List A → List A → Option (Place A) → Type ℓ
  IsBetween root bs cs none = cs ≡ []
  IsBetween root bs cs (some (leaf, p)) = some p ≡ none
  IsBetween root bs cs (some (node c l n x r, p)) =
      (root_of (node c l n x r) p ≡ root)
      × (before p ++ to_list l ≡ bs)
      × (x ∷ (to_list r ++ after p) ≡ cs)

  regroup : (xs ys zs : List A) (v : A) → (xs ++ (ys ++ (v ∷ []))) ++ zs ≡ xs ++ (ys ++ (v ∷ zs))
  regroup xs ys zs v = simp append_assoc

  pub next_above_lem :
      (t : Tree A) (p : List (Frame A))
      → IsBetween (root_of t p) (before p ++ to_list t) (after p) (next_above t p)
  next_above_lem t [] = refl
  next_above_lem t (left_of c n v r ∷ p) = (refl, refl, refl)
  next_above_lem t (right_of c l n v ∷ p) =
      rw (regroup (before p) (to_list l) (to_list t) v) (next_above_lem (node c l n v t) p)

  pub leftmost-IsBetween :
      (c : Bool) (l : Tree A) (n : ℕ) (x : A) (r : Tree A) (p : List (Frame A))
      → IsBetween
          (root_of (node c l n x r) p)
          (before p)
          (to_list (node c l n x r) ++ after p)
          (some (leftmost (node c l n x r) p))
  leftmost-IsBetween c leaf n x r p = (refl, append-nil (before p), refl)
  leftmost-IsBetween c (node b l m y s) n x r p =
      rw (append_assoc (to_list (node b l m y s)) (x ∷ to_list r) (after p))
        (leftmost-IsBetween b l m y s (left_of c n x r ∷ p))

  -- `increment` goes to the next place, or to the end.
  pub increment_lem :
      (c : Bool) (l : Tree A) (n : ℕ) (v : A) (r : Tree A) (p : List (Frame A))
      → IsBetween
          (root_of (node c l n v r) p)
          (before p ++ (to_list l ++ (v ∷ [])))
          (to_list r ++ after p)
          (increment (node c l n v r) p)
  unfolding increment
  increment_lem c l n v leaf p = next_above_lem (node c l n v leaf) p
  increment_lem c l n v (node b m k x s) p = leftmost-IsBetween b m k x s (right_of c l n v ∷ p)

  pub rightmost_last :
      (c : Bool) (l : Tree A) (n : ℕ) (x : A) (r : Tree A) (p : List (Frame A))
      → pointer (some (rightmost (node c l n x r) p)) ≡ last? (x ∷ to_list r)
  rightmost_last c l n x leaf p = refl
  rightmost_last c l n x (node b m k y s) p =
      rightmost_last b m k y s (right_of c l n x ∷ p)
      ∙ sym (last?-append (x ∷ to_list m) (to_list s) y)

  pointer-previous_above :
      (t : Tree A) (p : List (Frame A)) → pointer (previous_above t p) ≡ last? (before p)
  pointer-previous_above t [] = refl
  pointer-previous_above t (left_of c n v r ∷ p) = pointer-previous_above (node c t n v r) p
  pointer-previous_above t (right_of c l n v ∷ p) =
      sym (last?-append (before p ++ to_list l) [] v)
      ∙ ap last? (append_assoc (before p) (to_list l) (v ∷ []))

  -- `decrement` goes to the place before.
  pub pointer-decrement :
      (c : Bool) (l : Tree A) (n : ℕ) (v : A) (r : Tree A) (p : List (Frame A))
      → pointer (decrement (node c l n v r) p) ≡ last? (before p ++ to_list l)
  unfolding decrement
  pointer-decrement c leaf n v r p =
      pointer-previous_above (node c leaf n v r) p ∙ ap last? (sym (append-nil (before p)))
  pointer-decrement c (node b m k x s) n v r p =
      rightmost_last b m k x s (left_of c n v r ∷ p)
      ∙ sym (last?-append (before p ++ to_list m) (to_list s) x)
      ∙ ap last? (append_assoc (before p) (to_list m) (x ∷ to_list s))

  pub pointer-IsBetween :
      (root : Tree A) (bs cs : List A) (o : Option (Place A))
      → IsBetween root bs cs o
      → pointer o ≡ head? cs
  pointer-IsBetween root bs cs none h = rw h refl
  pointer-IsBetween root bs cs (some (leaf, p)) h = cc
  pointer-IsBetween root bs cs (some (node c l n x r, p)) h = rw (← h.2) refl

  pub leftmost_first :
      (c : Bool) (l : Tree A) (n : ℕ) (x : A) (r : Tree A)
      → pointer (some (leftmost (node c l n x r) [])) ≡ head? (to_list (node c l n x r))
  leftmost_first c l n x r =
      pointer-IsBetween (node c l n x r) [] (to_list (node c l n x r) ++ [])
        (some (leftmost (node c l n x r) [])) (leftmost-IsBetween c l n x r [])
      ∙ ap head? (append-nil (to_list (node c l n x r)))
