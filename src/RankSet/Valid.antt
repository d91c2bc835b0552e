-- ===== src/RankSet/Valid.antt =====
-- The invariant of a set, and that `insert` keeps it.
use brickred_server.Base.{
  ℕ, ◌<◌, ◌≡◌, refl, ◌∙◌, sym, Bool, true, false, Option, some, List, [], ◌∷◌, ◌++◌, arith, length,
}
use brickred_server.RankSet.Nodes.{
  Tree, leaf, node, Frame, right_of, is_red, count, rightmost, update_above,
}
use brickred_server.RankSet.Balance.{IsBalanced, Holds, to_list, before, after, to_list-root_of}
use brickred_server.RankSet.Order.{
  IsOrder, IsSorted, IsAbove, IsSorted-append, head?, last?, insert_answer, inserted, found,
  last?-append, some_last, All-last?, asym,
}
use brickred_server.RankSet.Searching.{before-update_above, after-update_above, update_above-Holds}
use brickred_server.RankSet.Inserting.{insert_node_fixup_lem}
use brickred_server.RankSet.{RankSet, insert_below, same, follow}

module _ {ℓ} {A : Type ℓ} where
  abbrev pub values : RankSet A → List A
  values s = to_list s.parent

  -- A new node below a path.
  pub insert_below_lem :
      (v : A) (q : List (Frame A))
      → Holds 0 0 false q
      → (t : Tree A) × (insert_below v q ≡ some t)
        × IsBalanced t
        × (is_red t ≡ false)
        × (to_list t ≡ before q ++ (v ∷ after q))
  unfolding insert_below
  insert_below_lem v q k =
      let x = node true leaf 1 v leaf in
      let (t, e, g, b, vs) =
        insert_node_fixup_lem x (update_above 1 q) (tt, tt, refl, refl, refl) refl
          (update_above-Holds 0 1 0 false q k) in
      (
        t,
        e,
        g,
        b,
        vs
            ∙ to_list-root_of x (update_above 1 q)
            ∙ rw (before-update_above 1 q, after-update_above 1 q) refl,
      )

module _ {ℓ} {A : Type ℓ} (less : A → A → Bool) where
  -- The tree is red-black, counts its nodes and is in order, and the header has the count and the
  -- least and the greatest value.
  pub record IsValid (s : RankSet A) : Type ℓ where
    pub balanced : IsBalanced s.parent
    pub black_root : is_red s.parent ≡ false
    pub sorted : IsSorted less (values s)
    pub counts : s.node_count ≡ count s.parent
    pub least : s.left ≡ head? (values s)
    pub greatest : s.right ≡ last? (values s)

  abbrev pub Inserts : A → RankSet A → Option (RankSet A × A × Bool) → Type ℓ
  Inserts v s r =
      let answer = insert_answer v (found less v (values s)) in
      (s' : RankSet A) × (r ≡ some (s', answer.0, answer.1))
      × IsValid s'
      × (values s' ≡ inserted less v (values s))

module _ {ℓ} {A : Type ℓ} {less : A → A → Bool} (o : IsOrder less) where
  pub same_self : (x : A) → same less x x ≡ true
  same_self x = rw (o.irrefl x) refl

  pub not_same : (x y : A) → less x y ≡ true → same less x y ≡ false
  not_same x y h = rw h refl

  pub not_same_above : (x y : A) → less x y ≡ true → same less y x ≡ false
  not_same_above x y h = rw (asym o x y h, h) refl

  -- Following the pointer to the greatest value leads down to the right.
  pub follow-rightmost :
      (u : A) (c : Bool) (l : Tree A) (n : ℕ) (x : A) (r : Tree A) (p : List (Frame A))
      → IsSorted less (to_list l ++ (x ∷ to_list r))
      → last? (x ∷ to_list r) ≡ some u
      → follow less u (node c l n x r) p ≡ some (rightmost (node c l n x r) p)
  unfolding follow
  follow-rightmost u c l n x leaf p s e =
      let same_u : u ≡ x = cc in rw same_u (rw (o.irrefl x, follow) (rw (o.irrefl x) refl))
  follow-rightmost u c l n x (node c' l' n' x' r') p s e =
      let (bl, sl, ar, sr) = IsSorted-append o (to_list l) (to_list (node c' l' n' x' r')) x s in
      let last_r : last? (x' ∷ to_list r') ≡ some u =
        sym (last?-append (x ∷ to_list l') (to_list r') x') ∙ e in
      let x-u : less x u ≡ true =
        All-last? (IsAbove less x) (to_list (node c' l' n' x' r')) u ar
          (last?-append (to_list l') (to_list r') x' ∙ last_r) in
      rw (asym o x u x-u, follow)
        (rw x-u (follow-rightmost u c' l' n' x' r' (right_of c l n x ∷ p) sr last_r))

  pub follow_greatest :
      (u : A) (t : Tree A)
      → IsSorted less (to_list t)
      → last? (to_list t) ≡ some u
      → follow less u t [] ≡ some (rightmost t [])
  follow_greatest u leaf s e = cc
  follow_greatest u (node c l n x r) s e =
      follow-rightmost u c l n x r [] s (sym (last?-append (to_list l) (to_list r) x) ∙ e)

  pub last_of_some : (xs : List A) → 0 < length xs → (z : A) × (last? xs ≡ some z)
  last_of_some [] h = absurd (omega arith)
  last_of_some (x ∷ xs) h = some_last x xs
