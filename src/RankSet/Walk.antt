-- ===== src/RankSet/Walk.antt =====
-- Iterators: `++` from any of them visits the values from there on, in order; `select` and `rank`
-- are inverse to one another.
use brickred_server.Base.{
  ℕ, zero, suc, ◌+◌, ◌≤◌, ◌≡◌, refl, ◌∙◌, ap, sym, subst, Bool, Option, none, some, List, [], ◌∷◌,
  ◌++◌, arith, length, length-append, drop, drop-append_length, All, Bool-cases, inl, inr,
}
use brickred_server.RankSet.Nodes.{
  Tree, leaf, node, Place, increment, lower_bound_node, select_node, rank_node, find_node,
}
use brickred_server.RankSet.Balance.{to_list, count-length, after}
use brickred_server.RankSet.Order.{
  IsOrder, IsSorted, IsAbove, get_elem?, found, number_below, number_below-append, number_below-All,
  number_below-none, IsNotBelow-above,
}
use brickred_server.RankSet.Neighbours.{IsBetween, increment_lem}
use brickred_server.RankSet.Lookup.{search_lem, bounds_lem, rank_lem}
use brickred_server.RankSet.Bounds.{select_node_lem}
use brickred_server.RankSet.Valid.{IsValid, values}
use brickred_server.RankSet.{RankSet, pointer, size}

module _ {ℓ} {A : Type ℓ} where
  -- `for (; iter != end(); ++iter)` for a number of rounds at most.
  unfoldable pub walk : ℕ → Option (Place A) → List A
  walk zero o = []
  walk (suc k) none = []
  walk (suc k) (some (leaf, p)) = []
  walk (suc k) (some (node c l n v r, p)) = v ∷ walk k (increment (node c l n v r) p)

  walk_lem :
      (k : ℕ) (root : Tree A) (bs cs : List A) (o : Option (Place A))
      → IsBetween root bs cs o
      → length cs ≤ k
      → walk k o ≡ cs
  unfolding walk
  walk_lem zero root bs [] o h le = refl
  walk_lem zero root bs (c ∷ cs) o h le = absurd (omega arith)
  walk_lem (suc k) root bs cs none h le = sym h
  walk_lem (suc k) root bs cs (some (leaf, p)) h le = cc
  walk_lem (suc k) root bs cs (some (node c l n v r, p)) h le =
      ap (◌∷◌ v) (
        walk_lem k _ _ (to_list r ++ after p) (increment (node c l n v r) p)
          (increment_lem c l n v r p) (omega (arith, ap length h.2)))
      ∙ h.2

module _ {ℓ} {A : Type ℓ} {less : A → A → Bool} (o : IsOrder less) where
  -- Iterating from `lowerBound` of a value on a valid set visits the sorted values without as many
  -- as `rank` of that value says.
  pub walk-lower_bound :
      (v : A) (s : RankSet A)
      → IsValid less s
      → walk (size s) (lower_bound_node less v s.parent)
        ≡ drop (rank_node less v s.parent 0) (values s)
  unfolding lower_bound_node
  walk-lower_bound v s h =
      let (t, bs, cs, e, between, split, b, a) = search_lem o v s.parent h.sorted in
      let rank_is : rank_node less v s.parent 0 ≡ length bs =
        rank_lem o v s.parent h.balanced h.sorted
        ∙ ap (number_below less v) split
        ∙ number_below-append o v bs cs
        ∙ omega (arith, number_below-All o v bs b, number_below-none o v cs a) in
      rw (e, rank_is, split)
        (walk_lem (size s) s.parent bs cs t between (
            omega (
              arith,
              h.counts,
              count-length s.parent h.balanced,
              ap length split,
              length-append bs cs,
            ))
          ∙ sym (drop-append_length (length bs) bs cs refl))

  All-get_elem? :
      (P : A → Type 0) (k : ℕ) (v : A) (xs : List A) → All P xs → get_elem? xs k ≡ some v → P v
  All-get_elem? P k v [] h e = cc
  All-get_elem? P zero v (x ∷ xs) h e = subst P (cc) h.0
  All-get_elem? P (suc k) v (x ∷ xs) h e = All-get_elem? P k v xs h.1 e

  rank_of_elem :
      (k : ℕ) (v : A) (vs : List A)
      → IsSorted less vs
      → get_elem? vs k ≡ some v
      → number_below less v vs ≡ k
  rank_of_elem k v [] s e = cc
  rank_of_elem zero v (x ∷ xs) s e =
      let same_v : x ≡ v = cc in
      subst (λ w. number_below less w (x ∷ xs) ≡ 0) same_v
        (rw (o.irrefl x) (number_below-none o x xs (IsNotBelow-above o x x xs (o.irrefl x) s.0)))
  rank_of_elem (suc k) v (x ∷ xs) s e =
      rw (All-get_elem? (IsAbove less x) k v xs s.0 e) (omega (arith, rank_of_elem k v xs s.1 e))

  elem_of_rank :
      (v u : A) (vs : List A)
      → IsSorted less vs
      → found less v vs ≡ some u
      → get_elem? vs (number_below less v vs) ≡ some u
  elem_of_rank v u [] s e = cc
  elem_of_rank v u (x ∷ xs) s e = elim (Bool-cases (less x v)) [
    | inl below ↦
        let next : 1 + number_below less v xs ≡ suc (number_below less v xs) = omega arith in
        rw (below, next) (elem_of_rank v u xs s.1 (rw below at e))
    | inr b ↦ elim (Bool-cases (less v x)) [
      | inl above ↦ let nothing : none ≡ some u = rw (b, above) at e in cc
      | inr same_x ↦
          rw (b, number_below-none o v xs (IsNotBelow-above o v x xs b s.0)) (rw (b, same_x) at e)
    ]
  ]

  -- The value that `select` finds for a rank on a valid set has that rank.
  pub rank-select :
      (s : RankSet A) (k : ℕ) (v : A)
      → IsValid less s
      → pointer (select_node k s.parent []) ≡ some v
      → rank_node less v s.parent 0 ≡ k
  rank-select s k v h e =
      rank_lem o v s.parent h.balanced h.sorted
      ∙ rank_of_elem k v (values s) h.sorted (sym (select_node_lem k s.parent [] h.balanced) ∙ e)

  -- The rank of a value that `find` finds selects the value found.
  pub select-rank :
      (s : RankSet A) (v u : A)
      → IsValid less s
      → pointer (find_node less v s.parent) ≡ some u
      → pointer (select_node (rank_node less v s.parent 0) s.parent []) ≡ some u
  select-rank s v u h e = rw (rank_lem o v s.parent h.balanced h.sorted) (
      select_node_lem (number_below less v (values s)) s.parent [] h.balanced
      ∙ elem_of_rank v u (values s) h.sorted (sym (bounds_lem o v s.parent h.sorted).1 ∙ e))
