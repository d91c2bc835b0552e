-- ===== src/RankSet/Erase.antt =====
-- `erase` on a valid set, by an iterator and by a value.
use brickred_server.Base.{
  ℕ, ◌-◌, ◌≡◌, refl, ◌∙◌, ap, sym, Bool, true, false, ◌==◌, Option, none, some, List, [], ◌∷◌, ◌++◌,
  append_assoc, append-nil, arith, All, Bool-cases, inl, inr, if◌then◌else◌, length, length-append,
}
use brickred_server.RankSet.Nodes.{
  Tree, leaf, node, Frame, Place, root_of, search, increment, decrement,
}
use brickred_server.RankSet.Balance.{to_list, before, after, count-length, to_list-root_of}
use brickred_server.RankSet.Order.{
  IsOrder, IsBelow, IsAbove, IsNotBelow, IsSorted-append, IsSorted-without, head?, last?,
  number_erased, removed, found, removed-append, found-append, last?-append, some_last, All-last?,
  asym,
}
use brickred_server.RankSet.Searching.{}
use brickred_server.RankSet.Valid.{IsValid, values}
use brickred_server.RankSet.Neighbours.{
  place-IsBalanced, IsBetween, increment_lem, pointer-decrement, pointer-IsBetween,
}
use brickred_server.RankSet.Lookup.{search_lem, find_none, find_above, find_here}
use brickred_server.RankSet.Unlinking.{erase_tree_lem}
use brickred_server.RankSet.{
  RankSet, pointer, points_to, left_without, right_without, erase_place, erase,
}

module _ {ℓ} {A : Type ℓ} {less : A → A → Bool} (o : IsOrder less) where
  -- The least value without `z`, and the greatest one.
  least_without :
      (k : ℕ) (old next : Option A) (z : A) (bs cs : List A)
      → k ≡ length (bs ++ (z ∷ cs))
      → old ≡ head? (bs ++ (z ∷ cs))
      → All (IsBelow less z) bs
      → next ≡ head? cs
      → (if k == 1 then none else if points_to less old z then next else old) ≡ head? (bs ++ cs)
  least_without k old next z [] [] ek e b n = rw ek refl
  least_without k old next z [] (c ∷ cs) ek e b n =
      let two : (k == 1) ≡ false = ground arith in rw e (rw (two, o.irrefl z) n)
  least_without k old next z (y ∷ bs) cs ek e b n =
      let two : (k == 1) ≡ false = ground (arith, length-append bs (z ∷ cs)) in
      rw e (rw (two, b.0) refl)

  greatest_without :
      (k : ℕ) (least old previous : Option A) (z : A) (bs cs : List A)
      → k ≡ length (bs ++ (z ∷ cs))
      → least ≡ head? (bs ++ (z ∷ cs))
      → old ≡ last? (bs ++ (z ∷ cs))
      → All (IsBelow less z) bs
      → All (IsAbove less z) cs
      → previous ≡ last? bs
      → (if k == 1
          then none
          else if points_to less least z
          then old
          else if points_to less old z
          then previous
          else old)
        ≡ last? (bs ++ cs)
  greatest_without k least old previous z [] [] ek l e b a n = rw ek refl
  greatest_without k least old previous z [] (c ∷ cs) ek l e b a n =
      let two : (k == 1) ≡ false = ground arith in rw l (rw (two, o.irrefl z) e)
  greatest_without k least old previous z (y ∷ bs) [] ek l e b a n =
      let two : (k == 1) ≡ false = ground (arith, length-append bs (z ∷ [])) in
      rw (e ∙ last?-append (y ∷ bs) [] z, l)
        (rw (two, b.0, o.irrefl z) (n ∙ ap last? (sym (append-nil (y ∷ bs)))))
  greatest_without k least old previous z (y ∷ bs) (c ∷ cs) ek l e b a n =
      let two : (k == 1) ≡ false = ground (arith, length-append bs (z ∷ c ∷ cs)) in
      let (w, last_w) = some_last c cs in
      let z-w : less z w ≡ true = All-last? (IsAbove less z) (c ∷ cs) w a last_w in
      let old_w : old ≡ some w = e ∙ last?-append (y ∷ bs) (c ∷ cs) z ∙ last_w in
      rw (old_w, l) (rw (two, b.0, asym o z w z-w, z-w) (sym (last?-append (y ∷ bs) cs c ∙ last_w)))

  module _ (s : RankSet A) (h : IsValid less s) (c : Bool) (l : Tree A) (n : ℕ) (z : A) (r : Tree A)
      (p : List (Frame A)) (root : root_of (node c l n z r) p ≡ s.parent) where
    around : values s ≡ (before p ++ to_list l) ++ (z ∷ (to_list r ++ after p))
    around = ap to_list (sym root) ∙ to_list-root_of (node c l n z r) p ∙ simp append_assoc

    -- `erase` of an iterator at a node of a valid set takes just the value of that node out,
    -- returns an iterator to the value behind it, and leaves a valid set.
    pub erase_place_lem :
        (s' : RankSet A) × (erase_place less (node c l n z r, p) s
          ≡ some (s', head? (to_list r ++ after p)))
        × IsValid less s'
        × (values s' ≡ (before p ++ to_list l) ++ (to_list r ++ after p))
    unfolding erase_place
    erase_place_lem =
        let (g, hp) =
          place-IsBalanced (node c l n z r) p (rw (← root) at h.balanced)
            (rw (← root) at h.black_root) in
        let bs = before p ++ to_list l in
        let cs = to_list r ++ after p in
        let (b, sb, a, sa) = IsSorted-append o bs cs z (rw around at h.sorted) in
        let (t, e, gt, top, vs) = erase_tree_lem c l n z r p g hp in
        let vs' : to_list t ≡ bs ++ cs = vs ∙ sym (append_assoc (before p) (to_list l) cs) in
        let k : s.node_count ≡ length (bs ++ (z ∷ cs)) =
          h.counts ∙ count-length s.parent h.balanced ∙ ap length around in
        let next : pointer (increment (node c l n z r) p) ≡ head? cs =
          pointer-IsBetween (root_of (node c l n z r) p) (before p ++ (to_list l ++ (z ∷ []))) cs
            (increment (node c l n z r) p) (increment_lem c l n z r p) in
        let left' =
          least_without s.node_count s.left (pointer (increment (node c l n z r) p)) z bs cs k
            (h.least ∙ ap head? around) b next in
        let right' =
          greatest_without s.node_count s.left s.right (pointer (decrement (node c l n z r) p)) z bs
            cs k (h.least ∙ ap head? around) (h.greatest ∙ ap last? around) b a
            (pointer-decrement c l n z r p) in
        (
          record {
            parent = t;
            left = left_without less (node c l n z r) p z s;
            right = right_without less (node c l n z r) p z s;
            node_count = s.node_count - 1;
          },
          rw (e, next) refl,
          record {
            balanced = gt;
            black_root = top;
            sorted = rw vs' (IsSorted-without o bs cs z (rw around at h.sorted));
            counts = omega (
              arith,
              k,
              length-append bs (z ∷ cs),
              length-append bs cs,
              count-length t gt,
              ap length vs',
            );
            least = rw vs' left';
            greatest = rw vs' right';
          },
          vs',
        )

  abbrev pub ErasesValue : A → RankSet A → Option (RankSet A × ℕ) → Type ℓ
  ErasesValue v s result =
      (s' : RankSet A) × (result ≡ some (s', number_erased (found less v (values s))))
      × IsValid less s'
      × (values s' ≡ removed less v (values s))

  erase_found :
      (v : A) (s : RankSet A) (t : Option (Place A)) (bs cs : List A)
      → IsValid less s
      → search less v s.parent [] none ≡ t
      → IsBetween s.parent bs cs t
      → values s ≡ bs ++ cs
      → All (IsBelow less v) bs
      → All (IsNotBelow less v) cs
      → ErasesValue v s (erase less v s)
  unfolding erase
  erase_found v s none bs cs h e between split b a =
      let nothing : values s ≡ bs ++ [] = split ∙ ap (λ (w : List A). bs ++ w) between in
      let not_found : found less v (values s) ≡ none = rw nothing (found-append o v bs [] b) in
      let kept : values s ≡ removed less v (values s) =
        rw nothing (sym (removed-append o v bs [] b)) in
      rw (find_none less v s.parent e, erase) (rw not_found (s, refl, h, kept))
  erase_found v s (some (leaf, p)) bs cs h e between split b a = cc
  erase_found v s (some (node c l n x r, p)) bs cs h e between split b a =
      let rest = to_list r ++ after p in
      let at_x : values s ≡ bs ++ (x ∷ rest) =
        split ∙ ap (λ (w : List A). bs ++ w) (sym between.2) in
      let x_not_below : less x v ≡ false = (rw (← between.2) at a).0 in
      let seen : found less v (values s) ≡ (if less v x then none else some x) =
        rw (at_x, found-append o v bs (x ∷ rest) b) (rw x_not_below refl) in
      let left_over : removed less v (values s) ≡ bs ++ (if less v x then x ∷ rest else rest) =
        rw (at_x, removed-append o v bs (x ∷ rest) b) (rw x_not_below refl) in
      elim (Bool-cases (less v x)) [
        | inl above ↦
            rw (find_above less v s.parent c l n x r p e above, erase)
              (rw (seen, left_over, above) (s, refl, h, at_x))
        | inr same_x ↦
            let (s', es, hs, vs) = erase_place_lem s h c l n x r p between.0 in
            rw (find_here less v s.parent c l n x r p e same_x, erase)
              (rw (seen, left_over, same_x)
                (s', rw es refl, hs, vs ∙ ap (λ (w : List A). w ++ rest) between.1))
      ]

  -- `erase` of a value.
  pub erase_lem : (v : A) (s : RankSet A) → IsValid less s → ErasesValue v s (erase less v s)
  erase_lem v s h =
      let (t, bs, cs, e, between, split, b, a) = search_lem o v s.parent h.sorted in
      erase_found v s t bs cs h e between split b a
