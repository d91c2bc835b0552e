-- ===== src/RankSet/Insert.antt =====
-- `insert` on a valid set: the sorted list of its values gets the new one.
use brickred_server.Base.{
  ℕ, ◌+◌, ◌<◌, ◌≡◌, refl, ◌∙◌, ap, sym, Bool, true, false, ◌==◌, Option, none, some, List, [], ◌∷◌,
  ◌++◌, append_assoc, arith, All, Bool-cases, inl, inr, if◌then◌else◌, length, length-append,
}
use brickred_server.RankSet.Nodes.{
  Tree, leaf, node, Frame, left_of, right_of, Place, root_of, next_above, search, rightmost,
}
use brickred_server.RankSet.Balance.{Holds, to_list, before, after, count-length, to_list-root_of}
use brickred_server.RankSet.Order.{
  IsOrder, IsSorted, IsBelow, IsAbove, IsNotBelow, IsSorted-append, head?, last?, inserted, found,
  inserted-append, found-append, inserted-IsSorted, last?-append, head?-append,
}
use brickred_server.RankSet.Searching.{
  pointer-next_above, AtSpot, rightmost_node, spot_below, end_path, search-next_above,
  root_of-end_path, end_path-Holds, end_path_sides,
}
use brickred_server.RankSet.Valid.{
  IsValid, Inserts, values, insert_below_lem, follow_greatest, last_of_some,
}
use brickred_server.RankSet.{
  RankSet, pointer, below_right, insert_below, points_to, insert, insert_left,
}
use brickred_server.RankSet.Fronts.{
  cons_of_head?, nil_of_head?, nil_of_length, least_moved, not_greatest, inserted_front,
  node_count_positive,
}

module _ {ℓ} {A : Type ℓ} {less : A → A → Bool} (o : IsOrder less) (v : A) (s : RankSet A)
    (h : IsValid less s) (q : List (Frame A)) (root : root_of leaf q ≡ s.parent)
    (hq : Holds 0 0 false q) (below : All (IsBelow less v) (before q))
    (not_below : All (IsNotBelow less v) (after q)) where
  split : values s ≡ before q ++ after q
  split = ap to_list (sym root) ∙ to_list-root_of leaf q

  found_after : found less v (values s) ≡ found less v (after q)
  found_after = rw split (found-append o v (before q) (after q) below)

  -- A new node at the end of the search.
  grown :
      (l r : Option A)
      → found less v (after q) ≡ none
      → l ≡ head? (before q ++ (v ∷ after q))
      → r ≡ last? (v ∷ after q)
      → (t : Tree A) × (insert_below v q ≡ some t)
        × IsValid less (record s { parent = t; left = l; right = r; node_count = s.node_count + 1 })
        × (to_list t ≡ inserted less v (values s))
  grown l r new el er =
      let (t, e, g, b, vs) = insert_below_lem v q hq in
      let same_list : to_list t ≡ inserted less v (values s) =
        vs
        ∙ rw split (
            rw
              (
                inserted-append o v (before q) (after q) below,
                inserted_front less v (after q) not_below new,
              )
              refl) in
      (
        t,
        e,
        record {
          balanced = g;
          black_root = b;
          sorted = rw same_list (inserted-IsSorted o v (values s) h.sorted);
          counts = omega (
            arith,
            h.counts,
            count-length s.parent h.balanced,
            ap length split,
            length-append (before q) (after q),
            count-length t g,
            ap length vs,
            length-append (before q) (v ∷ after q),
          );
          least = rw vs el;
          greatest = rw vs (rw (last?-append (before q) (after q) v) er);
        },
        same_list,
      )

  module _ (some_node : 0 < length (values s)) (nodes : (s.node_count == 0) ≡ false) where
    -- No value is left after the place: the node goes below the greatest one.
    to_the_end :
        (m : Place A)
        → search less v s.parent [] none ≡ none
        → after q ≡ []
        → rightmost s.parent [] ≡ m
        → below_right m ≡ q
        → Inserts less v s (insert less v s)
    unfolding insert
    to_the_end m found_end no_more at path =
        let (t, e, good, vs) =
          grown s.left (some v) (rw no_more refl)
            (h.least
              ∙ rw split (
                  head?-append (before q) (after q) (v ∷ after q) (
                    omega (
                      arith,
                      some_node,
                      ap length split,
                      length-append (before q) (after q),
                      ap length no_more,
                    ))))
            (rw no_more refl) in
        let (u, last_u) = last_of_some o (values s) some_node in
        let none_same : found less v (values s) ≡ none = rw (found_after, no_more) refl in
        rw (nodes, found_end)
          (rw none_same (
            record s { parent = t; right = some v; node_count = s.node_count + 1 },
            rw (h.greatest ∙ last_u, follow_greatest o u s.parent h.sorted last_u, at, path, e)
                refl,
            good,
            vs,
          ))

    module _ (x : A) (xs : List A) (follows : after q ≡ x ∷ xs) (new : less v x ≡ true) where
      none_found : found less v (after q) ≡ none
      none_found = rw follows (rw ((rw follows at not_below).0, new) refl)

      whole : values s ≡ before q ++ (x ∷ xs)
      whole = split ∙ ap (λ (ys : List A). before q ++ ys) follows

      around :
          All (IsBelow less x) (before q)
          × IsSorted less (before q)
          × All (IsAbove less x) xs
          × IsSorted less xs
      around = IsSorted-append o (before q) xs x (rw whole at h.sorted)

      last_same : last? (values s) ≡ last? (v ∷ after q)
      last_same = rw (split, follows) (last?-append (before q) xs x)

      new_below_left :
          (c : Bool) (l : Tree A) (n : ℕ) (r : Tree A) (p : List (Frame A)) (m : Place A)
          → rightmost l (left_of c n x r ∷ p) ≡ m
          → below_right m ≡ q
          → Inserts less v s (insert_left less v x l (left_of c n x r ∷ p) s)
      new_below_left c leaf n r p m at path =
          let here : left_of c n x r ∷ p ≡ q = ap below_right at ∙ path in
          let l' : Option A = if points_to less s.left x then some v else s.left in
          let (t, e, good, vs) =
            grown l' s.right none_found
              (rw follows
                (least_moved o s.left v x (before q) xs (h.least ∙ ap head? whole) around.0))
              (h.greatest ∙ last_same) in
          rw (found_after ∙ none_found) (
            record s { parent = t; left = l'; node_count = s.node_count + 1 },
            rw (here, e) refl,
            good,
            vs,
          )
      new_below_left c (node c1 l1 n1 x1 r1) n r p m at path =
          let (c', l', n', x', p', right) = rightmost_node c1 l1 n1 x1 r1 (left_of c n x r ∷ p) in
          let here : right_of c' l' n' x' ∷ p' ≡ q = ap below_right (sym right ∙ at) ∙ path in
          let left_values : before p' ++ (to_list l' ++ (x' ∷ [])) ≡ before q = ap before here in
          let regrouped : (before p' ++ (to_list l' ++ (x' ∷ []))) ++ (x ∷ xs)
              ≡ (before p' ++ to_list l') ++ (x' ∷ x ∷ xs) =
            simp append_assoc in
          let spelled : values s ≡ (before p' ++ to_list l') ++ (x' ∷ x ∷ xs) =
            whole ∙ ap (λ (ys : List A). ys ++ (x ∷ xs)) (sym left_values) ∙ regrouped in
          let above : All (IsAbove less x') (x ∷ xs) =
            (IsSorted-append o (before p' ++ to_list l') (x ∷ xs) x' (rw spelled at h.sorted)).2 in
          let old_last : points_to less s.right x' ≡ false =
            not_greatest o s.right x' x xs
              (h.greatest ∙ ap last? whole ∙ last?-append (before q) xs x) above in
          let some_before : 0 < length (before q) = omega (
            arith,
            ap length left_values,
            length-append (before p') (to_list l' ++ (x' ∷ [])),
            length-append (to_list l') (x' ∷ []),
          ) in
          let r' : Option A = if points_to less s.right x' then some v else s.right in
          let (t, e, good, vs) =
            grown s.left r' none_found
              (h.least ∙ rw split (head?-append (before q) (after q) (v ∷ after q) some_before))
              (rw old_last (h.greatest ∙ last_same)) in
          rw (found_after ∙ none_found) (
            rw right (
              record s { parent = t; right = r'; node_count = s.node_count + 1 },
              rw (here, e) refl,
              good,
              vs,
            ))

    before_target :
        (c : Bool) (l : Tree A) (n : ℕ) (x : A) (r : Tree A) (p : List (Frame A)) (m : Place A)
        → search less v s.parent [] none ≡ some (node c l n x r, p)
        → (xs : List A) → after q ≡ x ∷ xs
        → rightmost l (left_of c n x r ∷ p) ≡ m
        → below_right m ≡ q
        → Inserts less v s (insert less v s)
    unfolding insert
    before_target c l n x r p m target xs follows at path =
        let x_not_below : less x v ≡ false = (rw follows at not_below).0 in
        elim (Bool-cases (less v x)) [
          | inr same_x ↦
              let found_x : found less v (values s) ≡ some x =
                found_after ∙ rw follows (rw (x_not_below, same_x) refl) in
              let unchanged : values s ≡ inserted less v (values s) = rw split (
                rw (inserted-append o v (before q) (after q) below)
                  (rw follows (rw (x_not_below, same_x) refl))) in
              rw (nodes, target, same_x) (rw found_x (s, refl, h, unchanged))
          | inl new ↦ rw (nodes, target, new) (new_below_left x xs follows new c l n r p m at path)
        ]

    at_target :
        (t : Option (Place A)) (m : Place A)
        → search less v s.parent [] none ≡ t
        → pointer t ≡ head? (after q)
        → AtSpot s.parent t m
        → below_right m ≡ q
        → Inserts less v s (insert less v s)
    at_target none m e next spot path = to_the_end m e (nil_of_head? (after q) next) spot path
    at_target (some (leaf, p)) m e next spot path = cc
    at_target (some (node c l n x r, p)) m e next spot path =
        let (xs, follows) = cons_of_head? x (after q) next in
        before_target c l n x r p m e xs follows spot path

module _ {ℓ} {A : Type ℓ} {less : A → A → Bool} (o : IsOrder less) (v : A) (s : RankSet A)
    (h : IsValid less s) where
  insert_in_path :
      (q : List (Frame A))
      → root_of leaf q ≡ s.parent
      → Holds 0 0 false q
      → All (IsBelow less v) (before q)
      → All (IsNotBelow less v) (after q)
      → search less v s.parent [] none ≡ next_above leaf q
      → (s.node_count == 0) ≡ false
      → Inserts less v s (insert less v s)
  insert_in_path [] root hq b a e nodes =
      let pos = node_count_positive less s h nodes in
      absurd (omega (arith, pos, ap (λ (t : Tree A). length (to_list t)) root))
  insert_in_path (f ∷ q) root hq b a e nodes =
      let (m, spot, path) = spot_below f q in
      at_target o v s h (f ∷ q) root hq b a (node_count_positive less s h nodes) nodes
        (next_above leaf (f ∷ q)) m e (pointer-next_above leaf (f ∷ q)) (rw root at spot) path

  -- Into a set without nodes.
  insert_first : (s.node_count == 0) ≡ true → Inserts less v s (insert less v s)
  unfolding insert
  insert_first none_yet =
      let (t, e, g, b, vs) = insert_below_lem v [] refl in
      let no_values : values s ≡ [] =
        nil_of_length (values s) (ground (arith, h.counts, count-length s.parent h.balanced)) in
      rw none_yet (
        rw no_values (
          record { parent = t; left = some v; right = some v; node_count = 1 },
          rw e refl,
          record {
            balanced = g;
            black_root = b;
            sorted = rw vs (tt, tt);
            counts = omega (arith, count-length t g, ap length vs);
            least = rw vs refl;
            greatest = rw vs refl;
          },
          vs,
        ))

  -- `insert` on a valid set never follows a null pointer. It returns the value found and false, or
  -- the new one and true; the set stays valid, and its values are the sorted list with the value
  -- put in, unless one was found.
  pub insert_lem : Inserts less v s (insert less v s)
  insert_lem = elim (Bool-cases (s.node_count == 0)) [
    | inl none_yet ↦ insert_first none_yet
    | inr nodes ↦
        let (b, a) = end_path_sides less v o s.parent [] h.sorted tt tt in
        insert_in_path (end_path less v s.parent []) (root_of-end_path less v s.parent [])
          (end_path-Holds less v s.parent [] h.balanced h.black_root) b a
          (search-next_above less v s.parent []) nodes
  ]
