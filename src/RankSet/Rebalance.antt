-- ===== src/RankSet/Rebalance.antt =====
-- src/brickred/rank_set.h: `insertNodeFixup` and `eraseNodeFixup`. `none` stands for a null pointer
-- that is followed, for the header taken for a node of the tree, and for a loop without a round
-- left.
use brickred_server.Base.{
  ℕ, zero, suc, Bool, true, false, not, ◌&&◌, Option, none, some, List, [], ◌∷◌, if◌then◌else◌,
  ◌>>=◌,
}
use brickred_server.RankSet.Nodes.{
  Tree, leaf, node, Frame, left_of, right_of, Place, is_red, paint, plug, root_of,
  update_node_count_to_top, rotate_left, rotate_right,
}

module _ {ℓ} {A : Type ℓ} where
  abbrev pub down_left : Tree A → List (Frame A) → Option (Place A)
  down_left leaf p = none
  down_left (node red l n v r) p = some (l, left_of red n v r ∷ p)

  abbrev pub down_right : Tree A → List (Frame A) → Option (Place A)
  down_right leaf p = none
  down_right (node red l n v r) p = some (r, right_of red l n v ∷ p)

  abbrev pub is_red_frame : Frame A → Bool
  is_red_frame (left_of red n v r) = red
  is_red_frame (right_of red l n v) = red

  -- Case 3: `t` is the parent, with node_x on its outer side.
  abbrev pub insert_outer_left : Tree A → ℕ → A → Tree A → List (Frame A) → Option (Place A)
  insert_outer_left t n v u p =
      rotate_right (node true (paint false t) n v u) >>= λ s. down_left s p

  abbrev pub insert_outer_right : Tree A → Tree A → ℕ → A → List (Frame A) → Option (Place A)
  insert_outer_right t u n v p =
      rotate_left (node true u n v (paint false t)) >>= λ s. down_right s p

  -- Cases 2 and 3: the uncle is black.
  unfoldable pub insert_rotated : Tree A → Frame A → Frame A → List (Frame A) → Option (Place A)
  insert_rotated x (left_of c m y r) (left_of red n v u) p =
      insert_outer_left (node c x m y r) n v u p
  insert_rotated x (right_of c l m y) (left_of red n v u) p =
      rotate_left (node c l m y x) >>= λ t. insert_outer_left t n v u p
  insert_rotated x (right_of c l m y) (right_of red u n v) p =
      insert_outer_right (node c l m y x) u n v p
  insert_rotated x (left_of c m y r) (right_of red u n v) p =
      rotate_right (node c x m y r) >>= λ t. insert_outer_right t u n v p

  -- Case 1: the uncle is red.
  abbrev pub uncle : Frame A → Tree A
  uncle (left_of red n v u) = u
  uncle (right_of red u n v) = u

  abbrev pub recoloured : Tree A → Frame A → Tree A
  recoloured t (left_of red n v u) = node true (paint false t) n v (paint false u)
  recoloured t (right_of red u n v) = node true (paint false u) n v (paint false t)

  -- The loop of `insertNodeFixup`. After case 3 the parent is black, which ends it.
  unfoldable pub insert_loop : Tree A → List (Frame A) → Option (Place A)
  unfolding insert_rotated
  insert_loop x [] = some (x, [])
  insert_loop x (f ∷ []) = if is_red_frame f then none else some (x, f ∷ [])
  insert_loop x (f ∷ g ∷ p) =
      let again = insert_loop (recoloured (plug f x) g) p in
      if not (is_red_frame f)
      then some (x, f ∷ g ∷ p)
      else if is_red (uncle g)
      then again
      else insert_rotated x f g p

  -- What follows the loop.
  abbrev pub insert_settled : Place A → Tree A
  insert_settled (x, p) = let (x', p') = update_node_count_to_top x p in paint false (root_of x' p')

  unfoldable pub insert_node_fixup : Tree A → List (Frame A) → Option (Tree A)
  unfolding insert_loop
  insert_node_fixup x p = insert_loop x p >>= λ place. some (insert_settled place)

  abbrev pub recounted_root : Place A → Tree A
  recounted_root (t, p) = let (t', p') = update_node_count_to_top t p in root_of t' p'

  -- Case 4: the far child of the sibling is red. node_x, which is painted black behind the loop,
  -- is black before it already.
  unfoldable pub erase_last_left : Bool → Tree A → ℕ → A → Tree A → List (Frame A) → Option (Tree A)
  erase_last_left c x n v leaf p = none
  erase_last_left c x n v (node cw w1 m y w2) p =
      rotate_left (node false (paint false x) n v (node c w1 m y (paint false w2))) >>= λ s.
      down_left s p >>= λ place. some (recounted_root place)

  unfoldable pub erase_last_right :
      Bool → Tree A → ℕ → A → Tree A → List (Frame A) → Option (Tree A)
  erase_last_right c leaf n v x p = none
  erase_last_right c (node cw w1 m y w2) n v x p =
      rotate_right (node false (node c (paint false w1) m y w2) n v (paint false x)) >>= λ s.
      down_right s p >>= λ place. some (recounted_root place)

  module _ (again : Tree A → List (Frame A) → Option (Tree A)) where
    -- Cases 2, 3 and 4, from the parent of node_x; the sibling is black.
    unfoldable pub erase_black_left : Tree A → List (Frame A) → Option (Tree A)
    erase_black_left (node c x n v (node cw w1 m y w2)) p =
        if not (is_red w1) && not (is_red w2)
        then again (node c x n v (node true w1 m y w2)) p
        else if is_red w2
        then erase_last_left c x n v (node cw w1 m y w2) p
        else rotate_right (node true (paint false w1) m y w2) >>= λ w. erase_last_left c x n v w p
    erase_black_left _ p = none

    unfoldable pub erase_black_right : Tree A → List (Frame A) → Option (Tree A)
    erase_black_right (node c (node cw w1 m y w2) n v x) p =
        if not (is_red w2) && not (is_red w1)
        then again (node c (node true w1 m y w2) n v x) p
        else if is_red w1
        then erase_last_right c (node cw w1 m y w2) n v x p
        else rotate_left (node true w1 m y (paint false w2)) >>= λ w. erase_last_right c w n v x p
    erase_black_right _ p = none

    abbrev pub red_left_turn : List (Frame A) → Tree A → Option (Tree A)
    red_left_turn p leaf = none
    red_left_turn p (node c l n v r) = erase_black_left l (left_of c n v r ∷ p)

    abbrev pub red_right_turn : List (Frame A) → Tree A → Option (Tree A)
    red_right_turn p leaf = none
    red_right_turn p (node c l n v r) = erase_black_right r (right_of c l n v ∷ p)

    -- Case 1 makes the sibling black.
    unfoldable pub erase_turn : Tree A → Frame A → List (Frame A) → Option (Tree A)
    erase_turn x (left_of c n v w) p =
        if is_red w
        then rotate_left (node true x n v (paint false w)) >>= red_left_turn p
        else erase_black_left (node c x n v w) p
    erase_turn x (right_of c w n v) p =
        if is_red w
        then rotate_right (node true (paint false w) n v x) >>= red_right_turn p
        else erase_black_right (node c w n v x) p

  -- `eraseNodeFixup` of node_x, which may be null.
  unfoldable pub erase_node_fixup : ℕ → Tree A → List (Frame A) → Option (Tree A)
  erase_node_fixup zero x p = none
  erase_node_fixup (suc fuel) x [] = some (paint false x)
  erase_node_fixup (suc fuel) x (f ∷ p) =
      if is_red x
      then some (root_of (paint false x) (f ∷ p))
      else erase_turn (erase_node_fixup fuel) x f p
