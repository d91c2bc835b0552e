-- ===== src/RankSet/Nodes.antt =====
-- src/brickred/rank_set.h: the nodes and the ways between them. A null pointer is `leaf`. A node
-- with its `parent` pointers is a place: the tree below it, and for each node above it, from the
-- parent up to the root, what hangs on the other side. `[]` above a node says that its parent is
-- the header.
use brickred_server.Base.{
  ℕ, ◌+◌, Bool, true, false, ◌==◌, ltb, ◌-◌, Option, none, some, List, [], ◌∷◌, if◌then◌else◌,
}

-- is_red, left, node_count, value, right.
pub data Tree {ℓ} (A : Type ℓ) : Type ℓ where
  leaf : Tree A
  node : Bool → Tree A → ℕ → A → Tree A → Tree A

-- A node without its left child, or without its right one.
pub data Frame {ℓ} (A : Type ℓ) : Type ℓ where
  left_of : Bool → ℕ → A → Tree A → Frame A
  right_of : Bool → Tree A → ℕ → A → Frame A

abbrev pub Place {ℓ} : Type ℓ → Type ℓ
Place A = Tree A × List (Frame A)

module _ {ℓ} {A : Type ℓ} where
  abbrev pub is_red : Tree A → Bool
  is_red leaf = false
  is_red (node red l n v r) = red

  abbrev pub count : Tree A → ℕ
  count leaf = 0
  count (node red l n v r) = n

  -- `node->is_red = red`, if there is a node.
  abbrev pub paint : Bool → Tree A → Tree A
  paint red leaf = leaf
  paint red (node old l n v r) = node red l n v r

  abbrev pub plug : Frame A → Tree A → Tree A
  plug (left_of red n v r) l = node red l n v r
  plug (right_of red l n v) r = node red l n v r

  -- The root above a place.
  abbrev pub root_of : Tree A → List (Frame A) → Tree A
  root_of t [] = t
  root_of t (f ∷ p) = root_of (plug f t) p

  -- A node with its `node_count` from `updateNodeCount`.
  abbrev pub counted : Bool → Tree A → A → Tree A → Tree A
  counted red l v r = node red l (count l + count r + 1) v r

  abbrev pub update_node_count : Tree A → Tree A
  update_node_count leaf = leaf
  update_node_count (node red l n v r) = counted red l v r

  abbrev pub update_above : ℕ → List (Frame A) → List (Frame A)
  update_above c [] = []
  update_above c (left_of red n v r ∷ p) =
      let n' = c + count r + 1 in left_of red n' v r ∷ update_above n' p
  update_above c (right_of red l n v ∷ p) =
      let n' = count l + c + 1 in right_of red l n' v ∷ update_above n' p

  -- `updateNodeCountToTop` from the node at a place, and from the node above it.
  abbrev pub update_node_count_to_top : Tree A → List (Frame A) → Place A
  update_node_count_to_top t p = let t' = update_node_count t in (t', update_above (count t') p)

  -- Without the child that comes up, the C++ functions follow a null pointer.
  abbrev pub rotate_left : Tree A → Option (Tree A)
  rotate_left (node red_x l n x (node red_y m k y r)) =
      some (counted red_y (counted red_x l x m) y r)
  rotate_left _ = none

  abbrev pub rotate_right : Tree A → Option (Tree A)
  rotate_right (node red_x (node red_y l k y m) n x r) =
      some (counted red_y l y (counted red_x m x r))
  rotate_right _ = none

  abbrev pub leftmost : Tree A → List (Frame A) → Place A
  leftmost leaf p = (leaf, p)
  leftmost (node red leaf n v r) p = (node red leaf n v r, p)
  leftmost (node red (node c l k x m) n v r) p = leftmost (node c l k x m) (left_of red n v r ∷ p)

  abbrev pub rightmost : Tree A → List (Frame A) → Place A
  rightmost leaf p = (leaf, p)
  rightmost (node red l n v leaf) p = (node red l n v leaf, p)
  rightmost (node red l n v (node c m k x r)) p =
      rightmost (node c m k x r) (right_of red l n v ∷ p)

  -- The way up to the first node whose left side the place is on; `none` is the header.
  abbrev pub next_above : Tree A → List (Frame A) → Option (Place A)
  next_above t [] = none
  next_above t (left_of red n v r ∷ p) = some (node red t n v r, p)
  next_above t (right_of red l n v ∷ p) = next_above (node red l n v t) p

  abbrev pub previous_above : Tree A → List (Frame A) → Option (Place A)
  previous_above t [] = none
  previous_above t (right_of red l n v ∷ p) = some (node red l n v t, p)
  previous_above t (left_of red n v r ∷ p) = previous_above (node red t n v r) p

  -- `increment` and `decrement` of an iterator that is at a node; the first test of `decrement`, for
  -- an iterator at the end, does not hold at a node, since the root is black.
  unfoldable pub increment : Tree A → List (Frame A) → Option (Place A)
  increment (node red l n v (node c m k x r)) p =
      some (leftmost (node c m k x r) (right_of red l n v ∷ p))
  increment t p = next_above t p

  unfoldable pub decrement : Tree A → List (Frame A) → Option (Place A)
  decrement (node red (node c m k x r) n v l) p =
      some (rightmost (node c m k x r) (left_of red n v l ∷ p))
  decrement t p = previous_above t p

  abbrev pub value_of : Tree A → Option A
  value_of leaf = none
  value_of (node red l n v r) = some v

  unfoldable pub select_node : ℕ → Tree A → List (Frame A) → Option (Place A)
  select_node rank leaf p = none
  select_node rank (node red l n v r) p = elim (rank == count l) [
    | true ↦ some (node red l n v r, p)
    | false ↦ elim (ltb rank (count l)) [
      | true ↦ select_node rank l (left_of red n v r ∷ p)
      | false ↦ select_node (rank - (count l + 1)) r (right_of red l n v ∷ p)
    ]
  ]

  module _ (less : A → A → Bool) where
    -- The loop that `findNode`, `lowerBoundNode` and `insertNode` share; `target` as there.
    unfoldable pub search : A → Tree A → List (Frame A) → Option (Place A) → Option (Place A)
    search v leaf p target = target
    search v (node red l n x r) p target = elim (less x v) [
      | false ↦ search v l (left_of red n x r ∷ p) (some (node red l n x r, p))
      | true ↦ search v r (right_of red l n x ∷ p) target
    ]

    unfoldable pub lower_bound_node : A → Tree A → Option (Place A)
    unfolding search
    lower_bound_node v root = search v root [] none

    unfoldable pub find_node : A → Tree A → Option (Place A)
    unfolding search
    find_node v root = elim (search v root [] none) [
      | none ↦ none
      | some (leaf, p) ↦ none
      | some (node red l n x r, p) ↦ if less v x then none else some (node red l n x r, p)
    ]

    abbrev pub search_above : A → Tree A → List (Frame A) → Option (Place A) → Option (Place A)
    search_above v leaf p target = target
    search_above v (node red l n x r) p target = elim (less v x) [
      | true ↦ search_above v l (left_of red n x r ∷ p) (some (node red l n x r, p))
      | false ↦ search_above v r (right_of red l n x ∷ p) target
    ]

    unfoldable pub upper_bound_node : A → Tree A → Option (Place A)
    upper_bound_node v root = search_above v root [] none

    unfoldable pub rank_node : A → Tree A → ℕ → ℕ
    rank_node v leaf rank = rank
    rank_node v (node red l n x r) rank = elim (less v x) [
      | true ↦ rank_node v l rank
      | false ↦ elim (less x v) [
        | true ↦ rank_node v r (rank + (1 + count l))
        | false ↦ rank + count l
      ]
    ]
