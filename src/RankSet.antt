-- ===== src/RankSet.antt =====
-- src/brickred/rank_set.h: the class `RankSet`, for any type of values and any function that
-- compares them. A pointer that is kept, as `header_->left` and a result are, is the value of its
-- node, since a set has no two values that are the same; `none` is the header, which is `end()`.
-- Within one call a node is a place of Nodes. An operation is `none` where the code would follow a
-- null pointer. Nodes, Rebalance and this file have the code; Run has the theorem on all calls.
pub mod Nodes
pub mod Rebalance
pub mod Balance
pub mod Order
pub mod Searching
pub mod Inserting
pub mod Valid
pub mod Neighbours
pub mod Lookup
pub mod Bounds
pub mod Fronts
pub mod Insert
pub mod Unlinking
pub mod Erase
pub mod Run
pub mod Height
pub mod Walk
pub mod Copying
pub mod Siblings
pub mod Erasing
mod Tests
use brickred_server.Base.{
  ℕ, zero, suc, ◌+◌, ◌-◌, Bool, true, false, not, ◌&&◌, ◌==◌, Option, none, some, List, [], ◌∷◌,
  length, if◌then◌else◌, ◌>>=◌,
}
use brickred_server.RankSet.Nodes.{
  Tree, leaf, node, Frame, left_of, right_of, Place, count, root_of, update_node_count_to_top,
  update_above, leftmost, rightmost, increment, decrement, value_of, search, find_node,
}
use brickred_server.RankSet.Rebalance.{insert_node_fixup, erase_node_fixup}

-- The header's fields.
pub record RankSet {ℓ} (A : Type ℓ) : Type ℓ where
  pub parent : Tree A
  pub left : Option A
  pub right : Option A
  pub node_count : ℕ

module _ {ℓ} {A : Type ℓ} where
  -- The constructor, and `clear`.
  abbrev pub new : RankSet A
  new = record { parent = leaf; left = none; right = none; node_count = 0 }

  abbrev pub clear : RankSet A → RankSet A
  clear s = new

  abbrev pub empty : RankSet A → Bool
  empty s = s.node_count == 0

  abbrev pub size : RankSet A → ℕ
  size s = s.node_count

  abbrev pub begin : RankSet A → Option A
  begin s = s.left

  abbrev pub rbegin : RankSet A → Option A
  rbegin s = s.right

  abbrev pub pointer : Option (Place A) → Option A
  pointer none = none
  pointer (some (t, p)) = value_of t

  abbrev pub below_right : Place A → List (Frame A)
  below_right (leaf, p) = p
  below_right (node red l n v r, p) = right_of red l n v ∷ p

  unfoldable pub copy_nodes : Tree A → Tree A
  copy_nodes leaf = leaf
  copy_nodes (node red l n v r) = node red (copy_nodes l) n v (copy_nodes r)

  abbrev pub copy_of : Tree A → ℕ → RankSet A
  copy_of leaf n = record { parent = leaf; left = none; right = none; node_count = n }
  copy_of t n = record {
    parent = t;
    left = value_of (leftmost t []).0;
    right = value_of (rightmost t []).0;
    node_count = n;
  }

  -- The copy constructor.
  unfoldable pub copy : RankSet A → RankSet A
  unfolding copy_nodes
  copy s = copy_of (copy_nodes s.parent) s.node_count

  -- The node that is unlinked: node_x, the place above it, and the colour that goes.
  abbrev pub relinked : Tree A → (ℕ → A → List (Frame A)) → Option (Tree A × List (Frame A) × Bool)
  relinked leaf path = none
  relinked (node red l n y x) path = some (x, path n y, red)

  unfoldable pub unlink : Tree A → List (Frame A) → Option (Tree A × List (Frame A) × Bool)
  unlink leaf p = none
  unlink (node red leaf n z r) p = some (r, p, red)
  unlink (node red (node cl ll nl vl rl) n z leaf) p = some (node cl ll nl vl rl, p, red)
  unlink (node red (node cl ll nl vl rl) n z (node cr lr nr vr rr)) p =
      relinked (leftmost (node cr lr nr vr rr) []).0
        λ k y. (leftmost (node cr lr nr vr rr) (right_of red (node cl ll nl vl rl) k y ∷ p)).1

  -- Two rounds more than there are nodes above node_x.
  abbrev pub erase_settled : Tree A × List (Frame A) × Bool → Option (Tree A)
  erase_settled (x, p, red) =
      let p' = update_above (count x) p in
      if red then some (root_of x p') else erase_node_fixup (length p' + 2) x p'

  -- The tree of `eraseNode`.
  unfoldable pub erase_tree : Tree A → List (Frame A) → Option (Tree A)
  unfolding unlink
  erase_tree t p = unlink t p >>= erase_settled

  -- The tree of `insertNode` with a new node below a path.
  unfoldable pub insert_below : A → List (Frame A) → Option (Tree A)
  unfolding insert_node_fixup
  insert_below v p =
      let (x, q) = update_node_count_to_top (node true leaf 0 v leaf) p in insert_node_fixup x q

module _ {ℓ} {A : Type ℓ} (less : A → A → Bool) where
  abbrev pub same : A → A → Bool
  same a b = not (less a b) && not (less b a)

  abbrev pub points_to : Option A → A → Bool
  points_to none v = false
  points_to (some u) v = same u v

  -- A pointer that is kept is followed.
  unfoldable pub follow : A → Tree A → List (Frame A) → Option (Place A)
  follow v leaf p = none
  follow v (node red l n x r) p = elim (less v x) [
    | true ↦ follow v l (left_of red n x r ∷ p)
    | false ↦ elim (less x v) [
      | true ↦ follow v r (right_of red l n x ∷ p)
      | false ↦ some (node red l n x r, p)
    ]
  ]

  abbrev pub insert_at_end : A → RankSet A → Option (RankSet A × A × Bool)
  insert_at_end v s = s.right >>= λ u. follow u s.parent [] >>= λ place.
      insert_below v (below_right place) >>= λ t.
      some (record s { parent = t; right = some v; node_count = s.node_count + 1 }, v, true)

  abbrev pub insert_left_of : A → A → List (Frame A) → RankSet A → Option (RankSet A × A × Bool)
  insert_left_of v x p s = insert_below v p >>= λ t. some (
    record s {
      parent = t;
      left = if points_to s.left x then some v else s.left;
      node_count = s.node_count + 1;
    },
    v,
    true,
  )

  abbrev pub insert_right_of : A → Place A → RankSet A → Option (RankSet A × A × Bool)
  insert_right_of v (leaf, p) s = none
  insert_right_of v (node red l n x r, p) s = insert_below v (right_of red l n x ∷ p) >>= λ t.
      some (
        record s {
          parent = t;
          right = if points_to s.right x then some v else s.right;
          node_count = s.node_count + 1;
        },
        v,
        true,
      )

  -- To the left of the node that comes next, from the left child of that.
  abbrev pub insert_left :
      A → A → Tree A → List (Frame A) → RankSet A → Option (RankSet A × A × Bool)
  insert_left v x leaf p s = insert_left_of v x p s
  insert_left v x (node c m k y l) p s = insert_right_of v (rightmost (node c m k y l) p) s

  abbrev pub insert_before : A → Place A → RankSet A → Option (RankSet A × A × Bool)
  insert_before v (leaf, p) s = none
  insert_before v (node red l n x r, p) s =
      if not (less v x) then some (s, x, false) else insert_left v x l (left_of red n x r ∷ p) s

  -- `insertNode`: the set, the node and whether it is new.
  unfoldable pub insert : A → RankSet A → Option (RankSet A × A × Bool)
  insert v s =
      if s.node_count == 0
      then (insert_below v [] >>= λ t.
          some (record { parent = t; left = some v; right = some v; node_count = 1 }, v, true))
      else elim (search less v s.parent [] none) [
        | none ↦ insert_at_end v s
        | some place ↦ insert_before v place s
      ]

  abbrev pub left_without : Tree A → List (Frame A) → A → RankSet A → Option A
  unfolding increment
  left_without t p z s =
      if s.node_count == 1
      then none
      else if points_to s.left z
      then pointer (increment t p)
      else s.left

  abbrev pub right_without : Tree A → List (Frame A) → A → RankSet A → Option A
  unfolding decrement
  right_without t p z s =
      if s.node_count == 1
      then none
      else if points_to s.left z
      then s.right
      else if points_to s.right z
      then pointer (decrement t p)
      else s.right

  -- `erase` of an iterator at a node: the set, and the iterator that is returned.
  unfoldable pub erase_place : Place A → RankSet A → Option (RankSet A × Option A)
  unfolding left_without right_without erase_tree
  erase_place (leaf, p) s = none
  erase_place (node red l n z r, p) s = erase_tree (node red l n z r) p >>= λ t. some (
    record {
      parent = t;
      left = left_without (node red l n z r) p z s;
      right = right_without (node red l n z r) p z s;
      node_count = s.node_count - 1;
    },
    pointer (increment (node red l n z r) p),
  )

  -- `erase` of a value: the set and the number of values erased.
  unfoldable pub erase : A → RankSet A → Option (RankSet A × ℕ)
  unfolding erase_place
  erase v s = elim (find_node less v s.parent) [
    | none ↦ some (s, 0)
    | some place ↦ erase_place place s >>= λ done. some (done.0, 1)
  ]
