-- ===== src/RankSet/Copying.antt =====
-- The copy constructor.
use brickred_server.Base.{ℕ, ◌≡◌, refl, ◌∙◌, sym, Bool, Option, []}
use brickred_server.RankSet.Nodes.{Tree, leaf, node}
use brickred_server.RankSet.Balance.{to_list}
use brickred_server.RankSet.Order.{head?, last?, last?-append}
use brickred_server.RankSet.Neighbours.{leftmost_first, rightmost_last}
use brickred_server.RankSet.Valid.{IsValid}
use brickred_server.RankSet.{RankSet, copy, copy_of, copy_nodes}

module _ {ℓ} {A : Type ℓ} where
  copy_nodes_lem : (t : Tree A) → copy_nodes t ≡ t
  unfolding copy_nodes
  copy_nodes_lem leaf = refl
  copy_nodes_lem (node c l n v r) = rw (copy_nodes_lem l, copy_nodes_lem r) refl

  copied :
      (t : Tree A) (n : ℕ) (l r : Option A)
      → l ≡ head? (to_list t)
      → r ≡ last? (to_list t)
      → copy_of t n ≡ record { parent = t; left = l; right = r; node_count = n }
  copied leaf n l r el er = rw (el, er) refl
  copied (node c a m v b) n l r el er =
      rw
        (
          el ∙ sym (leftmost_first c a m v b),
          er ∙ last?-append (to_list a) (to_list b) v ∙ sym (rightmost_last c a m v b []),
        )
        refl

  -- A copy of a valid set is the same set.
  pub copy_lem : {less : A → A → Bool} (s : RankSet A) → IsValid less s → copy s ≡ s
  unfolding copy
  copy_lem s h =
      rw (copy_nodes_lem s.parent) (copied s.parent s.node_count s.left s.right h.least h.greatest)
