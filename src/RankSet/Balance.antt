-- ===== src/RankSet/Balance.antt =====
-- What makes the tree of a set red-black and its counts right, and that a place at which it holds
-- makes a tree at which it does.
use brickred_server.Base.{
  ℕ, ◌+◌, ◌≡◌, refl, ◌∙◌, append-nil, Bool, true, false, ◌&&◌, ◌||◌, List, [], ◌∷◌, ◌++◌,
  append_assoc, arith, length, length-append,
}
use brickred_server.RankSet.Nodes.{
  Tree, leaf, node, Frame, left_of, right_of, is_red, count, paint, root_of, update_node_count,
  update_above,
}

abbrev pub black : Bool → ℕ
black true = 0
black false = 1

module _ {ℓ} {A : Type ℓ} where
  -- The number of black nodes on the way down to the left.
  abbrev pub height : Tree A → ℕ
  height leaf = 0
  height (node red l n v r) = height l + black red

  -- No red node has a red child, all ways down have as many black nodes, and each node counts
  -- those below it and itself.
  abbrev pub IsBalanced : Tree A → Type 0
  IsBalanced leaf = Unit
  IsBalanced (node red l n v r) =
      IsBalanced l
      × IsBalanced r
      × (n ≡ count l + count r + 1)
      × (height l ≡ height r)
      × ((red && (is_red l || is_red r)) ≡ false)

  -- The same of a way up from a tree of a given count, height and colour; the root is black.
  abbrev pub Holds : ℕ → ℕ → Bool → List (Frame A) → Type 0
  Holds c h red_below [] = red_below ≡ false
  Holds c h red_below (left_of red n v r ∷ p) =
      IsBalanced r
      × (n ≡ c + count r + 1)
      × (h ≡ height r)
      × ((red && (red_below || is_red r)) ≡ false)
      × Holds n (h + black red) red p
  Holds c h red_below (right_of red l n v ∷ p) =
      IsBalanced l
      × (n ≡ count l + c + 1)
      × (height l ≡ h)
      × ((red && (is_red l || red_below)) ≡ false)
      × Holds n (height l + black red) red p

  -- `Holds` under a tree; above the root any colour will do.
  abbrev pub Fits : Tree A → List (Frame A) → Type 0
  Fits t [] = Unit
  Fits t (f ∷ p) = Holds (count t) (height t) (is_red t) (f ∷ p)

  pub Holds-black :
      (c h : ℕ) (red : Bool) (p : List (Frame A)) → Holds c h red p → Holds c h false p
  Holds-black c h red [] k = refl
  Holds-black c h red (left_of b n v r ∷ p) k = ground arith
  Holds-black c h red (right_of b l n v ∷ p) k = ground arith

  pub Holds-same :
      {c c' h h' : ℕ} (red : Bool) (p : List (Frame A))
      → c ≡ c'
      → h ≡ h'
      → Holds c h red p
      → Holds c' h' red p
  Holds-same red p e k m = rw (← e, ← k) m

  pub root_of-IsBalanced :
      (t : Tree A) (p : List (Frame A))
      → IsBalanced t
      → Holds (count t) (height t) (is_red t) p
      → IsBalanced (root_of t p) × (is_red (root_of t p) ≡ false)
  root_of-IsBalanced t [] g k = (g, k)
  root_of-IsBalanced t (left_of b n v r ∷ p) g k =
      root_of-IsBalanced (node b t n v r) p (g, k.0, k.1, k.2, k.3) k.4
  root_of-IsBalanced t (right_of b l n v ∷ p) g k =
      root_of-IsBalanced (node b l n v t) p (k.0, g, k.1, k.2, k.3) k.4

  pub paint-IsBalanced :
      (t : Tree A) → IsBalanced t → IsBalanced (paint false t) × (is_red (paint false t) ≡ false)
  paint-IsBalanced leaf g = (tt, refl)
  paint-IsBalanced (node red l n v r) g = (ground arith, refl)

  pub count-paint : (red : Bool) (t : Tree A) → count (paint red t) ≡ count t
  count-paint red leaf = refl
  count-paint red (node b l n v r) = refl

  -- With right counts, `updateNodeCountToTop` changes nothing.
  pub update_above_same :
      (c h : ℕ) (red : Bool) (p : List (Frame A)) → Holds c h red p → update_above c p ≡ p
  update_above_same c h red [] k = refl
  update_above_same c h red (left_of b n v r ∷ p) k =
      rw (← k.1) (rw (update_above_same n (h + black b) b p k.4) refl)
  update_above_same c h red (right_of b l n v ∷ p) k =
      rw (← k.1) (rw (update_above_same n (height l + black b) b p k.4) refl)

  pub update_above-Fits :
      (t : Tree A) (p : List (Frame A)) → Fits t p → update_above (count t) p ≡ p
  update_above-Fits t [] k = refl
  update_above-Fits t (f ∷ p) k = update_above_same (count t) (height t) (is_red t) (f ∷ p) k

  pub Fits-root_of :
      (t : Tree A) (p : List (Frame A)) → IsBalanced t → Fits t p → IsBalanced (root_of t p)
  Fits-root_of t [] g k = g
  Fits-root_of t (f ∷ p) g k = (root_of-IsBalanced t (f ∷ p) g k).0

  pub update_node_count_same : (t : Tree A) → IsBalanced t → update_node_count t ≡ t
  update_node_count_same leaf g = refl
  update_node_count_same (node red l n v r) g = rw (← g.2) refl

  -- The values in order, and those left and right of a place.
  abbrev pub to_list : Tree A → List A
  to_list leaf = []
  to_list (node red l n v r) = to_list l ++ (v ∷ to_list r)

  abbrev pub before : List (Frame A) → List A
  before [] = []
  before (left_of red n v r ∷ p) = before p
  before (right_of red l n v ∷ p) = before p ++ (to_list l ++ (v ∷ []))

  abbrev pub after : List (Frame A) → List A
  after [] = []
  after (left_of red n v r ∷ p) = v ∷ (to_list r ++ after p)
  after (right_of red l n v ∷ p) = after p

  pub to_list-root_of :
      (t : Tree A) (p : List (Frame A)) → to_list (root_of t p) ≡ before p ++ (to_list t ++ after p)
  to_list-root_of t [] = simp append-nil
  to_list-root_of t (left_of red n v r ∷ p) =
      to_list-root_of (node red t n v r) p ∙ simp append_assoc
  to_list-root_of t (right_of red l n v ∷ p) =
      to_list-root_of (node red l n v t) p ∙ simp append_assoc

  pub to_list-paint : (red : Bool) (t : Tree A) → to_list (paint red t) ≡ to_list t
  to_list-paint red leaf = refl
  to_list-paint red (node b l n v r) = refl

  pub count-length : (t : Tree A) → IsBalanced t → count t ≡ length (to_list t)
  count-length leaf g = refl
  count-length (node red l n v r) g = omega (
    arith,
    g.2,
    count-length l g.0,
    count-length r g.1,
    length-append (to_list l) (v ∷ to_list r),
  )
