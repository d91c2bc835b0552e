-- ===== src/RankSet/Fronts.antt =====
-- Facts on the ends of a list of values, and on where a new one goes.
use brickred_server.Base.{
  ◌<◌, ◌≡◌, refl, ◌∙◌, Bool, false, ◌==◌, Option, none, some, List, [], ◌∷◌, ◌++◌, arith, All,
  Bool-cases, inl, inr, if◌then◌else◌, length,
}
use brickred_server.RankSet.Nodes.{}
use brickred_server.RankSet.Balance.{count-length}
use brickred_server.RankSet.Order.{
  IsOrder, IsBelow, IsAbove, IsNotBelow, head?, last?, inserted, found, some_last, All-last?,
}
use brickred_server.RankSet.Searching.{}
use brickred_server.RankSet.Valid.{IsValid, values, not_same_above}
use brickred_server.RankSet.{RankSet, points_to}

pub cons_of_head? {ℓ} :
    {A : Type ℓ} (x : A) (xs : List A) → some x ≡ head? xs → (ys : List A) × (xs ≡ x ∷ ys)
cons_of_head? x [] e = cc
cons_of_head? x (y ∷ ys) e = (ys, cc)

pub nil_of_head? {ℓ} : {A : Type ℓ} (xs : List A) → none ≡ head? xs → xs ≡ []
nil_of_head? [] e = refl
nil_of_head? (y ∷ ys) e = cc

-- When the least value is the one before which a new one goes, the new one is the least.
module _ {ℓ} {A : Type ℓ} {less : A → A → Bool} (o : IsOrder less) where
  pub least_moved :
      (old : Option A) (v x : A) (bs xs : List A)
      → old ≡ head? (bs ++ (x ∷ xs))
      → All (IsBelow less x) bs
      → (if points_to less old x then some v else old) ≡ head? (bs ++ (v ∷ x ∷ xs))
  least_moved old v x [] xs e b = rw e (rw (o.irrefl x) refl)
  least_moved old v x (y ∷ bs) xs e b = rw e (rw b.0 refl)

  -- A node that another one follows is not the greatest.
  pub not_greatest :
      (old : Option A) (x' x : A) (xs : List A)
      → old ≡ last? (x ∷ xs)
      → All (IsAbove less x') (x ∷ xs)
      → points_to less old x' ≡ false
  not_greatest old x' x xs e a =
      let (z, last_z) = some_last x xs in
      rw (e ∙ last_z) (not_same_above o x' z (All-last? (IsAbove less x') (x ∷ xs) z a last_z))

pub nil_of_length {ℓ} : {A : Type ℓ} (xs : List A) → length xs ≡ 0 → xs ≡ []
nil_of_length [] e = refl
nil_of_length (y ∷ ys) e = absurd (omega arith)

module _ {ℓ} {A : Type ℓ} (less : A → A → Bool) where
  -- A value that is not found goes to the front of those that are not below it.
  pub inserted_front :
      (v : A) (xs : List A)
      → All (IsNotBelow less v) xs
      → found less v xs ≡ none
      → inserted less v xs ≡ v ∷ xs
  inserted_front v [] h e = refl
  inserted_front v (x ∷ xs) h e = elim (Bool-cases (less v x)) [
    | inl a ↦ rw (h.0, a) refl
    | inr a ↦ let found_x : some x ≡ none = rw (h.0, a) at e in cc
  ]

  pub node_count_positive :
      (s : RankSet A) → IsValid less s → (s.node_count == 0) ≡ false → 0 < length (values s)
  node_count_positive s h e = ground (arith, h.counts, count-length s.parent h.balanced)
