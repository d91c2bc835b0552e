-- ===== src/RankSet/Order.antt =====
-- The specification of `RankSet` by a sorted list, for a comparison that is a strict weak order,
-- which is what `std::less` and the comparisons of the standard containers are.
use brickred_server.Base.{
  ℕ, ◌+◌, ◌<◌, subst, ◌≡◌, refl, ap, Bool, true, false, Option, none, some, List, [], ◌∷◌, ◌++◌,
  arith, if◌then◌else◌, All, All-append, Bool-cases, inl, inr, length, zero, suc,
}

pub record IsOrder {ℓ} {A : Type ℓ} (less : A → A → Bool) : Type ℓ where
  pub irrefl : (a : A) → less a a ≡ false
  pub trans : (a b c : A) → less a b ≡ true → less b c ≡ true → less a c ≡ true
  pub negative : (a b c : A) → less a b ≡ false → less b c ≡ false → less a c ≡ false

module _ {ℓ} {A : Type ℓ} where
  abbrev pub head? : List A → Option A
  head? [] = none
  head? (x ∷ xs) = some x

  abbrev pub last? : List A → Option A
  last? [] = none
  last? (x ∷ []) = some x
  last? (x ∷ y ∷ xs) = last? (y ∷ xs)

  abbrev pub get_elem? : List A → ℕ → Option A
  get_elem? [] i = none
  get_elem? (x ∷ xs) zero = some x
  get_elem? (x ∷ xs) (suc i) = get_elem? xs i

  -- The node and the flag that `insert` returns, and the number that `erase` of a value does, by
  -- the value found before.
  abbrev pub insert_answer : A → Option A → A × Bool
  insert_answer v none = (v, true)
  insert_answer v (some u) = (u, false)

  abbrev pub number_erased : Option A → ℕ
  number_erased none = 0
  number_erased (some x) = 1

  pub last?-append : (xs ys : List A) (x : A) → last? (xs ++ (x ∷ ys)) ≡ last? (x ∷ ys)
  last?-append [] ys x = refl
  last?-append (z ∷ []) ys x = refl
  last?-append (z ∷ w ∷ xs) ys x = last?-append (w ∷ xs) ys x

  pub head?-append : (xs ys zs : List A) → 0 < length xs → head? (xs ++ ys) ≡ head? (xs ++ zs)
  head?-append [] ys zs h = absurd (omega arith)
  head?-append (x ∷ xs) ys zs h = refl

  pub some_last : (x : A) (xs : List A) → (z : A) × (last? (x ∷ xs) ≡ some z)
  some_last x [] = (x, refl)
  some_last x (y ∷ xs) = some_last y xs

module _ {ℓ} {A : Type ℓ} (less : A → A → Bool) where
  abbrev pub IsBelow : A → A → Type 0
  IsBelow v x = less x v ≡ true

  abbrev pub IsAbove : A → A → Type 0
  IsAbove v x = less v x ≡ true

  abbrev pub IsNotBelow : A → A → Type 0
  IsNotBelow v x = less x v ≡ false

  abbrev pub IsSorted : List A → Type 0
  IsSorted [] = Unit
  IsSorted (x ∷ xs) = All (IsAbove x) xs × IsSorted xs

  -- What `insert` makes of the values, unless one of them is the same.
  abbrev pub inserted : A → List A → List A
  inserted v [] = v ∷ []
  inserted v (x ∷ xs) =
      if less x v then x ∷ inserted v xs else if less v x then v ∷ x ∷ xs else x ∷ xs

  abbrev pub removed : A → List A → List A
  removed v [] = []
  removed v (x ∷ xs) = if less x v then x ∷ removed v xs else if less v x then x ∷ xs else xs

  -- The first value that is not below `v`, and the first above it.
  abbrev pub first_not_below : A → List A → Option A
  first_not_below v [] = none
  first_not_below v (x ∷ xs) = if less x v then first_not_below v xs else some x

  abbrev pub first_above : A → List A → Option A
  first_above v [] = none
  first_above v (x ∷ xs) = if less v x then some x else first_above v xs

  -- The value that is the same as `v`.
  abbrev pub found : A → List A → Option A
  found v [] = none
  found v (x ∷ xs) = if less x v then found v xs else if less v x then none else some x

  abbrev pub number_below : A → List A → ℕ
  number_below v [] = 0
  number_below v (x ∷ xs) = if less x v then 1 + number_below v xs else number_below v xs

module _ {ℓ κ} {A : Type ℓ} (P : A → Type κ) where
  pub All-first : (xs ys : List A) → All P (xs ++ ys) → All P xs
  All-first [] ys h = tt
  All-first (x ∷ xs) ys h = (h.0, All-first xs ys h.1)

  pub All-last? : (xs : List A) (z : A) → All P xs → last? xs ≡ some z → P z
  All-last? [] z h e = cc
  All-last? (x ∷ []) z h e = subst P (cc) h.0
  All-last? (x ∷ y ∷ xs) z h e = All-last? (y ∷ xs) z h.1 e

  pub All-second : (xs ys : List A) → All P (xs ++ ys) → All P ys
  All-second [] ys h = h
  All-second (x ∷ xs) ys h = All-second xs ys h.1

module _ {ℓ} {A : Type ℓ} {less : A → A → Bool} (o : IsOrder less) where
  pub asym : (a b : A) → less a b ≡ true → less b a ≡ false
  asym a b h = elim (Bool-cases (less b a)) [
    | inl e ↦ absurd (cc (o.irrefl a, o.trans a b a h e))
    | inr e ↦ e
  ]

  pub IsBelow-trans :
      (v x : A) (xs : List A) → less x v ≡ true → All (IsBelow less x) xs → All (IsBelow less v) xs
  IsBelow-trans v x [] h k = tt
  IsBelow-trans v x (y ∷ ys) h k = (o.trans y x v k.0 h, IsBelow-trans v x ys h k.1)

  pub IsNotBelow-above :
      (v x : A) (xs : List A)
      → less x v ≡ false
      → All (IsAbove less x) xs
      → All (IsNotBelow less v) xs
  IsNotBelow-above v x [] h k = tt
  IsNotBelow-above v x (y ∷ ys) h k =
      (o.negative y x v (asym x y k.0) h, IsNotBelow-above v x ys h k.1)

  pub IsAbove-trans :
      (v x : A) (xs : List A) → less v x ≡ true → All (IsAbove less x) xs → All (IsAbove less v) xs
  IsAbove-trans v x [] h k = tt
  IsAbove-trans v x (y ∷ ys) h k = (o.trans v x y h k.0, IsAbove-trans v x ys h k.1)

  pub IsSorted-append :
      (xs ys : List A) (x : A)
      → IsSorted less (xs ++ (x ∷ ys))
      → All (IsBelow less x) xs × IsSorted less xs × All (IsAbove less x) ys × IsSorted less ys
  IsSorted-append [] ys x h = (tt, tt, h.0, h.1)
  IsSorted-append (z ∷ zs) ys x h =
      let (b, s, a, t) = IsSorted-append zs ys x h.1 in
      (
        ((All-second (IsAbove less z) zs (x ∷ ys) h.0).0, b),
        (All-first (IsAbove less z) zs (x ∷ ys) h.0, s),
        a,
        t,
      )

  -- Around a place, the values on the left are below it and the others are not.
  module _ (v : A) where
    pub inserted-append :
        (xs ys : List A)
        → All (IsBelow less v) xs
        → inserted less v (xs ++ ys) ≡ xs ++ inserted less v ys
    inserted-append [] ys h = refl
    inserted-append (x ∷ xs) ys h = rw h.0 (ap (◌∷◌ x) (inserted-append xs ys h.1))

    pub removed-append :
        (xs ys : List A)
        → All (IsBelow less v) xs
        → removed less v (xs ++ ys) ≡ xs ++ removed less v ys
    removed-append [] ys h = refl
    removed-append (x ∷ xs) ys h = rw h.0 (ap (◌∷◌ x) (removed-append xs ys h.1))

    pub found-append :
        (xs ys : List A) → All (IsBelow less v) xs → found less v (xs ++ ys) ≡ found less v ys
    found-append [] ys h = refl
    found-append (x ∷ xs) ys h = rw h.0 (found-append xs ys h.1)

    pub first_not_below-append :
        (xs ys : List A)
        → All (IsBelow less v) xs
        → first_not_below less v (xs ++ ys) ≡ first_not_below less v ys
    first_not_below-append [] ys h = refl
    first_not_below-append (x ∷ xs) ys h = rw h.0 (first_not_below-append xs ys h.1)

    pub number_below-append :
        (xs ys : List A)
        → number_below less v (xs ++ ys) ≡ number_below less v xs + number_below less v ys
    number_below-append [] ys = omega arith
    number_below-append (x ∷ xs) ys = ground (arith, number_below-append xs ys)

    pub number_below-All :
        (xs : List A) → All (IsBelow less v) xs → number_below less v xs ≡ length xs
    number_below-All [] h = refl
    number_below-All (x ∷ xs) h = rw h.0 (omega (arith, number_below-All xs h.1))

    pub number_below-none : (xs : List A) → All (IsNotBelow less v) xs → number_below less v xs ≡ 0
    number_below-none [] h = refl
    number_below-none (x ∷ xs) h = rw h.0 (number_below-none xs h.1)

  All-inserted :
      (P : A → Type 0) (v : A) (xs : List A) → P v → All P xs → All P (inserted less v xs)
  All-inserted P v [] p h = (p, tt)
  All-inserted P v (x ∷ xs) p h = elim (Bool-cases (less x v)) [
    | inl b ↦ rw b (h.0, All-inserted P v xs p h.1)
    | inr b ↦ elim (Bool-cases (less v x)) [ inl a ↦ rw (b, a) (p, h) | inr a ↦ rw (b, a) h ]
  ]

  All-removed : (P : A → Type 0) (v : A) (xs : List A) → All P xs → All P (removed less v xs)
  All-removed P v [] h = tt
  All-removed P v (x ∷ xs) h = elim (Bool-cases (less x v)) [
    | inl b ↦ rw b (h.0, All-removed P v xs h.1)
    | inr b ↦ elim (Bool-cases (less v x)) [ inl a ↦ rw (b, a) h | inr a ↦ rw (b, a) h.1 ]
  ]

  pub inserted-IsSorted :
      (v : A) (xs : List A) → IsSorted less xs → IsSorted less (inserted less v xs)
  inserted-IsSorted v [] h = (tt, tt)
  inserted-IsSorted v (x ∷ xs) h = elim (Bool-cases (less x v)) [
    | inl b ↦ rw b (All-inserted (IsAbove less x) v xs b h.0, inserted-IsSorted v xs h.1)
    | inr b ↦ elim (Bool-cases (less v x)) [
      | inl a ↦ rw (b, a) ((a, IsAbove-trans v x xs a h.0), h)
      | inr a ↦ rw (b, a) h
    ]
  ]

  pub removed-IsSorted :
      (v : A) (xs : List A) → IsSorted less xs → IsSorted less (removed less v xs)
  removed-IsSorted v [] h = tt
  removed-IsSorted v (x ∷ xs) h = elim (Bool-cases (less x v)) [
    | inl b ↦ rw b (All-removed (IsAbove less x) v xs h.0, removed-IsSorted v xs h.1)
    | inr b ↦ elim (Bool-cases (less v x)) [ inl a ↦ rw (b, a) h | inr a ↦ rw (b, a) h.1 ]
  ]

  pub IsSorted-without :
      (xs ys : List A) (x : A) → IsSorted less (xs ++ (x ∷ ys)) → IsSorted less (xs ++ ys)
  IsSorted-without [] ys x h = h.1
  IsSorted-without (z ∷ zs) ys x h = (
    All-append (IsAbove less z) zs ys (All-first (IsAbove less z) zs (x ∷ ys) h.0)
        (All-second (IsAbove less z) zs (x ∷ ys) h.0).1,
    IsSorted-without zs ys x h.1,
  )
