-- ===== src/Base/Lists.antt =====
-- Lists measured and indexed by native numbers, under the library's names.
use Prim.Native.Nat.{ℕ, zero, suc, ◌+◌, ◌-◌, ◌≤◌, ◌<◌, min}
use mathlib.Core.Path.{◌≡◌, refl, ap}
use mathlib.Core.List.{List, [], ◌∷◌, ◌++◌, append_assoc, reverse, reverse_aux}
use native.Mathlib.Omega.{arith}

module _ {ℓ} {A : Type ℓ} where
  abbrev pub length : List A → ℕ
  length [] = 0
  length (x ∷ xs) = suc (length xs)

  abbrev pub get_or : List A → ℕ → A → A
  get_or [] i d = d
  get_or (x ∷ xs) zero d = x
  get_or (x ∷ xs) (suc i) d = get_or xs i d

  abbrev pub take : ℕ → List A → List A
  take zero xs = []
  take (suc n) [] = []
  take (suc n) (x ∷ xs) = x ∷ take n xs

  abbrev pub drop : ℕ → List A → List A
  drop zero xs = xs
  drop (suc n) [] = []
  drop (suc n) (x ∷ xs) = drop n xs

  abbrev pub replicate : ℕ → A → List A
  replicate zero a = []
  replicate (suc n) a = a ∷ replicate n a

module _ {ℓ} {A : Type ℓ} where
  pub length-append : (xs ys : List A) → length (xs ++ ys) ≡ length xs + length ys
  length-append [] ys = omega arith
  length-append (x ∷ xs) ys = omega (arith, length-append xs ys)

  pub length-take : (n : ℕ) (xs : List A) → length (take n xs) ≡ min n (length xs)
  length-take zero xs = omega arith
  length-take (suc n) [] = omega arith
  length-take (suc n) (x ∷ xs) = omega (arith, length-take n xs)

  pub length-drop : (n : ℕ) (xs : List A) → length (drop n xs) ≡ length xs - n
  length-drop zero xs = omega arith
  length-drop (suc n) [] = omega arith
  length-drop (suc n) (x ∷ xs) = omega (arith, length-drop n xs)

  pub length-replicate : (n : ℕ) (a : A) → length (replicate n a) ≡ n
  length-replicate zero a = refl
  length-replicate (suc n) a = ap suc (length-replicate n a)

  pub take-append-drop : (n : ℕ) (xs : List A) → take n xs ++ drop n xs ≡ xs
  take-append-drop zero xs = refl
  take-append-drop (suc n) [] = refl
  take-append-drop (suc n) (x ∷ xs) = ap (◌∷◌ x) (take-append-drop n xs)

  pub take_all : (n : ℕ) (xs : List A) → length xs ≤ n → take n xs ≡ xs
  take_all zero [] h = refl
  take_all zero (x ∷ xs) h = absurd (omega arith)
  take_all (suc n) [] h = refl
  take_all (suc n) (x ∷ xs) h = ap (◌∷◌ x) (take_all n xs (omega arith))

  pub drop_all : (n : ℕ) (xs : List A) → length xs ≤ n → drop n xs ≡ []
  drop_all zero [] h = refl
  drop_all zero (x ∷ xs) h = absurd (omega arith)
  drop_all (suc n) [] h = refl
  drop_all (suc n) (x ∷ xs) h = drop_all n xs (omega arith)

  pub take-append_left : (n : ℕ) (xs ys : List A) → n ≤ length xs → take n (xs ++ ys) ≡ take n xs
  take-append_left zero xs ys h = refl
  take-append_left (suc n) [] ys h = absurd (omega arith)
  take-append_left (suc n) (x ∷ xs) ys h = ap (◌∷◌ x) (take-append_left n xs ys (omega arith))

  pub drop-append_left :
      (n : ℕ) (xs ys : List A) → n ≤ length xs → drop n (xs ++ ys) ≡ drop n xs ++ ys
  drop-append_left zero xs ys h = refl
  drop-append_left (suc n) [] ys h = absurd (omega arith)
  drop-append_left (suc n) (x ∷ xs) ys h = drop-append_left n xs ys (omega arith)

  pub take-append_length : (n : ℕ) (xs ys : List A) → length xs ≡ n → take n (xs ++ ys) ≡ xs
  take-append_length zero [] ys h = refl
  take-append_length zero (x ∷ xs) ys h = absurd (omega arith)
  take-append_length (suc n) [] ys h = absurd (omega arith)
  take-append_length (suc n) (x ∷ xs) ys h = ap (◌∷◌ x) (take-append_length n xs ys (omega arith))

  pub drop-append_length : (n : ℕ) (xs ys : List A) → length xs ≡ n → drop n (xs ++ ys) ≡ ys
  drop-append_length zero [] ys h = refl
  drop-append_length zero (x ∷ xs) ys h = absurd (omega arith)
  drop-append_length (suc n) [] ys h = absurd (omega arith)
  drop-append_length (suc n) (x ∷ xs) ys h = drop-append_length n xs ys (omega arith)

  pub drop-nil : (n : ℕ) → drop {A = A} n [] ≡ []
  drop-nil zero = refl
  drop-nil (suc n) = refl

  pub take-nil : (n : ℕ) → take {A = A} n [] ≡ []
  take-nil zero = refl
  take-nil (suc n) = refl

  pub drop-drop : (m n k : ℕ) (xs : List A) → k ≡ n + m → drop m (drop n xs) ≡ drop k xs
  drop-drop m zero k xs e = let same : m ≡ k = omega arith in ap (λ (j : ℕ). drop j xs) same
  drop-drop m (suc n) k [] e = rw (drop-nil m, drop-nil k) refl
  drop-drop m (suc n) zero (x ∷ xs) e = absurd (omega arith)
  drop-drop m (suc n) (suc k) (x ∷ xs) e = drop-drop m n k xs (omega arith)

  pub drop-take : (m n k : ℕ) (xs : List A) → k ≡ n - m → drop m (take n xs) ≡ take k (drop m xs)
  drop-take zero n k xs e = let same : n ≡ k = omega arith in ap (λ (j : ℕ). take j xs) same
  drop-take (suc m) zero k xs e =
      let none_left : k ≡ 0 = omega arith in rw (none_left, drop-nil (suc m)) refl
  drop-take (suc m) (suc n) k [] e = rw (take-nil k) refl
  drop-take (suc m) (suc n) k (x ∷ xs) e = drop-take m n k xs (omega arith)

  -- `memcpy` of `xs` to position `i`; bytes that would fall behind the end are dropped.
  abbrev pub overlay : List A → ℕ → List A → List A
  overlay [] i xs = []
  overlay (y ∷ ys) (suc i) xs = y ∷ overlay ys i xs
  overlay (y ∷ ys) zero [] = y ∷ ys
  overlay (y ∷ ys) zero (x ∷ xs) = x ∷ overlay ys zero xs

  pub length-overlay : (l : List A) (i : ℕ) (xs : List A) → length (overlay l i xs) ≡ length l
  length-overlay [] i xs = refl
  length-overlay (y ∷ ys) (suc i) xs = ap suc (length-overlay ys i xs)
  length-overlay (y ∷ ys) zero [] = refl
  length-overlay (y ∷ ys) zero (x ∷ xs) = ap suc (length-overlay ys zero xs)

  pub overlay_split :
      (l : List A) (i k : ℕ) (xs : List A)
      → k ≡ i + length xs
      → k ≤ length l
      → overlay l i xs ≡ take i l ++ (xs ++ drop k l)
  overlay_split [] zero zero [] e h = refl
  overlay_split [] (suc i) zero xs e h = absurd (omega arith)
  overlay_split [] zero zero (x ∷ xs) e h = absurd (omega arith)
  overlay_split [] i (suc k) xs e h = absurd (omega arith)
  overlay_split (y ∷ ys) (suc i) zero xs e h = absurd (omega arith)
  overlay_split (y ∷ ys) (suc i) (suc k) xs e h =
      ap (◌∷◌ y) (overlay_split ys i k xs (omega arith) (omega arith))
  overlay_split (y ∷ ys) zero zero [] e h = refl
  overlay_split (y ∷ ys) zero (suc k) [] e h = absurd (omega arith)
  overlay_split (y ∷ ys) zero zero (x ∷ xs) e h = absurd (omega arith)
  overlay_split (y ∷ ys) zero (suc k) (x ∷ xs) e h =
      ap (◌∷◌ x) (overlay_split ys zero k xs (omega arith) (omega arith))

  -- The bytes from position `r` up to position `w`.
  abbrev pub slice : List A → ℕ → ℕ → List A
  slice l r w = take (w - r) (drop r l)

  pub length-slice : (l : List A) (r w : ℕ) → w ≤ length l → length (slice l r w) ≡ w - r
  length-slice l r w h = omega (arith, length-take (w - r) (drop r l), length-drop r l)

  -- Bytes stored just behind a slice extend it.
  pub slice-overlay :
      (l : List A) (r w k : ℕ) (xs : List A)
      → r ≤ w
      → k ≡ w + length xs
      → k ≤ length l
      → slice (overlay l w xs) r k ≡ slice l r w ++ xs
  slice-overlay l r w k xs rw' e h = rw (overlay_split l w k xs e h) (
      rw (drop-append_left r (take w l) (xs ++ drop k l) (omega (arith, length-take w l))) (
        rw (drop-take r w (w - r) l refl) (
          rw (← append_assoc (take (w - r) (drop r l)) xs (drop k l)) (
            take-append_length (k - r) (take (w - r) (drop r l) ++ xs) (drop k l) (
              omega (
                arith,
                length-append (take (w - r) (drop r l)) xs,
                length-slice l r w (omega arith),
              ))))))

  pub take-append_more :
      (n m : ℕ) (xs ys : List A) → n ≡ length xs + m → take n (xs ++ ys) ≡ xs ++ take m ys
  take-append_more n m [] ys e = let same : n ≡ m = omega arith in ap (λ (j : ℕ). take j ys) same
  take-append_more zero m (x ∷ xs) ys e = absurd (omega arith)
  take-append_more (suc n) m (x ∷ xs) ys e = ap (◌∷◌ x) (take-append_more n m xs ys (omega arith))

  pub drop-append_more :
      (n m : ℕ) (xs ys : List A) → n ≡ length xs + m → drop n (xs ++ ys) ≡ drop m ys
  drop-append_more n m [] ys e = let same : n ≡ m = omega arith in ap (λ (j : ℕ). drop j ys) same
  drop-append_more zero m (x ∷ xs) ys e = absurd (omega arith)
  drop-append_more (suc n) m (x ∷ xs) ys e = drop-append_more n m xs ys (omega arith)

  pub get_or-drop :
      (n i k : ℕ) (xs : List A) (d : A) → k ≡ n + i → get_or (drop n xs) i d ≡ get_or xs k d
  get_or-drop zero i k xs d e = let same : i ≡ k = omega arith in ap (λ (j : ℕ). get_or xs j d) same
  get_or-drop (suc n) i k [] d e = refl
  get_or-drop (suc n) i zero (x ∷ xs) d e = absurd (omega arith)
  get_or-drop (suc n) i (suc k) (x ∷ xs) d e = get_or-drop n i k xs d (omega arith)

  pub get_or-take : (n i : ℕ) (xs : List A) (d : A) → i < n → get_or (take n xs) i d ≡ get_or xs i d
  get_or-take zero i xs d h = absurd (omega arith)
  get_or-take (suc n) i [] d h = refl
  get_or-take (suc n) zero (x ∷ xs) d h = refl
  get_or-take (suc n) (suc i) (x ∷ xs) d h = get_or-take n i xs d (omega arith)

  pub length-reverse_aux : (xs ys : List A) → length (reverse_aux xs ys) ≡ length xs + length ys
  length-reverse_aux [] ys = omega arith
  length-reverse_aux (x ∷ xs) ys = omega (arith, length-reverse_aux xs (x ∷ ys))

  pub length-reverse : (xs : List A) → length (reverse xs) ≡ length xs
  length-reverse xs = omega (arith, length-reverse_aux xs [])
