-- ===== src/StringUtil/Compare.antt =====
-- The comparisons of src/brickred/string_util.cc that do not tell upper from lower case.
use brickred_server.Base.{ℕ, ◌≡◌, refl, true, false, not, ◌&&◌, List, [], ◌∷◌, ◌==◌, arith}
use brickred_server.StringUtil.{
  lower_char, same_letters, case_insensitive_equal, case_insensitive_less,
}

-- No string is below itself.
pub less_irreflexive : (xs : List ℕ) → case_insensitive_less xs xs ≡ false
unfolding case_insensitive_less
less_irreflexive [] = refl
less_irreflexive (x ∷ xs) = ground (arith, less_irreflexive xs)

-- `CaseInsensitiveLess` is transitive.
pub less_transitive :
    (xs ys zs : List ℕ)
    → case_insensitive_less xs ys ≡ true
    → case_insensitive_less ys zs ≡ true
    → case_insensitive_less xs zs ≡ true
unfolding case_insensitive_less
less_transitive [] [] zs h k = k
less_transitive [] (y ∷ ys) [] h k = ground arith
less_transitive [] (y ∷ ys) (z ∷ zs) h k = ground arith
less_transitive (x ∷ xs) [] zs h k = ground arith
less_transitive (x ∷ xs) (y ∷ ys) [] h k = ground arith
less_transitive (x ∷ xs) (y ∷ ys) (z ∷ zs) h k = ground (arith, less_transitive xs ys zs)

equal_cons :
    (x y : ℕ) (xs ys : List ℕ)
    → case_insensitive_equal (x ∷ xs) (y ∷ ys)
      ≡ ((lower_char x == lower_char y) && case_insensitive_equal xs ys)
unfolding case_insensitive_equal same_letters
equal_cons x y xs ys = ground arith

-- Two strings are equal up to case just if neither is below the other for `CaseInsensitiveLess`.
pub less_trichotomy :
    (xs ys : List ℕ)
    → case_insensitive_equal xs ys
      ≡ (not (case_insensitive_less xs ys) && not (case_insensitive_less ys xs))
unfolding case_insensitive_less
less_trichotomy [] [] = unfold case_insensitive_equal same_letters in refl
less_trichotomy [] (y ∷ ys) = unfold case_insensitive_equal same_letters in ground arith
less_trichotomy (x ∷ xs) [] = unfold case_insensitive_equal same_letters in ground arith
less_trichotomy (x ∷ xs) (y ∷ ys) =
    rw (equal_cons x y xs ys) (ground (arith, less_trichotomy xs ys))
