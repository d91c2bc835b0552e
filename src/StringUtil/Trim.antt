-- ===== src/StringUtil/Trim.antt =====
-- `ltrim`, `rtrim` and `trim` of src/brickred/string_util.cc.
use brickred_server.Base.{
  ℕ, suc, ◌+◌, ◌≡◌, refl, sym, ap, subst, ◌∙◌, inl, inr, Bool, true, false, not, ◌&&◌, Bool-cases,
  none, some, Option-cases, List, [], ◌∷◌, ◌++◌, take, if◌then◌else◌, arith,
}
use brickred_server.StringUtil.{is_in, find_first_not_of, find_last_not_of, ltrim, rtrim, trim}

-- All characters are of `ws`; the first is not; the last is not.
abbrev pub all_in : List ℕ → List ℕ → Bool
all_in [] ws = true
all_in (c ∷ cs) ws = is_in c ws && all_in cs ws

abbrev pub first_out : List ℕ → List ℕ → Bool
first_out [] ws = true
first_out (c ∷ cs) ws = not (is_in c ws)

abbrev pub last_out : List ℕ → List ℕ → Bool
last_out [] ws = true
last_out (c ∷ []) ws = not (is_in c ws)
last_out (c ∷ d ∷ cs) ws = last_out (d ∷ cs) ws

ltrim_in : (c : ℕ) (cs ws : List ℕ) → is_in c ws ≡ true → ltrim (c ∷ cs) ws ≡ ltrim cs ws
unfolding ltrim find_first_not_of
ltrim_in c cs ws e = elim (Option-cases (find_first_not_of cs ws)) [
  | inl nowhere ↦ rw (ltrim, e, nowhere) refl
  | inr (k, found) ↦ rw (ltrim, e, found) refl
]

ltrim_out : (c : ℕ) (cs ws : List ℕ) → is_in c ws ≡ false → ltrim (c ∷ cs) ws ≡ c ∷ cs
unfolding ltrim find_first_not_of
ltrim_out c cs ws e = rw (ltrim, e) refl

ltrim_parts :
    (str ws : List ℕ)
    → (a : List ℕ) × ((str ≡ a ++ ltrim str ws)
        × ((all_in a ws ≡ true) × (first_out (ltrim str ws) ws ≡ true)))
ltrim_parts [] ws = ([], (unfold ltrim in refl, (refl, unfold ltrim in refl)))
ltrim_parts (c ∷ cs) ws = elim (Bool-cases (is_in c ws)) [
  | inl inside ↦
      let (a, (whole, (blank, clean))) = ltrim_parts cs ws in
      rw (ltrim_in c cs ws inside) (c ∷ a, (ap (◌∷◌ c) whole, (rw inside blank, clean)))
  | inr outside ↦ rw (ltrim_out c cs ws outside) ([], (refl, (refl, rw outside refl)))
]

rtrim_step :
    (c k : ℕ) (cs ws : List ℕ)
    → find_last_not_of cs ws ≡ some k
    → rtrim (c ∷ cs) ws ≡ c ∷ rtrim cs ws
unfolding rtrim find_last_not_of
rtrim_step c k cs ws found =
    let longer : suc k + 1 ≡ suc (k + 1) = omega arith in
    rw (rtrim, found) (ap (λ (n : ℕ). take n (c ∷ cs)) longer)

rtrim_end :
    (c : ℕ) (cs ws : List ℕ)
    → find_last_not_of cs ws ≡ none
    → (rtrim cs ws ≡ []) × (rtrim (c ∷ cs) ws ≡ (if is_in c ws then [] else (c ∷ [])))
unfolding rtrim find_last_not_of
rtrim_end c cs ws nowhere = elim (Bool-cases (is_in c ws)) [
  | inl inside ↦ rw (rtrim, nowhere, inside) (refl, refl)
  | inr outside ↦ rw (rtrim, nowhere, outside) (refl, refl)
]

rtrim-some :
    (k : ℕ) (cs ws : List ℕ)
    → find_last_not_of cs ws ≡ some k
    → last_out (rtrim cs ws) ws ≡ true
    → (c : ℕ) → last_out (c ∷ rtrim cs ws) ws ≡ true
unfolding rtrim
rtrim-some k [] ws found clean c = absurd (unfold find_last_not_of in ground arith)
rtrim-some k (d ∷ ds) ws found clean c =
    let longer : k + 1 ≡ suc k = omega arith in
    let same : rtrim (d ∷ ds) ws ≡ d ∷ take k ds =
      rw (rtrim, found) (ap (λ (n : ℕ). take n (d ∷ ds)) longer) in
    subst (λ (z : List ℕ). last_out (c ∷ z) ws ≡ true) (sym same)
      (subst (λ (z : List ℕ). last_out z ws ≡ true) same clean)

rtrim_parts :
    (str ws : List ℕ)
    → (b : List ℕ) × ((str ≡ rtrim str ws ++ b)
        × ((all_in b ws ≡ true) × (last_out (rtrim str ws) ws ≡ true)))
rtrim_parts [] ws = ([], (unfold rtrim in refl, (refl, unfold rtrim in refl)))
rtrim_parts (c ∷ cs) ws =
    let (b, (whole, (blank, clean))) = rtrim_parts cs ws in
    elim (Option-cases (find_last_not_of cs ws)) [
      | inl nowhere ↦
          let ends = rtrim_end c cs ws nowhere in
          let rest : cs ≡ b = whole ∙ ap (λ (z : List ℕ). z ++ b) ends.0 in
          elim (Bool-cases (is_in c ws)) [
            | inl inside ↦ rw (ends.1, inside) (c ∷ b, (ap (◌∷◌ c) rest, (rw inside blank, refl)))
            | inr outside ↦ rw (ends.1, outside) (b, (ap (◌∷◌ c) rest, (blank, rw outside refl)))
          ]
      | inr (k, found) ↦
          rw (rtrim_step c k cs ws found)
            (b, (ap (◌∷◌ c) whole, (blank, rtrim-some k cs ws found clean c)))
    ]

-- A string that begins with no character of `ws` does so after `rtrim`.
first_out-append : (xs ys ws : List ℕ) → first_out (xs ++ ys) ws ≡ true → first_out xs ws ≡ true
first_out-append [] ys ws h = refl
first_out-append (x ∷ xs) ys ws h = h

-- `trim` cuts off, at both ends, characters of `ws` only, and what is left neither begins nor ends
-- with one.
pub trim_lem :
    (str ws : List ℕ)
    → (a : List ℕ) × ((b : List ℕ) × ((str ≡ a ++ (trim str ws ++ b))
          × (((all_in a ws ≡ true) × (all_in b ws ≡ true))
              × ((first_out (trim str ws) ws ≡ true) × (last_out (trim str ws) ws ≡ true)))))
unfolding trim
trim_lem str ws =
    let (a, (whole, (blank, clean))) = ltrim_parts str ws in
    let (b, (whole', (blank', clean'))) = rtrim_parts (ltrim str ws) ws in
    let first : first_out (rtrim (ltrim str ws) ws) ws ≡ true =
      first_out-append (rtrim (ltrim str ws) ws) b ws
        (subst (λ (z : List ℕ). first_out z ws ≡ true) whole' clean) in
    (a, (b, (whole ∙ ap (λ (z : List ℕ). a ++ z) whole', ((blank, blank'), (first, clean')))))
