-- ===== src/StringUtil/Split.antt =====
-- `split` of src/brickred/string_util.cc: joining undoes it.
use brickred_server.Base.{
  ℕ, zero, suc, ◌+◌, ◌≤◌, ◌<◌, ◌≡◌, refl, sym, ap, inl, inr, true, Bool-cases, some, Option-cases,
  List, [], ◌∷◌, ◌++◌, append-nil, length, take, drop, leb, arith, length-drop,
}
use brickred_server.Base.Int.{ℤ, pos}
use brickred_server.StringUtil.{starts_with, search, limit, split_loop, split}

starts_with_lem :
    (xs ys : List ℕ)
    → starts_with xs ys ≡ true
    → (xs ≡ ys ++ drop (length ys) xs) × (length ys ≤ length xs)
unfolding starts_with
starts_with_lem xs [] h = (refl, omega arith)
starts_with_lem [] (y ∷ ys) h = absurd (ground arith)
starts_with_lem (x ∷ xs) (y ∷ ys) h =
    let same : x ≡ y = ground arith in
    let rest : starts_with xs ys ≡ true = ground arith in
    let later = starts_with_lem xs ys rest in (rw same (ap (◌∷◌ y) later.0), omega (arith, later.1))

-- An occurrence, with its end, cuts the text in three.
occurrence :
    (xs key : List ℕ) (k end : ℕ)
    → search xs key ≡ some k
    → end ≡ k + length key
    → (xs ≡ take k xs ++ (key ++ drop end xs)) × (end ≤ length xs)
unfolding search
occurrence [] key k end h e = elim (Bool-cases (starts_with [] key)) [
  | inl here ↦
      let first : k ≡ 0 = ground arith in
      let last : end ≡ length key = omega arith in rw (first, last) (starts_with_lem [] key here)
  | inr none_here ↦ absurd (ground arith)
]
occurrence (x ∷ xs) key k end h e = elim (Bool-cases (starts_with (x ∷ xs) key)) [
  | inl here ↦
      let first : k ≡ 0 = ground arith in
      let last : end ≡ length key = omega arith in
      rw (first, last) (starts_with_lem (x ∷ xs) key here)
  | inr not_here ↦ elim (Option-cases (search xs key)) [
    | inl nowhere ↦ absurd (ground arith)
    | inr (j, found) ↦
        let next : k ≡ suc j = ground arith in
        let last : end ≡ suc (j + length key) = omega arith in
        let cut = occurrence xs key j (j + length key) found refl in
        rw (next, last) (ap (◌∷◌ x) cut.0, omega (arith, cut.1))
  ]
]

pub search_lem :
    (xs key : List ℕ) (k : ℕ)
    → search xs key ≡ some k
    → (xs ≡ take k xs ++ (key ++ drop (k + length key) xs)) × (k + length key ≤ length xs)
search_lem xs key k h = occurrence xs key k (k + length key) h refl

-- The pieces with the separator between them.
abbrev pub join_rest : List ℕ → List (List ℕ) → List ℕ
join_rest sep [] = []
join_rest sep (piece ∷ pieces) = sep ++ (piece ++ join_rest sep pieces)

abbrev pub join : List ℕ → List (List ℕ) → List ℕ
join sep [] = []
join sep (piece ∷ pieces) = piece ++ join_rest sep pieces

split_loop_rest :
    (fuel count : ℕ) (sep last : List ℕ) (max_split : ℤ)
    → length last < fuel
    → 0 < length sep
    → join_rest sep (split_loop fuel sep max_split count last) ≡ sep ++ last
unfolding split_loop
split_loop_rest zero count sep last max_split room some_sep = absurd (omega arith)
split_loop_rest (suc fuel) count sep last max_split room some_sep =
    elim (Bool-cases (limit max_split count).0) [
      | inl stop ↦ rw (stop, append-nil last) refl
      | inr go ↦ elim (Option-cases (search last sep)) [
        | inl nowhere ↦ rw (go, nowhere, append-nil last) refl
        | inr (k, found) ↦
            let cut = search_lem last sep k found in
            rw
              (
                go,
                found,
                split_loop_rest fuel (limit max_split count).1 sep (drop (k + length sep) last)
                    max_split (omega (arith, length-drop (k + length sep) last)) some_sep,
              )
              (ap (λ (z : List ℕ). sep ++ z) (sym cut.0))
      ]
    ]

-- For every limit, the pieces of `split` joined by the separator give the text back.
pub join-split : (str sep : List ℕ) (max_split : ℤ) → join sep (split str sep max_split) ≡ str
unfolding split split_loop
join-split str [] max_split = append-nil str
join-split str (s ∷ sep) max_split = elim (Bool-cases (limit max_split 0).0) [
  | inl stop ↦ rw (stop, append-nil str) refl
  | inr go ↦ elim (Option-cases (search str (s ∷ sep))) [
    | inl nowhere ↦ rw (go, nowhere, append-nil str) refl
    | inr (k, found) ↦
        let cut = search_lem str (s ∷ sep) k found in
        rw
          (
            go,
            found,
            split_loop_rest (length str) (limit max_split 0).1 (s ∷ sep)
                (drop (k + length (s ∷ sep)) str) max_split
                (omega (arith, length-drop (k + length (s ∷ sep)) str)) (omega arith),
          )
          (sym cut.0)
  ]
]

-- The pieces of the loop, with those before, are at most as many as the limit.
pub length-split_loop :
    (fuel count n : ℕ) (sep last : List ℕ)
    → count ≤ n
    → length (split_loop fuel sep (pos (suc n)) count last) + count ≤ suc n
unfolding split_loop
length-split_loop zero count n sep last h = omega arith
length-split_loop (suc fuel) count n sep last h = elim (Bool-cases (leb (suc n) (suc count))) [
  | inl stop ↦ rw stop (omega arith)
  | inr go ↦ elim (Option-cases (search last sep)) [
    | inl nowhere ↦ rw (go, nowhere) (omega arith)
    | inr (k, found) ↦
        let next : suc count ≤ n = ground arith in
        rw (go, found)
          (omega
            (arith, length-split_loop fuel (suc count) n sep (drop (k + length sep) last) next))
  ]
]

-- A limit above zero bounds the number of pieces.
pub length-split : (str sep : List ℕ) (n : ℕ) → length (split str sep (pos (suc n))) ≤ suc n
unfolding split
length-split str [] n = omega arith
length-split str (s ∷ sep) n =
    omega (arith, length-split_loop (suc (length str)) 0 n (s ∷ sep) str (omega arith))
