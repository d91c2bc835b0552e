-- ===== src/StringUtil/Replace.antt =====
-- `replace` of src/brickred/string_util.cc against `split`.
use brickred_server.Base.{
  ℕ, zero, suc, ◌+◌, ◌≤◌, ◌<◌, ◌≡◌, refl, sym, ap, ◌∙◌, inl, inr, true, false, Bool-cases, none,
  some, Option-cases, List, [], ◌∷◌, ◌++◌, append-nil, append_assoc, length, take, drop,
  if◌then◌else◌, arith, length-append, length-take, length-drop, take-append_more, drop-append_more,
  drop-append_length,
}
use brickred_server.Base.Int.{ℤ, pos, negsuc}
use brickred_server.StringUtil.{search, limit, split_loop, split, replace_at, replace_loop, replace}
use brickred_server.StringUtil.Split.{search_lem, join, join_rest}

-- The limit of `split` that stands for a limit of `replace`, after `count` replacements.
data Matches : ℤ → ℤ → ℕ → Type 0 where
  free : {m c : ℕ} → Matches (negsuc m) (pos 0) c
  bounded : {m c : ℕ} → c ≤ m → Matches (pos (suc m)) (pos (suc (suc m))) c

Matches-go : {r s : ℤ} {c : ℕ} → Matches r s c → (limit s c).0 ≡ false
Matches-go free = refl
Matches-go (bounded h) = ground arith

Matches-count : {r s : ℤ} {c : ℕ} → Matches r s c → (limit s c).1 ≡ (limit r c).1
Matches-count free = refl
Matches-count (bounded h) = refl

Matches-stop : {r s : ℤ} {c : ℕ} → Matches r s c → (limit s (limit r c).1).0 ≡ (limit r c).0
Matches-stop free = refl
Matches-stop (bounded h) = ground arith

Matches-next : {r s : ℤ} {c : ℕ} → Matches r s c → (limit r c).0 ≡ false → Matches r s (limit r c).1
Matches-next free e = free
Matches-next (bounded h) e = bounded (ground arith)

replace_none :
    (fuel count from : ℕ) (key by ret : List ℕ) (r : ℤ)
    → search (drop from ret) key ≡ none
    → replace_loop (suc fuel) key by r count ret from ≡ ret
unfolding replace_loop
replace_none fuel count from key by ret r nowhere = rw (replace_loop, nowhere) refl

replace_some :
    (fuel count from k : ℕ) (key by ret : List ℕ) (r : ℤ)
    → search (drop from ret) key ≡ some k
    → replace_loop (suc fuel) key by r count ret from ≡ (
        if (limit r count).0
        then replace_at ret (from + k) (length key) by
        else replace_loop fuel key by r
            (limit r count).1
            (replace_at ret (from + k) (length key) by)
            (from + k + length by))
unfolding replace_loop
replace_some fuel count from k key by ret r found = rw (replace_loop, found) refl

split_none :
    (fuel count : ℕ) (sep last : List ℕ) (s : ℤ)
    → (limit s count).0 ≡ false
    → search last sep ≡ none
    → split_loop (suc fuel) sep s count last ≡ last ∷ []
unfolding split_loop
split_none fuel count sep last s go nowhere = rw (go, nowhere) refl

split_some :
    (fuel count k : ℕ) (sep last : List ℕ) (s : ℤ)
    → (limit s count).0 ≡ false
    → search last sep ≡ some k
    → split_loop (suc fuel) sep s count last
      ≡ take k last ∷ split_loop fuel sep s (limit s count).1 (drop (k + length sep) last)
unfolding split_loop
split_some fuel count k sep last s go found = rw (go, found) refl

replace_at_lem :
    (done rest by : List ℕ) (k n : ℕ)
    → replace_at (done ++ rest) (length done + k) n by
      ≡ (done ++ (take k rest ++ by)) ++ drop (k + n) rest
unfolding replace_at
replace_at_lem done rest by k n =
    rw
      (
        take-append_more (length done + k) k done rest refl,
        drop-append_more (length done + k + n) (k + n) done rest (omega arith),
        append_assoc done (take k rest) (by ++ drop (k + n) rest),
        append_assoc done (take k rest ++ by) (drop (k + n) rest),
        append_assoc (take k rest) by (drop (k + n) rest),
      )
      refl

join_rest_lem :
    (fuel count : ℕ) (sep last by : List ℕ) (max_split : ℤ)
    → 0 < fuel
    → join_rest by (split_loop fuel sep max_split count last)
      ≡ by ++ join by (split_loop fuel sep max_split count last)
unfolding split_loop
join_rest_lem zero count sep last by max_split h = absurd (omega arith)
join_rest_lem (suc fuel) count sep last by max_split h =
    elim (Bool-cases (limit max_split count).0) [
      | inl stop ↦ rw stop refl
      | inr go ↦ elim (Option-cases (search last sep)) [
        | inl nowhere ↦ rw (go, nowhere) refl
        | inr (k, found) ↦ rw (go, found) refl
      ]
    ]

split_loop_stop :
    (fuel count : ℕ) (sep last : List ℕ) (max_split : ℤ)
    → 0 < fuel
    → (limit max_split count).0 ≡ true
    → split_loop fuel sep max_split count last ≡ last ∷ []
unfolding split_loop
split_loop_stop zero count sep last max_split h stop = absurd (omega arith)
split_loop_stop (suc fuel) count sep last max_split h stop = rw stop refl

-- The end of the part that is done.
length-done :
    (done rest by : List ℕ) (k n : ℕ)
    → k + n ≤ length rest
    → length done + k + length by ≡ length (done ++ (take k rest ++ by))
length-done done rest by k n h = omega (
  arith,
  length-append done (take k rest ++ by),
  length-append (take k rest) by,
  length-take k rest,
)

replace_loop_lem :
    (fuel count : ℕ) (key by done rest : List ℕ) (r s : ℤ)
    → Matches r s count
    → length rest < fuel
    → 0 < length key
    → replace_loop fuel key by r count (done ++ rest) (length done)
      ≡ done ++ join by (split_loop fuel key s count rest)
replace_loop_lem zero count key by done rest r s m room some_key = absurd (omega arith)
replace_loop_lem (suc fuel) count key by done rest r s m room some_key =
    let here : search (drop (length done) (done ++ rest)) key ≡ search rest key =
      ap (λ (z : List ℕ). search z key) (drop-append_length (length done) done rest refl) in
    elim (Option-cases (search rest key)) [
      | inl nowhere ↦
          rw
            (
              replace_none fuel count (length done) key by (done ++ rest) r (here ∙ nowhere),
              split_none fuel count key rest s (Matches-go m) nowhere,
              append-nil rest,
            )
            refl
      | inr (k, found) ↦
          let cut = search_lem rest key k found in
          let left : List ℕ = drop (k + length key) rest in
          let done' : List ℕ = done ++ (take k rest ++ by) in
          let c' : ℕ = (limit r count).1 in
          let fewer : length left < fuel =
            omega (arith, cut.1, length-drop (k + length key) rest) in
          rw
            (
              replace_some fuel count (length done) k key by (done ++ rest) r (here ∙ found),
              split_some fuel count k key rest s (Matches-go m) found,
              Matches-count m,
              replace_at_lem done rest by k (length key),
              length-done done rest by k (length key) cut.1,
              join_rest_lem fuel c' key left by s (omega arith),
              ← append_assoc (take k rest) by (join by (split_loop fuel key s c' left)),
              ← append_assoc done (take k rest ++ by) (join by (split_loop fuel key s c' left)),
            )
            (elim (Bool-cases (limit r count).0) [
              | inl stop ↦
                  let over : (limit s c').0 ≡ true = Matches-stop m ∙ stop in
                  rw (stop, split_loop_stop fuel c' key left s (omega arith) over, append-nil left)
                    refl
              | inr go ↦ rw go (
                  replace_loop_lem fuel c' key by done' left r s (Matches-next m go) fewer some_key)
            ])
    ]

-- The limit for `split` that leaves as many separators as `replace` replaces: none for `replace`
-- below zero, and one piece more than replacements above.
abbrev pub split_limit : ℤ → ℤ
split_limit (pos n) = pos (suc n)
split_limit (negsuc n) = pos 0

-- `replace` with a limit of replacements, or without one, is `split` by the searched text with
-- the matching limit, and the pieces joined by the other text.
pub replace-split :
    (str key by : List ℕ) (max_replace : ℤ)
    → 0 < length key
    → replace str key by max_replace ≡ join by (split str key (split_limit max_replace))
unfolding replace split
replace-split str [] by max_replace h = absurd (omega arith)
replace-split str (k ∷ key) by (pos zero) h = sym (
    ap (join by)
      (split_loop_stop (suc (length str)) 0 (k ∷ key) str (pos 1) (omega arith) (ground arith))
    ∙ append-nil str)
replace-split str (k ∷ key) by (pos (suc n)) h =
    replace_loop_lem (suc (length str)) 0 (k ∷ key) by [] str (pos (suc n)) (pos (suc (suc n)))
      (bounded (omega arith)) (omega arith) h
replace-split str (k ∷ key) by (negsuc n) h =
    replace_loop_lem (suc (length str)) 0 (k ∷ key) by [] str (negsuc n) (pos 0) free (omega arith)
      h
