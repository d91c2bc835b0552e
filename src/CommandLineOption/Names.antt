-- ===== src/CommandLineOption/Names.antt =====
-- How `split` takes a long option of command_line_option.cc apart.
use brickred_server.Base.{
  ℕ, zero, suc, ◌+◌, ◌≤◌, ◌≡◌, refl, ap, ◌==◌, false, none, some, List, [], ◌∷◌, ◌++◌, length,
  arith, All, length-append, take-append_length, drop-append_more,
}
use brickred_server.Base.Int.{pos}
use brickred_server.StringUtil.{starts_with, search, split, split_loop}

-- A name without an equals sign.
abbrev pub IsName : List ℕ → Type 0
IsName name = All (λ c. (c == 0x3d) ≡ false) name

search-IsName : (name : List ℕ) → IsName name → search name (0x3d ∷ []) ≡ none
unfolding search starts_with
search-IsName [] h = refl
search-IsName (c ∷ cs) h = rw (h.0, search-IsName cs h.1) refl

search_equals :
    (name value : List ℕ)
    → IsName name
    → search (name ++ 0x3d ∷ value) (0x3d ∷ []) ≡ some (length name)
unfolding search starts_with
search_equals [] value h = refl
search_equals (c ∷ cs) value h = rw (h.0, search_equals cs value h.1) refl

pub split-IsName : (name : List ℕ) → IsName name → split name (0x3d ∷ []) (pos 2) ≡ name ∷ []
unfolding split split_loop
split-IsName name h = rw (search-IsName name h) refl

last_piece :
    (fuel : ℕ) (value : List ℕ)
    → 1 ≤ fuel
    → split_loop fuel (0x3d ∷ []) (pos 2) 1 value ≡ value ∷ []
unfolding split_loop
last_piece zero value h = absurd (omega arith)
last_piece (suc fuel) value h = refl

pub split_equals :
    (name value : List ℕ)
    → IsName name
    → split (name ++ 0x3d ∷ value) (0x3d ∷ []) (pos 2) ≡ name ∷ value ∷ []
unfolding split split_loop
split_equals name value h =
    rw
      (
        search_equals name value h,
        take-append_length (length name) name (0x3d ∷ value) refl,
        drop-append_more (length name + 1) 1 name (0x3d ∷ value) refl,
        length-append name (0x3d ∷ value),
      )
      (ap (◌∷◌ name) (last_piece (length name + suc (length value)) value (omega arith)))
