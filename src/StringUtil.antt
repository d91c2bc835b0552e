-- ===== src/StringUtil.antt =====
-- src/brickred/string_util.cc: splitting, trimming, replacing and comparing of strings, which are
-- lists of character codes. A C string is the part of it before the first zero. `tolower` and
-- `toupper` are those of the "C" locale.
pub mod Compare
pub mod Split
pub mod Trim
pub mod Replace
mod Tests
use brickred_server.Base.{
  ℕ, zero, suc, ◌+◌, ◌-◌, ◌*◌, ◌%◌, ◌^◌, Bool, true, false, ◌&&◌, ◌||◌, Option, none, some, List,
  [], ◌∷◌, ◌++◌, map, length, take, drop, ltb, leb, ◌==◌, if◌then◌else◌, ◌>>=◌,
}
use brickred_server.Base.Int.{ℤ, pos, negsuc}

-- `xs` begins with `ys`.
unfoldable pub starts_with : List ℕ → List ℕ → Bool
starts_with xs [] = true
starts_with [] (y ∷ ys) = false
starts_with (x ∷ xs) (y ∷ ys) = (x == y) && starts_with xs ys

-- `std::search` and `strstr`: the position of the first occurrence.
unfoldable pub search : List ℕ → List ℕ → Option ℕ
unfolding starts_with
search [] key = if starts_with [] key then some 0 else none
search (x ∷ xs) key =
    let later = search xs key >>= λ k. some (suc k) in
    if starts_with (x ∷ xs) key then some 0 else later

-- `max_split > 0 && ++count >= max_split`: whether the limit is met, and the new count.
abbrev pub limit : ℤ → ℕ → Bool × ℕ
limit (pos zero) count = (false, count)
limit (pos (suc n)) count = (leb (suc n) (suc count), suc count)
limit (negsuc n) count = (false, count)

-- The loop of `split` from `last` on; without a round left it adds nothing.
unfoldable pub split_loop : ℕ → List ℕ → ℤ → ℕ → List ℕ → List (List ℕ)
unfolding search
split_loop zero sep max_split count last = []
split_loop (suc fuel) sep max_split count last =
    let (stop, count') = limit max_split count in
    if stop then last ∷ [] else elim (search last sep) [
      | none ↦ last ∷ []
      | some k ↦ take k last ∷ split_loop fuel sep max_split count' (drop (k + length sep) last)
    ]

unfoldable pub split : List ℕ → List ℕ → ℤ → List (List ℕ)
unfolding split_loop
split str [] max_split = str ∷ []
split str (s ∷ sep) max_split = split_loop (suc (length str)) (s ∷ sep) max_split 0 str

unfoldable pub is_in : ℕ → List ℕ → Bool
is_in c [] = false
is_in c (w ∷ ws) = c == w || is_in c ws

-- `str.find_first_not_of(ws)`, and `str.find_last_not_of(ws)`.
unfoldable pub find_first_not_of : List ℕ → List ℕ → Option ℕ
unfolding is_in
find_first_not_of [] ws = none
find_first_not_of (c ∷ cs) ws =
    let later = find_first_not_of cs ws >>= λ k. some (suc k) in
    if is_in c ws then later else some 0

unfoldable pub find_last_not_of : List ℕ → List ℕ → Option ℕ
unfolding is_in
find_last_not_of [] ws = none
find_last_not_of (c ∷ cs) ws = elim (find_last_not_of cs ws) [
  | none ↦ if is_in c ws then none else some 0
  | some k ↦ some (suc k)
]

unfoldable pub ltrim : List ℕ → List ℕ → List ℕ
unfolding find_first_not_of
ltrim str ws = elim (find_first_not_of str ws) [ none ↦ [] | some start ↦ drop start str ]

unfoldable pub rtrim : List ℕ → List ℕ → List ℕ
unfolding find_last_not_of
rtrim str ws = elim (find_last_not_of str ws) [ none ↦ [] | some end ↦ take (end + 1) str ]

unfoldable pub trim : List ℕ → List ℕ → List ℕ
unfolding ltrim rtrim
trim str ws = rtrim (ltrim str ws) ws

abbrev pub upper_char : ℕ → ℕ
upper_char c = if leb b'a' c && leb c b'z' then c - 32 else c

abbrev pub lower_char : ℕ → ℕ
lower_char c = if leb b'A' c && leb c b'Z' then c + 32 else c

unfoldable pub to_upper : List ℕ → List ℕ
to_upper str = map upper_char str

unfoldable pub to_lower : List ℕ → List ℕ
to_lower str = map lower_char str

-- `ret.find(key, pos)` of a key that is not empty, which is found in no empty rest.
unfoldable pub find_from : List ℕ → List ℕ → ℕ → Option ℕ
unfolding search
find_from ret key from = search (drop from ret) key >>= λ k. some (from + k)

-- `ret.replace(pos, size, by)`
unfoldable pub replace_at : List ℕ → ℕ → ℕ → List ℕ → List ℕ
replace_at ret from size by = take from ret ++ (by ++ drop (from + size) ret)

-- The loop of `replace`; without a round left it stops.
unfoldable pub replace_loop : ℕ → List ℕ → List ℕ → ℤ → ℕ → List ℕ → ℕ → List ℕ
unfolding find_from replace_at
replace_loop zero key by max_replace count ret from = ret
replace_loop (suc fuel) key by max_replace count ret from = elim (find_from ret key from) [
  | none ↦ ret
  | some found ↦
      let ret' : List ℕ = replace_at ret found (length key) by in
      let (stop, count') = limit max_replace count in
      let rest = replace_loop fuel key by max_replace count' ret' (found + length by) in
      if stop then ret' else rest
]

unfoldable pub replace : List ℕ → List ℕ → List ℕ → ℤ → List ℕ
unfolding replace_loop
replace str [] by max_replace = str
replace str (k ∷ key) by (pos zero) = str
replace str (k ∷ key) by max_replace =
    replace_loop (suc (length str)) (k ∷ key) by max_replace 0 str 0

-- The position of a keyword.
unfoldable pub find : List ℕ → List ℕ → Option ℕ
unfolding search
find str [] = none
find str (k ∷ keyword) = search str (k ∷ keyword)

unfoldable pub same_letters : List ℕ → List ℕ → Bool
same_letters (l ∷ ls) (r ∷ rs) = (lower_char l == lower_char r) && same_letters ls rs
same_letters ls rs = true

unfoldable pub case_insensitive_equal : List ℕ → List ℕ → Bool
unfolding same_letters
case_insensitive_equal lhs rhs = if length lhs == length rhs then same_letters lhs rhs else false

-- `h = (h << 5) + h + (uint8_t)str[i]`
unfoldable pub hash_loop : ℕ → List ℕ → ℕ
hash_loop h [] = h
hash_loop h (c ∷ cs) = hash_loop ((h * 2 ^ 5 + h + c) % 2 ^ 64) cs

unfoldable pub hash : List ℕ → ℕ
unfolding hash_loop
hash str = hash_loop 5381 str

-- The loop over the common length, and then the comparison of the sizes.
unfoldable pub case_insensitive_less : List ℕ → List ℕ → Bool
case_insensitive_less (l ∷ ls) (r ∷ rs) =
    let rest = case_insensitive_less ls rs in
    if lower_char l == lower_char r then rest else ltb (lower_char l) (lower_char r)
case_insensitive_less lhs rhs = ltb (length lhs) (length rhs)
