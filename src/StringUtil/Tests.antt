-- ===== src/StringUtil/Tests.antt =====
-- Runs of string_util.cc on short strings, and its theorems at such inputs.
use brickred_server.Base.{ℕ, ◌+◌, ◌*◌, ◌≡◌, refl, true, List, [], ◌∷◌, ◌++◌, codes, arith}
use brickred_server.Base.Int.{pos, negsuc}
use brickred_server.StringUtil.{split, trim, to_upper, replace, hash}
use brickred_server.StringUtil.Split.{join, join-split}
use brickred_server.StringUtil.Trim.{all_in, first_out, last_out, trim_lem}
use brickred_server.StringUtil.Replace.{split_limit, replace-split}

abbrev csv : List ℕ
csv = codes "a, b, c"

abbrev comma : List ℕ
comma = codes ", "

csv_pieces : split csv comma (pos 0) ≡ codes "a" ∷ codes "b" ∷ codes "c" ∷ []
unfolding split
csv_pieces = refl

csv_two : split csv comma (pos 2) ≡ codes "a" ∷ codes "b, c" ∷ []
unfolding split
csv_two = refl

csv_replaced : replace csv comma (codes ",,") (negsuc 0) ≡ codes "a,,b,,c"
unfolding replace
csv_replaced = refl

csv_replaced_once : replace csv comma (codes ";") (pos 1) ≡ codes "a;b, c"
unfolding replace
csv_replaced_once = refl

trimmed : trim (codes "  a b ") (codes " ") ≡ codes "a b"
unfolding trim
trimmed = refl

shouted : to_upper (codes "aZ-9") ≡ codes "AZ-9"
unfolding to_upper
shouted = refl

hashed : hash (codes "ab") ≡ (5381 * 33 + 97) * 33 + 98
unfolding hash
hashed = refl

join-split_example : join comma (split csv comma (pos 2)) ≡ csv
join-split_example = join-split csv comma (pos 2)

replace-split_example :
    replace csv comma (codes ";") (pos 1) ≡ join (codes ";") (split csv comma (split_limit (pos 1)))
replace-split_example = replace-split csv comma (codes ";") (pos 1) (omega arith)

trim_lem_example :
    (a : List ℕ) × ((b : List ℕ) × ((codes "  a b " ≡ a ++ (trim (codes "  a b ") (codes " ") ++ b))
        × (((all_in a (codes " ") ≡ true) × (all_in b (codes " ") ≡ true))
            × ((first_out (trim (codes "  a b ") (codes " ")) (codes " ") ≡ true)
                × (last_out (trim (codes "  a b ") (codes " ")) (codes " ") ≡ true)))))
trim_lem_example = trim_lem (codes "  a b ") (codes " ")
