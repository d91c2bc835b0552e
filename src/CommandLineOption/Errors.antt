-- ===== src/CommandLineOption/Errors.antt =====
-- The command lines that `parse` of command_line_option.cc refuses.
use brickred_server.Base.{
  ℕ, ◌≡◌, refl, sym, subst, ◌∙◌, ◌==◌, false, Option, none, some, List, [], ◌∷◌, ◌++◌, All,
}
use brickred_server.Base.Int.{negsuc}
use brickred_server.CommandLineOption.{
  CommandLineOption, ParameterType, no_parameter, required_parameter, Parameters, stop, first_of,
  process_short_option, parse_step, parse,
}
use brickred_server.CommandLineOption.Names.{IsName}
use brickred_server.CommandLineOption.Items.{Item, line, IsKnown, noted, all_noted}
use brickred_server.CommandLineOption.Parsing.{
  plain_name, name_and_value, last_letter, line_then_stop, noted-types,
}

-- Arguments that begin with a wrong option: an unknown one, a value that is not wanted, or none
-- where one is required and the following argument is missing or empty.
pub data IsWrong (types : List ℕ → Option ParameterType) : List (List ℕ) → Type 0 where
  unknown_name :
      (k : ℕ) (name : List ℕ) (rest : List (List ℕ))
      → IsName (k ∷ name)
      → types (k ∷ name) ≡ none
      → IsWrong types ((0x2d ∷ 0x2d ∷ k ∷ name) ∷ rest)
  unknown_assigned :
      (k : ℕ) (name value : List ℕ) (rest : List (List ℕ))
      → IsName (k ∷ name)
      → types (k ∷ name) ≡ none
      → IsWrong types ((0x2d ∷ 0x2d ∷ k ∷ name ++ 0x3d ∷ value) ∷ rest)
  unwanted_value :
      (k : ℕ) (name value : List ℕ) (rest : List (List ℕ))
      → IsName (k ∷ name)
      → types (k ∷ name) ≡ some no_parameter
      → IsWrong types ((0x2d ∷ 0x2d ∷ k ∷ name ++ 0x3d ∷ value) ∷ rest)
  missing_value :
      (k : ℕ) (name : List ℕ) (rest : List (List ℕ))
      → IsName (k ∷ name)
      → types (k ∷ name) ≡ some required_parameter
      → first_of rest ≡ []
      → IsWrong types ((0x2d ∷ 0x2d ∷ k ∷ name) ∷ rest)
  unknown_letter :
      (k : ℕ) (letters : List ℕ) (rest : List (List ℕ))
      → (k == 0x2d) ≡ false
      → types (k ∷ []) ≡ none
      → IsWrong types ((0x2d ∷ k ∷ letters) ∷ rest)
  missing_after_letter :
      (k : ℕ) (rest : List (List ℕ))
      → (k == 0x2d) ≡ false
      → types (k ∷ []) ≡ some required_parameter
      → first_of rest ≡ []
      → IsWrong types ((0x2d ∷ k ∷ []) ∷ rest)

first_unknown :
    (types : List ℕ → Option ParameterType) (params : Parameters) (next_param : List ℕ) (k : ℕ)
    (letters : List ℕ)
    → types (k ∷ []) ≡ none
    → process_short_option types params (k ∷ letters) next_param ≡ (params, negsuc 0)
unfolding process_short_option
first_unknown types params next_param k letters e = rw (process_short_option, e) refl

parse_step-IsWrong :
    (c : CommandLineOption) (tail : List (List ℕ))
    → IsWrong c.option_types tail
    → parse_step c tail ≡ stop c false
unfolding parse_step
parse_step-IsWrong c _ (unknown_name k name rest h e) =
    rw (plain_name c.option_types c.option_params (first_of rest) (k ∷ name) h, e) refl
parse_step-IsWrong c _ (unknown_assigned k name value rest h e) =
    rw (name_and_value c.option_types c.option_params (first_of rest) (k ∷ name) value h, e) refl
parse_step-IsWrong c _ (unwanted_value k name value rest h e) =
    rw (name_and_value c.option_types c.option_params (first_of rest) (k ∷ name) value h, e) refl
parse_step-IsWrong c _ (missing_value k name rest h e m) =
    rw (plain_name c.option_types c.option_params (first_of rest) (k ∷ name) h, e, m) refl
parse_step-IsWrong c _ (unknown_letter k [] rest d e) =
    rw (d, first_unknown c.option_types c.option_params (first_of rest) k [] e) refl
parse_step-IsWrong c _ (unknown_letter k (b ∷ bs) rest d e) =
    rw (d, first_unknown c.option_types c.option_params (first_of rest) k (b ∷ bs) e) refl
parse_step-IsWrong c _ (missing_after_letter k rest d e m) =
    rw (d, last_letter c.option_types c.option_params (first_of rest) k e, m) refl

all_noted-types :
    (c : CommandLineOption) (items : List Item) → (all_noted c items).option_types ≡ c.option_types
all_noted-types c [] = refl
all_noted-types c (item ∷ items) = all_noted-types (noted c item) items ∙ noted-types c item

-- A wrong option behind items that are right makes `parse` fail; the items before it are kept, and
-- nothing from it on is.
pub parse-IsWrong :
    (c : CommandLineOption) (items : List Item) (tail : List (List ℕ))
    → All (IsKnown c.option_types) items
    → IsWrong c.option_types tail
    → parse c (line items ++ tail) ≡ some (all_noted c items, false)
parse-IsWrong c items tail known wrong =
    line_then_stop c (all_noted c items) items tail false known (
      parse_step-IsWrong (all_noted c items) tail
        (subst (λ types. IsWrong types tail) (sym (all_noted-types c items)) wrong))
