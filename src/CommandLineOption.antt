-- ===== src/CommandLineOption.antt =====
-- src/brickred/command_line_option.cc: the options of a command line. Strings are lists of
-- character codes, a std::map is a function, and the arguments are those after argv[0].
pub mod Items
pub mod Names
pub mod Parsing
pub mod Collected
pub mod Errors
pub mod Returning
mod Tests
use brickred_server.Base.{
  ℕ, zero, suc, ◌==◌, Bool, true, false, not, ◌&&◌, Option, none, some, List, [], ◌∷◌, ◌++◌, length,
  drop, ltb, if◌then◌else◌,
}
use brickred_server.Base.Int.{ℤ, pos, negsuc}
use brickred_server.StringUtil.{split}

-- Any other value of the enumeration is `other`.
pub data ParameterType : Type 0 where
  no_parameter required_parameter : ParameterType
  other : ℕ → ParameterType

abbrev pub same_string : List ℕ → List ℕ → Bool
same_string [] [] = true
same_string [] (y ∷ ys) = false
same_string (x ∷ xs) [] = false
same_string (x ∷ xs) (y ∷ ys) = (x == y) && same_string xs ys

abbrev pub put {ℓ} : {A : Type ℓ} → (List ℕ → Option A) → List ℕ → A → List ℕ → Option A
put m key a k = if same_string k key then some a else m k

-- `std::map::insert`, which keeps a value that is there.
abbrev pub insert {ℓ} : {A : Type ℓ} → (List ℕ → Option A) → List ℕ → A → List ℕ → Option A
insert m key a = elim (m key) [ none ↦ put m key a | some _ ↦ m ]

abbrev pub Parameters : Type 0
Parameters = List ℕ → Option (List (List ℕ))

-- The parameters of an option, none if it is not there.
abbrev pub parameters_of : Option (List (List ℕ)) → List (List ℕ)
parameters_of none = []
parameters_of (some ps) = ps

-- `option_params[opt].push_back(param)`
abbrev pub push : Parameters → List ℕ → List ℕ → Parameters
push params opt param = put params opt (parameters_of (params opt) ++ param ∷ [])

pub record CommandLineOption : Type 0 where
  pub option_types : List ℕ → Option ParameterType
  pub option_params : Parameters
  pub left_args : List (List ℕ)

abbrev pub new : CommandLineOption
new = record { option_types = λ opt. none; option_params = λ opt. none; left_args = [] }

unfoldable pub add_option : CommandLineOption → List ℕ → ParameterType → CommandLineOption
add_option c opt param_type = record c {
  option_types = insert c.option_types opt param_type;
  option_params = insert c.option_params opt [];
}

abbrev pub is_option : List ℕ → Bool
is_option (a ∷ b ∷ bs) = a == 0x2d
is_option _ = false

abbrev pub is_long_option : List ℕ → Bool
is_long_option (a ∷ b ∷ c ∷ cs) = (a == 0x2d) && (b == 0x2d)
is_long_option _ = false

-- What takes a parameter from the following argument.
abbrev pub take_next : Parameters → List ℕ → List ℕ → Parameters × ℤ
take_next params opt [] = (params, negsuc 0)
take_next params opt (b ∷ bs) = (push params opt (b ∷ bs), pos 2)

-- A long option, split at the first equals sign.
abbrev pub long_option :
    Option ParameterType → Parameters → List ℕ → List (List ℕ) → List ℕ → Parameters × ℤ
long_option none params opt more next_param = (params, negsuc 0)
long_option (some no_parameter) params opt [] next_param = (push params opt [], pos 1)
long_option (some no_parameter) params opt (p ∷ ps) next_param = (params, negsuc 0)
long_option (some required_parameter) params opt (p ∷ ps) next_param = (push params opt p, pos 1)
long_option (some required_parameter) params opt [] next_param = take_next params opt next_param
long_option (some (other n)) params opt more next_param = (params, negsuc 0)

-- `split` gives one piece at least.
unfoldable pub process_long_option :
    (List ℕ → Option ParameterType) → Parameters → List ℕ → List ℕ → Parameters × ℤ
process_long_option option_types params arg next_param =
    elim (split (drop 2 arg) (0x3d ∷ []) (pos 2)) [
      | [] ↦ (params, negsuc 0)
      | opt ∷ more ↦ long_option (option_types opt) params opt more next_param
    ]

-- The loop of `processShortOption` over the letters after the dash.
unfoldable pub process_short_option :
    (List ℕ → Option ParameterType) → Parameters → List ℕ → List ℕ → Parameters × ℤ
process_short_option option_types params [] next_param = (params, pos 1)
process_short_option option_types params (c ∷ cs) next_param =
    let opt = c ∷ [] in
    elim (option_types opt) [
      | none ↦ (params, negsuc 0)
      | some no_parameter ↦ process_short_option option_types (push params opt []) cs next_param
      | some required_parameter ↦ elim cs [
        | [] ↦ take_next params opt next_param
        | b ∷ bs ↦ (push params opt (b ∷ bs), pos 1)
      ]
      | some (other n) ↦ process_short_option option_types params cs next_param
    ]

-- A round of the loop of `parse`: it returns, or goes on with the arguments left.
pub data Step : Type 0 where
  stop : CommandLineOption → Bool → Step
  more : CommandLineOption → List (List ℕ) → Step

abbrev pub first_of : List (List ℕ) → List ℕ
first_of [] = []
first_of (arg ∷ args) = arg

abbrev pub advance : CommandLineOption → List (List ℕ) → Parameters × ℤ → Step
advance c args (params, pos ret) = more (record c { option_params = params }) (drop ret args)
advance c args (params, negsuc n) = stop (record c { option_params = params }) false

unfoldable pub parse_step : CommandLineOption → List (List ℕ) → Step
parse_step c [] = stop c true
parse_step c (arg ∷ rest) =
    if same_string arg (0x2d ∷ 0x2d ∷ [])
    then stop (record c { left_args = c.left_args ++ rest }) true
    else if not (is_option arg)
    then more (record c { left_args = c.left_args ++ arg ∷ [] }) rest
    else if is_long_option arg
    then advance c (arg ∷ rest)
        (process_long_option c.option_types c.option_params arg (first_of rest))
    else advance c (arg ∷ rest)
        (process_short_option c.option_types c.option_params (drop 1 arg) (first_of rest))

unfoldable pub parse_loop :
    ℕ → CommandLineOption → List (List ℕ) → Option (CommandLineOption × Bool)
parse_loop zero c args = none
parse_loop (suc fuel) c args = elim (parse_step c args) [
  | stop c' result ↦ some (c', result)
  | more c' args' ↦ parse_loop fuel c' args'
]

unfoldable pub parse : CommandLineOption → List (List ℕ) → Option (CommandLineOption × Bool)
parse c args = parse_loop (suc (length args)) c args

-- The parameters of an option on the command line, and what is asked about them.
unfoldable pub get_parameters : CommandLineOption → List ℕ → List (List ℕ)
get_parameters c opt = parameters_of (c.option_params opt)

abbrev pub last_of : List (List ℕ) → List ℕ
last_of [] = []
last_of (p ∷ []) = p
last_of (p ∷ q ∷ ps) = last_of (q ∷ ps)

unfoldable pub get_parameter : CommandLineOption → List ℕ → List ℕ
get_parameter c opt = last_of (parameters_of (c.option_params opt))

unfoldable pub has_option : CommandLineOption → List ℕ → Bool
has_option c opt = elim (parameters_of (c.option_params opt)) [ [] ↦ false | p ∷ ps ↦ true ]
