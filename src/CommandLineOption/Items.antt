-- ===== src/CommandLineOption/Items.antt =====
-- What a command line of command_line_option.cc says, one item after the other.
use brickred_server.Base.{ℕ, ◌≡◌, ◌==◌, false, Option, some, List, [], ◌∷◌, ◌++◌}
use brickred_server.CommandLineOption.{
  CommandLineOption, ParameterType, no_parameter, required_parameter, push, is_option,
}
use brickred_server.CommandLineOption.Names.{IsName}

-- An argument that is no option; a long option without a parameter, with one behind the equals
-- sign, and with one in the following argument; a short option in the same three forms.
pub data Item : Type 0 where
  left : List ℕ → Item
  flag : ℕ → List ℕ → Item
  assigned : ℕ → List ℕ → List ℕ → Item
  followed : ℕ → List ℕ → ℕ → List ℕ → Item
  short_flag : ℕ → Item
  short_joined : ℕ → ℕ → List ℕ → Item
  short_followed : ℕ → ℕ → List ℕ → Item

-- The arguments that an item is written as.
abbrev pub words : Item → List (List ℕ)
words (left arg) = arg ∷ []
words (flag c name) = (0x2d ∷ 0x2d ∷ c ∷ name) ∷ []
words (assigned c name value) = (0x2d ∷ 0x2d ∷ c ∷ name ++ 0x3d ∷ value) ∷ []
words (followed c name b value) = (0x2d ∷ 0x2d ∷ c ∷ name) ∷ (b ∷ value) ∷ []
words (short_flag c) = (0x2d ∷ c ∷ []) ∷ []
words (short_joined c b value) = (0x2d ∷ c ∷ b ∷ value) ∷ []
words (short_followed c b value) = (0x2d ∷ c ∷ []) ∷ (b ∷ value) ∷ []

abbrev pub line : List Item → List (List ℕ)
line [] = []
line (item ∷ items) = words item ++ line items

-- The options are known, with the parameters that they take.
abbrev pub IsKnown : (List ℕ → Option ParameterType) → Item → Type 0
IsKnown types (left arg) = is_option arg ≡ false
IsKnown types (flag c name) = IsName (c ∷ name) × (types (c ∷ name) ≡ some no_parameter)
IsKnown types (assigned c name value) =
    IsName (c ∷ name) × (types (c ∷ name) ≡ some required_parameter)
IsKnown types (followed c name b value) =
    IsName (c ∷ name) × (types (c ∷ name) ≡ some required_parameter)
IsKnown types (short_flag c) = ((c == 0x2d) ≡ false) × (types (c ∷ []) ≡ some no_parameter)
IsKnown types (short_joined c b value) =
    ((c == 0x2d) ≡ false) × (types (c ∷ []) ≡ some required_parameter)
IsKnown types (short_followed c b value) =
    ((c == 0x2d) ≡ false) × (types (c ∷ []) ≡ some required_parameter)

abbrev pub with_param : CommandLineOption → List ℕ → List ℕ → CommandLineOption
with_param c opt param = record c { option_params = push c.option_params opt param }

-- What an item adds.
abbrev pub noted : CommandLineOption → Item → CommandLineOption
noted c (left arg) = record c { left_args = c.left_args ++ arg ∷ [] }
noted c (flag k name) = with_param c (k ∷ name) []
noted c (assigned k name value) = with_param c (k ∷ name) value
noted c (followed k name b value) = with_param c (k ∷ name) (b ∷ value)
noted c (short_flag k) = with_param c (k ∷ []) []
noted c (short_joined k b value) = with_param c (k ∷ []) (b ∷ value)
noted c (short_followed k b value) = with_param c (k ∷ []) (b ∷ value)

abbrev pub all_noted : CommandLineOption → List Item → CommandLineOption
all_noted c [] = c
all_noted c (item ∷ items) = all_noted (noted c item) items
