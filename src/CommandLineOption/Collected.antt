-- ===== src/CommandLineOption/Collected.antt =====
-- What the getters of command_line_option.cc give after the items of a command line.
use brickred_server.Base.{
  ℕ, ◌≡◌, refl, sym, ap, ap₂, ◌∙◌, true, List, [], ◌∷◌, ◌++◌, if◌then◌else◌, arith, Bool-cases, inl,
  inr, append_assoc, append-nil,
}
use brickred_server.CommandLineOption.{
  CommandLineOption, same_string, parameters_of, get_parameters,
}
use brickred_server.CommandLineOption.Items.{
  Item, left, flag, assigned, followed, short_flag, short_joined, short_followed, with_param, noted,
  all_noted,
}

same_string_sound : (xs ys : List ℕ) → same_string xs ys ≡ true → xs ≡ ys
same_string_sound [] [] h = refl
same_string_sound [] (y ∷ ys) h = absurd (ground (arith, h))
same_string_sound (x ∷ xs) [] h = absurd (ground (arith, h))
same_string_sound (x ∷ xs) (y ∷ ys) h =
    ap₂ (λ b bs. b ∷ bs) (ground (arith, h)) (same_string_sound xs ys (ground (arith, h)))

-- A parameter, for the option that it was given to.
abbrev pub when_same : List ℕ → List ℕ → List ℕ → List (List ℕ)
when_same opt given param = if same_string opt given then param ∷ [] else []

-- The parameters that an item gives to an option.
abbrev pub collected : List ℕ → Item → List (List ℕ)
collected opt (left arg) = []
collected opt (flag k name) = when_same opt (k ∷ name) []
collected opt (assigned k name value) = when_same opt (k ∷ name) value
collected opt (followed k name b value) = when_same opt (k ∷ name) (b ∷ value)
collected opt (short_flag k) = when_same opt (k ∷ []) []
collected opt (short_joined k b value) = when_same opt (k ∷ []) (b ∷ value)
collected opt (short_followed k b value) = when_same opt (k ∷ []) (b ∷ value)

abbrev pub all_collected : List ℕ → List Item → List (List ℕ)
all_collected opt [] = []
all_collected opt (item ∷ items) = collected opt item ++ all_collected opt items

get_parameters-with_param :
    (c : CommandLineOption) (opt given param : List ℕ)
    → get_parameters (with_param c given param) opt
      ≡ get_parameters c opt ++ when_same opt given param
unfolding get_parameters
get_parameters-with_param c opt given param = elim (Bool-cases (same_string opt given)) [
  | inl same ↦ rw same (
      ap (λ o. parameters_of (c.option_params o) ++ param ∷ [])
        (sym (same_string_sound opt given same)))
  | inr other ↦ rw other (sym (append-nil (parameters_of (c.option_params opt))))
]

get_parameters-noted :
    (c : CommandLineOption) (item : Item) (opt : List ℕ)
    → get_parameters (noted c item) opt ≡ get_parameters c opt ++ collected opt item
unfolding get_parameters
get_parameters-noted c (left arg) opt = sym (append-nil (parameters_of (c.option_params opt)))
get_parameters-noted c (flag k name) opt = get_parameters-with_param c opt (k ∷ name) []
get_parameters-noted c (assigned k name value) opt =
    get_parameters-with_param c opt (k ∷ name) value
get_parameters-noted c (followed k name b value) opt =
    get_parameters-with_param c opt (k ∷ name) (b ∷ value)
get_parameters-noted c (short_flag k) opt = get_parameters-with_param c opt (k ∷ []) []
get_parameters-noted c (short_joined k b value) opt =
    get_parameters-with_param c opt (k ∷ []) (b ∷ value)
get_parameters-noted c (short_followed k b value) opt =
    get_parameters-with_param c opt (k ∷ []) (b ∷ value)

-- The parameters of an option are those that it had, with what the items give it behind them, in
-- the order of the command line.
pub get_parameters-all_noted :
    (c : CommandLineOption) (items : List Item) (opt : List ℕ)
    → get_parameters (all_noted c items) opt ≡ get_parameters c opt ++ all_collected opt items
get_parameters-all_noted c [] opt = sym (append-nil (get_parameters c opt))
get_parameters-all_noted c (item ∷ items) opt =
    get_parameters-all_noted (noted c item) items opt
    ∙ (ap (λ ps. ps ++ all_collected opt items) (get_parameters-noted c item opt)
        ∙ append_assoc (get_parameters c opt) (collected opt item) (all_collected opt items))
