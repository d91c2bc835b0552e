-- ===== src/CommandLineOption/Parsing.antt =====
-- `parse` of command_line_option.cc on the command lines of a list of items.
use brickred_server.Base.{
  ℕ, zero, suc, ◌≤◌, ◌<◌, ◌≡◌, refl, ap, ◌∙◌, Bool, true, false, Option, some, List, [], ◌∷◌, ◌++◌,
  length, arith, All, append_assoc, append-nil, subst, sym, length-append,
}
use brickred_server.Base.Int.{ℤ, pos, negsuc}
use brickred_server.CommandLineOption.{
  CommandLineOption, ParameterType, no_parameter, required_parameter, same_string, is_option, stop,
  more, process_long_option, process_short_option, parse_step, parse_loop, parse, Parameters,
  long_option, first_of, push, take_next, take_next,
}
use brickred_server.CommandLineOption.Names.{IsName, split-IsName, split_equals}
use brickred_server.CommandLineOption.Items.{
  Item, left, flag, assigned, followed, short_flag, short_joined, short_followed, words, line,
  IsKnown, noted, all_noted,
}

pub no_dashes : (arg : List ℕ) → is_option arg ≡ false → same_string arg (0x2d ∷ 0x2d ∷ []) ≡ false
no_dashes [] h = refl
no_dashes (a ∷ []) h = ground arith
no_dashes (a ∷ b ∷ bs) h = ground (arith, h)

module _ (option_types : List ℕ → Option ParameterType) (params : Parameters)
    (next_param : List ℕ) where
  split_up : List (List ℕ) → Parameters × ℤ
  split_up parts = elim parts [
    | [] ↦ (params, negsuc 0)
    | opt ∷ pieces ↦ long_option (option_types opt) params opt pieces next_param
  ]

  pub plain_name :
      (name : List ℕ)
      → IsName name
      → process_long_option option_types params (0x2d ∷ 0x2d ∷ name) next_param
        ≡ long_option (option_types name) params name [] next_param
  unfolding process_long_option split_up
  plain_name name h = ap split_up (split-IsName name h)

  pub name_and_value :
      (name value : List ℕ)
      → IsName name
      → process_long_option option_types params (0x2d ∷ 0x2d ∷ name ++ 0x3d ∷ value) next_param
        ≡ long_option (option_types name) params name (value ∷ []) next_param
  unfolding process_long_option split_up
  name_and_value name value h = ap split_up (split_equals name value h)

  last_flag :
      (k : ℕ)
      → option_types (k ∷ []) ≡ some no_parameter
      → process_short_option option_types params (k ∷ []) next_param
        ≡ (push params (k ∷ []) [], pos 1)
  unfolding process_short_option
  last_flag k e = rw (process_short_option, e) refl

  joined_value :
      (k b : ℕ) (value : List ℕ)
      → option_types (k ∷ []) ≡ some required_parameter
      → process_short_option option_types params (k ∷ b ∷ value) next_param
        ≡ (push params (k ∷ []) (b ∷ value), pos 1)
  unfolding process_short_option
  joined_value k b value e = rw (process_short_option, e) refl

  pub last_letter :
      (k : ℕ)
      → option_types (k ∷ []) ≡ some required_parameter
      → process_short_option option_types params (k ∷ []) next_param
        ≡ take_next params (k ∷ []) next_param
  unfolding process_short_option
  last_letter k e = rw (process_short_option, e) refl

-- Each item is read in one round.
parse_step-words :
    (c : CommandLineOption) (item : Item) (rest : List (List ℕ))
    → IsKnown c.option_types item
    → parse_step c (words item ++ rest) ≡ more (noted c item) rest
unfolding parse_step
parse_step-words c (left arg) rest h = rw (no_dashes arg h, h) refl
parse_step-words c (flag k name) rest h =
    rw (plain_name c.option_types c.option_params (first_of rest) (k ∷ name) h.0, h.1) refl
parse_step-words c (assigned k name value) rest h =
    rw (name_and_value c.option_types c.option_params (first_of rest) (k ∷ name) value h.0, h.1)
      refl
parse_step-words c (followed k name b value) rest h =
    rw (plain_name c.option_types c.option_params (b ∷ value) (k ∷ name) h.0, h.1) refl
parse_step-words c (short_flag k) rest h =
    rw (h.0, last_flag c.option_types c.option_params (first_of rest) k h.1) refl
parse_step-words c (short_joined k b value) rest h =
    rw (h.0, joined_value c.option_types c.option_params (first_of rest) k b value h.1) refl
parse_step-words c (short_followed k b value) rest h =
    rw (h.0, last_letter c.option_types c.option_params (b ∷ value) k h.1) refl

length-words : (item : Item) → 1 ≤ length (words item)
length-words (left arg) = omega arith
length-words (flag k name) = omega arith
length-words (assigned k name value) = omega arith
length-words (followed k name b value) = omega arith
length-words (short_flag k) = omega arith
length-words (short_joined k b value) = omega arith
length-words (short_followed k b value) = omega arith

pub noted-types :
    (c : CommandLineOption) (item : Item) → (noted c item).option_types ≡ c.option_types
noted-types c (left arg) = refl
noted-types c (flag k name) = refl
noted-types c (assigned k name value) = refl
noted-types c (followed k name b value) = refl
noted-types c (short_flag k) = refl
noted-types c (short_joined k b value) = refl
noted-types c (short_followed k b value) = refl

pub parse_loop_more :
    (fuel : ℕ) (c c' : CommandLineOption) (args args' : List (List ℕ))
    → parse_step c args ≡ more c' args'
    → parse_loop (suc fuel) c args ≡ parse_loop fuel c' args'
unfolding parse_loop
parse_loop_more fuel c c' args args' e = rw (parse_loop, e) refl

pub parse_loop_stop :
    (fuel : ℕ) (c c' : CommandLineOption) (args : List (List ℕ)) (result : Bool)
    → parse_step c args ≡ stop c' result
    → parse_loop (suc fuel) c args ≡ some (c', result)
unfolding parse_loop
parse_loop_stop fuel c c' args result e = rw (parse_loop, e) refl

-- The rounds for the items leave the arguments behind them, and fuel for these.
parse_loop-line :
    (fuel : ℕ) (c : CommandLineOption) (items : List Item) (tail : List (List ℕ))
    → All (IsKnown c.option_types) items
    → length (line items ++ tail) < fuel
    → (left_over : ℕ) × ((length tail < left_over)
        × (parse_loop fuel c (line items ++ tail) ≡ parse_loop left_over (all_noted c items) tail))
parse_loop-line fuel c [] tail known enough = (fuel, (enough, refl))
parse_loop-line zero c (item ∷ items) tail known enough = absurd (omega arith)
parse_loop-line (suc fuel) c (item ∷ items) tail known enough =
    let rest : List (List ℕ) = line items ++ tail in
    let same = append_assoc (words item) (line items) tail in
    let shorter : length rest < fuel =
      omega (arith, length-words item, length-append (words item) rest, ap length same) in
    let known' = subst (λ types. All (IsKnown types) items) (sym (noted-types c item)) known.1 in
    let (left_over, (more_fuel, run)) =
      parse_loop-line fuel (noted c item) items tail known' shorter in
    (
      left_over,
      (
        more_fuel,
        ap (parse_loop (suc fuel) c) same
            ∙ (parse_loop_more fuel c (noted c item) (words item ++ rest) rest
                  (parse_step-words c item rest known.0)
                ∙ run),
      ),
    )

-- What the loop does when it comes to the end of the items.
pub line_then_stop :
    (c c' : CommandLineOption) (items : List Item) (tail : List (List ℕ)) (result : Bool)
    → All (IsKnown c.option_types) items
    → parse_step (all_noted c items) tail ≡ stop c' result
    → parse c (line items ++ tail) ≡ some (c', result)
unfolding parse
line_then_stop c c' items tail result known e =
    let (left_over, (more_fuel, run)) =
      parse_loop-line (suc (length (line items ++ tail))) c items tail known (omega arith) in
    run ∙ stopped left_over more_fuel
  where
    stopped :
        (fuel : ℕ)
        → length tail < fuel
        → parse_loop fuel (all_noted c items) tail ≡ some (c', result)
    stopped zero h = absurd (omega arith)
    stopped (suc fuel) h = parse_loop_stop fuel (all_noted c items) c' tail result e

-- A command line of items whose options are known is read as these items, in order; what follows
-- two dashes is left as it is.
pub parse-line :
    (c : CommandLineOption) (items : List Item) (rest : List (List ℕ))
    → All (IsKnown c.option_types) items
    → (parse c (line items) ≡ some (all_noted c items, true))
      × (parse c (line items ++ (0x2d ∷ 0x2d ∷ []) ∷ rest)
          ≡ some (
            record (all_noted c items) { left_args = (all_noted c items).left_args ++ rest },
            true,
          ))
unfolding parse_step
parse-line c items rest known = (
  ap (parse c) (sym (append-nil (line items)))
      ∙ line_then_stop c (all_noted c items) items [] true known refl,
  line_then_stop c _ items ((0x2d ∷ 0x2d ∷ []) ∷ rest) true known refl,
)
