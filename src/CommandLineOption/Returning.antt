-- ===== src/CommandLineOption/Returning.antt =====
-- `parse` of command_line_option.cc returns for every command line.
use brickred_server.Base.{
  ℕ, zero, suc, ◌≤◌, ◌<◌, ◌≡◌, refl, Bool, Option, none, some, List, [], ◌∷◌, length, length-drop,
  arith, Bool-cases, inl, inr,
}
use brickred_server.Base.Int.{ℤ, pos, negsuc}
use brickred_server.CommandLineOption.{
  CommandLineOption, ParameterType, no_parameter, required_parameter, other, Parameters, Step, stop,
  more, same_string, is_option, is_long_option, first_of, take_next, long_option, push, advance,
  process_long_option, process_short_option, parse_step, parse_loop, parse,
}

-- An option that is accepted takes one argument at least.
abbrev Moves : Parameters × ℤ → Type 0
Moves (params, pos ret) = 1 ≤ ret
Moves (params, negsuc n) = Unit

take_next-Moves :
    (params : Parameters) (opt next_param : List ℕ) → Moves (take_next params opt next_param)
take_next-Moves params opt [] = tt
take_next-Moves params opt (b ∷ bs) = omega arith

long_option-Moves :
    (kind : Option ParameterType) (params : Parameters) (opt : List ℕ) (pieces : List (List ℕ))
    (next_param : List ℕ)
    → Moves (long_option kind params opt pieces next_param)
long_option-Moves none params opt pieces next_param = tt
long_option-Moves (some no_parameter) params opt [] next_param = omega arith
long_option-Moves (some no_parameter) params opt (p ∷ ps) next_param = tt
long_option-Moves (some required_parameter) params opt [] next_param =
    take_next-Moves params opt next_param
long_option-Moves (some required_parameter) params opt (p ∷ ps) next_param = omega arith
long_option-Moves (some (other n)) params opt pieces next_param = tt

module _ (types : List ℕ → Option ParameterType) where
  split-Moves :
      (params : Parameters) (next_param : List ℕ) (parts : List (List ℕ))
      → Moves (elim parts [
        | [] ↦ (params, negsuc 0)
        | opt ∷ pieces ↦ long_option (types opt) params opt pieces next_param
      ])
  split-Moves params next_param [] = tt
  split-Moves params next_param (opt ∷ pieces) =
      long_option-Moves (types opt) params opt pieces next_param

  process_long_option-Moves :
      (params : Parameters) (arg next_param : List ℕ)
      → Moves (process_long_option types params arg next_param)
  unfolding process_long_option
  process_long_option-Moves params arg next_param = split-Moves params next_param _

  letter-Moves :
      (params : Parameters) (opt cs next_param : List ℕ) (kind : Option ParameterType)
      → Moves (process_short_option types (push params opt []) cs next_param)
      → Moves (process_short_option types params cs next_param)
      → Moves (elim kind [
        | none ↦ (params, negsuc 0)
        | some no_parameter ↦ process_short_option types (push params opt []) cs next_param
        | some required_parameter ↦ elim cs [
          | [] ↦ take_next params opt next_param
          | b ∷ bs ↦ (push params opt (b ∷ bs), pos 1)
        ]
        | some (other n) ↦ process_short_option types params cs next_param
      ])
  letter-Moves params opt cs next_param none h k = tt
  letter-Moves params opt cs next_param (some no_parameter) h k = h
  letter-Moves params opt [] next_param (some required_parameter) h k =
      take_next-Moves params opt next_param
  letter-Moves params opt (b ∷ bs) next_param (some required_parameter) h k = omega arith
  letter-Moves params opt cs next_param (some (other n)) h k = k

  process_short_option-Moves :
      (params : Parameters) (letters next_param : List ℕ)
      → Moves (process_short_option types params letters next_param)
  unfolding process_short_option
  process_short_option-Moves params [] next_param = omega arith
  process_short_option-Moves params (c ∷ cs) next_param =
      letter-Moves params (c ∷ []) cs next_param (types (c ∷ []))
        (process_short_option-Moves (push params (c ∷ []) []) cs next_param)
        (process_short_option-Moves params cs next_param)

abbrev Shrinks : ℕ → Step → Type 0
Shrinks size (stop c result) = Unit
Shrinks size (more c args) = length args < size

advance-Shrinks :
    (c : CommandLineOption) (arg : List ℕ) (rest : List (List ℕ)) (r : Parameters × ℤ)
    → Moves r
    → Shrinks (length (arg ∷ rest)) (advance c (arg ∷ rest) r)
advance-Shrinks c arg rest (params, pos ret) h = omega (arith, length-drop ret (arg ∷ rest))
advance-Shrinks c arg rest (params, negsuc n) h = tt

parse_step-Shrinks :
    (c : CommandLineOption) (args : List (List ℕ)) → Shrinks (length args) (parse_step c args)
unfolding parse_step
parse_step-Shrinks c [] = tt
parse_step-Shrinks c (arg ∷ rest) = elim (Bool-cases (same_string arg (0x2d ∷ 0x2d ∷ []))) [
  | inl dashes ↦ rw dashes tt
  | inr d ↦ elim (Bool-cases (is_option arg)) [
    | inr plain ↦ rw (d, plain) (omega arith)
    | inl option ↦ elim (Bool-cases (is_long_option arg)) [
      | inl long ↦
          rw (d, option, long)
            (advance-Shrinks c arg rest _
              (process_long_option-Moves c.option_types c.option_params arg (first_of rest)))
      | inr short ↦
          rw (d, option, short)
            (advance-Shrinks c arg rest _
              (process_short_option-Moves c.option_types c.option_params _ (first_of rest)))
    ]
  ]
]

after_step :
    (fuel size : ℕ) (step : Step)
    → Shrinks size step
    → ((c : CommandLineOption) (args : List (List ℕ))
        → length args < size
        → (r : CommandLineOption × Bool) × (parse_loop fuel c args ≡ some r))
    → (r : CommandLineOption × Bool) × ((elim step [
      | stop c' result ↦ some (c', result)
      | more c' args' ↦ parse_loop fuel c' args'
    ])
        ≡ some r)
after_step fuel size (stop c result) s later = ((c, result), refl)
after_step fuel size (more c args) s later = later c args s

loop_returns :
    (fuel : ℕ) (c : CommandLineOption) (args : List (List ℕ))
    → length args < fuel
    → (r : CommandLineOption × Bool) × (parse_loop fuel c args ≡ some r)
unfolding parse_loop
loop_returns zero c args h = absurd (omega arith)
loop_returns (suc fuel) c args h =
    after_step fuel (length args) (parse_step c args) (parse_step-Shrinks c args)
      (λ c' args' s. loop_returns fuel c' args' (omega arith))

-- `parse` returns, whatever the arguments and the options are: the loop ends after one round for
-- each argument and one more.
pub parse_returns :
    (c : CommandLineOption) (args : List (List ℕ))
    → (r : CommandLineOption × Bool) × (parse c args ≡ some r)
unfolding parse
parse_returns c args = loop_returns (suc (length args)) c args (omega arith)
