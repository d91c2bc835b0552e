-- ===== src/CommandLineOption/Tests.antt =====
-- Command lines of command_line_option.cc at concrete inputs.
use brickred_server.Base.{◌≡◌, refl, Bool, true, false, some, List, [], ◌∷◌, ◌++◌, codes, All}
use brickred_server.CommandLineOption.{
  CommandLineOption, no_parameter, required_parameter, new, add_option, parse, get_parameter,
  get_parameters, has_option,
}
use brickred_server.CommandLineOption.Items.{
  Item, left, flag, assigned, short_flag, line, IsKnown, all_noted,
}
use brickred_server.CommandLineOption.Parsing.{parse-line}
use brickred_server.CommandLineOption.Collected.{all_collected, get_parameters-all_noted}
use brickred_server.CommandLineOption.Errors.{unknown_name, parse-IsWrong}
use brickred_server.CommandLineOption.Returning.{parse_returns}

-- --verbose, --port with a value, and -v.
abbrev options : CommandLineOption
options =
    add_option
      (add_option (add_option new (codes "verbose") no_parameter) (codes "port") required_parameter)
      (codes "v") no_parameter

abbrev items : List Item
items =
    flag 118 (codes "erbose")
    ∷ left (codes "file")
    ∷ assigned 112 (codes "ort") (codes "80=1")
    ∷ short_flag 118
    ∷ []

written : line items ≡ codes "--verbose" ∷ codes "file" ∷ codes "--port=80=1" ∷ codes "-v" ∷ []
written = refl

items-IsKnown : All (IsKnown options.option_types) items
unfolding add_option
items-IsKnown = (
  ((refl, (refl, (refl, (refl, (refl, (refl, (refl, tt))))))), refl),
  (refl, (((refl, (refl, (refl, (refl, tt)))), refl), ((refl, refl), tt))),
)

parse-line_example :
    (parse options (line items) ≡ some (all_noted options items, true))
    × (parse options (line items ++ codes "--" ∷ codes "-x" ∷ [])
        ≡ some (
          record (all_noted options items) {
            left_args = (all_noted options items).left_args ++ codes "-x" ∷ [];
          },
          true,
        ))
parse-line_example = parse-line options items (codes "-x" ∷ []) items-IsKnown

port_read : get_parameter (all_noted options items) (codes "port") ≡ codes "80=1"
unfolding get_parameter add_option
port_read = refl

flags_seen :
    (has_option (all_noted options items) (codes "v") ≡ true)
    × (has_option options (codes "v") ≡ false)
unfolding has_option add_option
flags_seen = (refl, refl)

ports_collected :
    get_parameters (all_noted options (items ++ items)) (codes "port")
    ≡ codes "80=1" ∷ codes "80=1" ∷ []
unfolding get_parameters add_option
ports_collected = refl

parse-IsWrong_example :
    parse options (line items ++ codes "--help" ∷ codes "rest" ∷ [])
    ≡ some (all_noted options items, false)
parse-IsWrong_example =
    parse-IsWrong options items (codes "--help" ∷ codes "rest" ∷ []) items-IsKnown (
      unknown_name 104 (codes "elp") (codes "rest" ∷ []) (refl, (refl, (refl, (refl, tt))))
        (unfold add_option in refl))

parse_returns_example : (r : CommandLineOption × Bool) × (parse options (codes "-vp" ∷ []) ≡ some r)
parse_returns_example = parse_returns options (codes "-vp" ∷ [])

get_parameters-all_noted_example :
    get_parameters (all_noted options items) (codes "port")
    ≡ get_parameters options (codes "port") ++ all_collected (codes "port") items
get_parameters-all_noted_example = get_parameters-all_noted options items (codes "port")
