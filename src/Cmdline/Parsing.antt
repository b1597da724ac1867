-- ===== src/Cmdline/Parsing.antt =====
-- `Parse` of 3FD/cmdline.cpp. The arguments are those behind the name of the program.
pub mod Steps
pub mod Sound
pub mod Ends
pub mod Pieces
pub mod Origins
pub mod Given
pub mod Examples
use fd.Base.{
  ℕ, zero, suc, ◌==◌, ltb, Bool, true, false, not, ◌&&◌, ◌||◌, Option, none, some, List, [], ◌∷◌,
  ◌++◌, if◌then◌else◌, length, Run, ok, stop, assertion, bad_cast, out_of_bounds, no_return, ◌>>=◌,
}
use fd.Cmdline.Types.{
  Text, ArgType, option_switch, option_with_req_value, single_value, values_list, is_values_list,
  space, ArgValSeparator, ArgDeclaration, ArgDeclExtended, ParsedValue, as_integer, pos, ArgValCfg,
  counts, Library, Match, Map, find, find_name, CommandLineArguments, rgx_opt_char_label,
  rgx_opt_name_label,
}
use fd.Cmdline.Values.{parse_and_validate_value, keep_if}

-- The two local collections.
pub record Progress (F : Type 0) : Type 0 where
  pub parsed_opt_vals : Map ℕ (ParsedValue F)
  pub parsed_val_args : List (ParsedValue F)

abbrev pub is_space_separator : ArgValSeparator → Bool
is_space_separator space = true
is_space_separator _ = false

abbrev pub first_of : Text → ℕ
first_of [] = 0
first_of (c ∷ t) = c

-- What an argument looks like: an option with an unknown label, an option, or a value.
pub data Looks : Type 0 where
  unknown : Looks
  option : ℕ → Match → Looks
  value : Looks

abbrev pub looked_up : Option ℕ → Match → Looks
looked_up none m = unknown
looked_up (some id) m = option id m

module _ {F : Type 0} (lib : Library F) (c : CommandLineArguments F) where
  unfoldable pub looks_by_name : Option Match → Looks
  looks_by_name none = value
  looks_by_name (some m) = looked_up (find_name m.label c.args_by_name_label) m

  unfoldable pub looks_by_char : Option Match → Text → Looks
  unfolding looks_by_name
  looks_by_char none arg = looks_by_name (lib.regex_match (rgx_opt_name_label c) arg)
  looks_by_char (some m) arg = looked_up (find (first_of m.label) c.args_by_char_label) m

  unfoldable pub looks_like : Text → Looks
  unfolding looks_by_char
  looks_like arg = looks_by_char (lib.regex_match (rgx_opt_char_label c) arg) arg

  -- `valArgIter`
  unfoldable pub val_arg : Option (ArgDeclExtended F)
  val_arg = elim c.id_value_type_arg [ none ↦ none | some id ↦ find id c.expected_args ]

  -- What comes of an argument: the rest of the arguments and the new progress.
  abbrev pub Next : Type 0
  Next = Option (List Text × Progress F)

  unfoldable pub push_value : List Text → Progress F → Option (ParsedValue F) → Next
  push_value rest p none = none
  push_value rest p (some v) =
      some (rest, record p { parsed_val_args = p.parsed_val_args ++ v ∷ [] })

  -- The branch for a value or an item of the list of values.
  unfoldable pub parse_val_arg :
      Option (ArgDeclExtended F) → Text → List Text → Progress F → Run Next
  unfolding push_value
  parse_val_arg none arg rest p = ok none
  parse_val_arg (some expected) arg rest p =
      if not (is_values_list expected.common.type) && ltb 0 (length p.parsed_val_args)
      then ok none
      else (do
        v ← parse_and_validate_value lib expected.common expected.typed_ext_info arg
        ok (push_value rest p v))

  unfoldable pub put_option : ℕ → List Text → Progress F → Option (ParsedValue F) → Next
  put_option id rest p none = none
  put_option id rest p (some v) =
      some (rest, record p { parsed_opt_vals = (id, v) ∷ p.parsed_opt_vals })

  -- An option with a value, which is in the same argument or the next one.
  unfoldable pub parse_with_value :
      ℕ → ArgDeclExtended F → Option Text → List Text → Progress F → Run Next
  unfolding put_option
  parse_with_value id expected none rest p = ok none
  parse_with_value id expected (some t) rest p = do
    v ← parse_and_validate_value lib expected.common expected.typed_ext_info t
    ok (put_option id rest p v)

  unfoldable pub parse_next : ℕ → ArgDeclExtended F → List Text → Progress F → Run Next
  unfolding parse_with_value
  parse_next id expected [] p = ok none
  parse_next id expected (arg ∷ rest) p = parse_with_value id expected (some arg) rest p

  -- A switch, which expects no value.
  unfoldable pub parse_switch : ℕ → Option Text → List Text → Progress F → Run Next
  unfolding put_option
  parse_switch id none rest p = ok (put_option id rest p (some (as_integer (pos 0))))
  parse_switch id (some t) rest p =
      if is_space_separator c.arg_val_separator
      then ok (put_option id rest p (some (as_integer (pos 0))))
      else ok none

  -- The switch by the type of the option; `m` is the match of its argument.
  unfoldable pub parse_option :
      ArgType → ℕ → ArgDeclExtended F → Match → List Text → Progress F → Run Next
  unfolding parse_switch parse_with_value parse_next
  parse_option option_switch id expected m rest p = parse_switch id m.value rest p
  parse_option option_with_req_value id expected m rest p =
      if is_space_separator c.arg_val_separator
      then parse_next id expected rest p
      else parse_with_value id expected m.value rest p
  parse_option single_value id expected m rest p = stop assertion
  parse_option values_list id expected m rest p = stop assertion

  -- An option must not be repeated; the one with its id was looked up.
  unfoldable pub parse_unrepeated :
      ℕ → ArgDeclExtended F → Match → List Text → Progress F → Option (ParsedValue F) → Run Next
  unfolding parse_option
  parse_unrepeated id expected m rest p (some v) = ok none
  parse_unrepeated id expected m rest p none =
      parse_option expected.common.type id expected m rest p

  -- It must be declared.
  unfoldable pub parse_declared :
      ℕ → Match → List Text → Progress F → Option (ArgDeclExtended F) → Run Next
  unfolding parse_unrepeated
  parse_declared id m rest p none = stop assertion
  parse_declared id m rest p (some expected) =
      parse_unrepeated id expected m rest p (find id p.parsed_opt_vals)

  unfoldable pub parse_looking : Looks → Text → List Text → Progress F → Run Next
  unfolding parse_val_arg parse_declared val_arg
  parse_looking unknown arg rest p = ok none
  parse_looking (option id m) arg rest p = parse_declared id m rest p (find id c.expected_args)
  parse_looking value arg rest p = parse_val_arg val_arg arg rest p

  abbrev pub continue :
      (List Text → Progress F → Run (Option (Progress F))) → Next → Run (Option (Progress F))
  continue go none = ok none
  continue go (some (rest, p)) = go rest p

  -- The loop; the fuel bounds the count of arguments.
  unfoldable pub parse_args : ℕ → List Text → Progress F → Run (Option (Progress F))
  unfolding parse_looking looks_like
  parse_args fuel [] p = ok (some p)
  parse_args zero (arg ∷ rest) p = stop no_return
  parse_args (suc n) (arg ∷ rest) p = do
    next ← parse_looking (looks_like arg) arg rest p
    continue (parse_args n) next

  -- The count of the items of the list of values, when any came.
  unfoldable pub is_count_in : Option (ArgValCfg F) → ℕ → Run Bool
  is_count_in (some (counts (min ∷ max ∷ l))) n = ok (n == 0 || not (ltb n min || ltb max n))
  is_count_in (some (counts _)) n = stop out_of_bounds
  is_count_in _ n = stop bad_cast

  unfoldable pub is_count_right : ArgDeclExtended F → ℕ → Run Bool
  unfolding is_count_in
  is_count_right expected n =
      if is_values_list expected.common.type then is_count_in expected.typed_ext_info n else ok true

  unfoldable pub check_count : Option (ArgDeclExtended F) → ℕ → Run Bool
  unfolding is_count_right
  check_count none n = ok true
  check_count (some expected) n = is_count_right expected n

  unfoldable pub finish_parse : Option (Progress F) → Run (Option (Progress F))
  unfolding check_count val_arg
  finish_parse none = ok none
  finish_parse (some p) = do
    right ← check_count val_arg (length p.parsed_val_args)
    ok (keep_if right p)

  -- The state changes only at the end. `true` is `STATUS_OKAY`.
  abbrev pub commit : Option (Progress F) → Bool × CommandLineArguments F
  commit none = (false, c)
  commit (some p) =
      (true, record c { parsed_opt_vals = p.parsed_opt_vals; parsed_val_args = p.parsed_val_args })

  unfoldable pub parse : List Text → Run (Bool × CommandLineArguments F)
  unfolding parse_args finish_parse
  parse arguments = do
    p ←
        parse_args (length arguments) arguments
          (record { parsed_opt_vals = []; parsed_val_args = [] })
    q ← finish_parse p
    ok (commit q)
