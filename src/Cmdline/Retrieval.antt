-- ===== src/Cmdline/Retrieval.antt =====
-- The getters of parsed arguments in 3FD/cmdline.cpp. `is_present` is the caller's variable, before
-- and, with the result, after the call.
pub mod Present
mod Examples
use fd.Base.{
  ℕ, ◌==◌, ltb, Bool, true, false, not, ◌&&◌, ◌||◌, Option, none, some, List, [], ◌∷◌,
  if◌then◌else◌, length, Run, ok, stop, assertion, bad_cast, out_of_bounds, invalid_argument, ◌>>=◌,
}
use fd.Cmdline.Types.{
  Text, ℤ, pos, ArgType, is_values_list, is_option_switch, ArgValType, is_string, is_integer,
  is_float, is_enum, is_ranged, ArgDeclExtended, ParsedValue, as_integer, as_float, as_string,
  ArgValCfg, integers, floats, strings, counts, Library, find, CommandLineArguments,
}

-- `id == m_idValueTypeArg`
unfoldable pub is_value_arg : Option ℕ → ℕ → Bool
is_value_arg none id = false
is_value_arg (some value_id) id = id == value_id

-- The members of the union.
abbrev pub read_integer : {F : Type 0} → ParsedValue F → Run ℤ
read_integer (as_integer v) = ok v
read_integer _ = stop bad_cast

abbrev pub read_float : {F : Type 0} → ParsedValue F → Run F
read_float (as_float v) = ok v
read_float _ = stop bad_cast

abbrev pub read_string : {F : Type 0} → ParsedValue F → Run Text
read_string (as_string v) = ok v
read_string _ = stop bad_cast

abbrev pub read_text : {F : Type 0} → ParsedValue F → Run (Option Text)
read_text v = do t ← read_string v; ok (some t)

-- `argValCfg->at(0)`
abbrev pub at_0 : {V : Type 0} → List V → Run V
at_0 [] = stop out_of_bounds
at_0 (v ∷ l) = ok v

abbrev pub first_of_many : {V : Type 0} → V → List V → Run V
first_of_many zero_value l = if ltb 2 (length l) then at_0 l else ok zero_value

-- The defaults of the three getters, from the configuration.
unfoldable pub default_string : {F : Type 0} → Option (ArgValCfg F) → Run (Option Text)
default_string none = ok none
default_string (some (strings l)) = do t ← at_0 l; ok (some t)
default_string (some _) = stop bad_cast

unfoldable pub default_integer : {F : Type 0} → ArgValType → Option (ArgValCfg F) → Run ℤ
default_integer t none = ok (pos 0)
default_integer t (some (integers l)) =
    if is_enum t || is_ranged t then first_of_many (pos 0) l else ok (pos 0)
default_integer t (some _) = if is_enum t || is_ranged t then stop bad_cast else ok (pos 0)

unfoldable pub default_float : {F : Type 0} → F → ArgValType → Option (ArgValCfg F) → Run F
default_float zero_value t none = ok zero_value
default_float zero_value t (some (floats l)) =
    if is_enum t || is_ranged t then first_of_many zero_value l else ok zero_value
default_float zero_value t (some _) =
    if is_enum t || is_ranged t then stop bad_cast else ok zero_value

-- What the three getters share: the bit of the type, the member of the union, zero, the default.
module _ {F V : Type 0} (read : ParsedValue F → Run V) (zero_value : V) where
  -- The branch for the argument that is a value.
  unfoldable pub first_value : List (ParsedValue F) → Bool → Run (V × Bool)
  first_value [] is_present = ok (zero_value, false)
  first_value (v ∷ vs) is_present = do r ← read v; ok (r, is_present)

  unfoldable pub option_value : Option (ParsedValue F) → Run V → Run (V × Bool)
  option_value (some v) default = do r ← read v; ok (r, true)
  option_value none default = do r ← default; ok (r, false)

  unfoldable pub value_or_option : CommandLineArguments F → ℕ → Run V → Bool → Run (V × Bool)
  unfolding is_value_arg first_value option_value
  value_or_option c id default is_present =
      if is_value_arg c.id_value_type_arg id
      then first_value c.parsed_val_args is_present
      else option_value (find id c.parsed_opt_vals) default

  unfoldable pub get_declared :
      (ArgValType → Bool)
      → (ArgValType → Option (ArgValCfg F) → Run V)
      → CommandLineArguments F
      → ℕ
      → Bool
      → Option (ArgDeclExtended F)
      → Run (V × Bool)
  unfolding value_or_option
  get_declared is_right default c id is_present none = stop invalid_argument
  get_declared is_right default c id is_present (some d) =
      if is_right d.common.value_type && not (is_values_list d.common.type)
      then value_or_option c id (default d.common.value_type d.typed_ext_info) is_present
      else stop assertion

module _ {F : Type 0} (lib : Library F) (c : CommandLineArguments F) where
  unfoldable pub is_switch_on : ℕ → Option (ArgDeclExtended F) → Run Bool
  is_switch_on id none = stop invalid_argument
  is_switch_on id (some d) =
      if is_option_switch d.common.type
      then ok (elim (find id c.parsed_opt_vals) [ none ↦ false | some v ↦ true ])
      else stop assertion

  unfoldable pub get_arg_switch_option_value : ℕ → Run Bool
  unfolding is_switch_on
  get_arg_switch_option_value id = is_switch_on id (find id c.expected_args)

  unfoldable pub get_arg_value_string : ℕ → Bool → Run (Option Text × Bool)
  unfolding get_declared default_string
  get_arg_value_string id is_present =
      get_declared read_text none is_string (λ t. default_string) c id is_present
        (find id c.expected_args)

  unfoldable pub get_arg_value_integer : ℕ → Bool → Run (ℤ × Bool)
  unfolding get_declared default_integer
  get_arg_value_integer id is_present =
      get_declared read_integer (pos 0) is_integer default_integer c id is_present
        (find id c.expected_args)

  unfoldable pub get_arg_value_float : ℕ → Bool → Run (F × Bool)
  unfolding get_declared default_float
  get_arg_value_float id is_present =
      get_declared read_float lib.zero_float is_float (default_float lib.zero_float) c id is_present
        (find id c.expected_args)

  -- `GetArgListOfValues`, by the bit of the type and the member of the union. The result is the
  -- values, and whether there are any.
  unfoldable pub read_all :
      {V : Type 0} → (ParsedValue F → Run V) → List (ParsedValue F) → Run (List V)
  read_all read [] = ok []
  read_all read (v ∷ vs) = do r ← read v; rs ← read_all read vs; ok (r ∷ rs)

  unfoldable pub list_declared :
      {V : Type 0}
      → (ArgValType → Bool)
      → (ParsedValue F → Run V)
      → Option (ArgDeclExtended F)
      → Run (List V × Bool)
  unfolding read_all
  list_declared is_right read none = stop assertion
  list_declared is_right read (some d) =
      if is_right d.common.value_type
      then (do l ← read_all read c.parsed_val_args; ok (l, ltb 0 (length c.parsed_val_args)))
      else stop assertion

  unfoldable pub list_of :
      {V : Type 0} → (ArgValType → Bool) → (ParsedValue F → Run V) → Option ℕ → Run (List V × Bool)
  unfolding list_declared
  list_of is_right read none = stop invalid_argument
  list_of is_right read (some id) = list_declared is_right read (find id c.expected_args)

  unfoldable pub get_arg_list_of_strings : Run (List Text × Bool)
  unfolding list_of
  get_arg_list_of_strings = list_of is_string read_string c.id_value_type_arg

  unfoldable pub get_arg_list_of_integers : Run (List ℤ × Bool)
  unfolding list_of
  get_arg_list_of_integers = list_of is_integer read_integer c.id_value_type_arg

  unfoldable pub get_arg_list_of_floats : Run (List F × Bool)
  unfolding list_of
  get_arg_list_of_floats = list_of is_float read_float c.id_value_type_arg
