-- ===== src/Cmdline/Declaration.antt =====
-- The declaration of arguments in 3FD/cmdline.cpp: `AddExpectedArgument` and what it checks. A
-- method that can throw returns the object as it leaves it, and the exception if there is one.
pub mod Consistent
pub mod Verified
pub mod Fits
pub mod Kept
pub mod Examples
use fd.Base.{
  ℕ, ◌+◌, ◌==◌, ltb, Bool, true, false, not, ◌&&◌, ◌||◌, Option, none, some, List, [], ◌∷◌,
  if◌then◌else◌, length, Stop, invalid_argument, length_error,
}
use fd.Cmdline.Types.{
  Text, ℤ, pos, less_integer, integer_eq, is_option, is_values_list, is_option_switch, has_value,
  is_ranged, is_enum, is_string, is_integer, is_float, ArgDeclaration, ArgDeclExtended, ArgValCfg,
  integers, floats, strings, counts, Library, find, find_name, CommandLineArguments,
}

unfoldable pub is_null_or_empty : Option Text → Bool
is_null_or_empty none = true
is_null_or_empty (some []) = true
is_null_or_empty (some (c ∷ cs)) = false

abbrev pub text_of : Option Text → Text
text_of none = []
text_of (some t) = t

abbrev pub throws : Option Stop
throws = some invalid_argument

-- The loop over the description: whether the last character that it sees is no white space.
unfoldable pub non_white_space_found : (ℕ → Bool) → Text → Bool → Bool
non_white_space_found is_space [] found = found
non_white_space_found is_space (ch ∷ t) found = non_white_space_found is_space t (not (is_space ch))

abbrev pub Effect : Type 0 → Type 0
Effect F = CommandLineArguments F × Option Stop

-- `VerifyArgTypedValConfig`, for a type of values with its comparisons `<` and `>=`.
module _ {V : Type 0} (less at_least : V → V → Bool) (is_zero : V → Bool) where
  unfoldable pub verify_range : List V → Option Stop
  verify_range (min ∷ max ∷ []) = if at_least min max then throws else none
  verify_range (def_value ∷ min ∷ max ∷ []) =
      if at_least min max || (less def_value min || less max def_value) then throws else none
  verify_range _ = none

  unfoldable pub verify_counts : List V → Option Stop
  verify_counts (min ∷ max ∷ []) = if is_zero min || less max min then throws else none
  verify_counts _ = throws

  unfoldable pub verify_arg_typed_val_config : ArgDeclaration → List V → Option Stop
  unfolding verify_range verify_counts
  verify_arg_typed_val_config d cfg =
      if is_option_switch d.type
      then throws
      else if is_enum d.value_type
      then (if ltb (length cfg) 1 then throws else none)
      else if is_ranged d.value_type
      then (if ltb (length cfg) 2 || ltb 3 (length cfg) then throws else verify_range cfg)
      else if is_values_list d.type
      then verify_counts cfg
      else if ltb 1 (length cfg)
      then throws
      else none

module _ {F : Type 0} (lib : Library F) where
  unfoldable pub look_for_common_inconsistencies : ArgDeclaration → Option Stop
  look_for_common_inconsistencies d =
      if is_null_or_empty d.description
      then throws
      else if is_option d.type && (is_null_or_empty d.opt_name && not (lib.is_alnum d.opt_char))
      then throws
      else if not (is_option d.type)
          && (not (d.opt_char == 0)
              || (is_null_or_empty d.opt_name || (is_ranged d.value_type || is_enum d.value_type)))
      then throws
      else none

  -- The loop over the name: every character is allowed.
  unfoldable pub is_name_allowed : ArgDeclaration → ℕ → Text → Bool
  is_name_allowed d dash [] = true
  is_name_allowed d dash (ch ∷ t) =
      (lib.is_alnum ch || (ch == dash || (lib.is_space ch && is_values_list d.type)))
      && is_name_allowed d dash t

  -- The part of `ValidateArgDescAndLabels` about the name, whose entry in the map was looked up.
  unfoldable pub add_name_label :
      CommandLineArguments F → ArgDeclaration → Text → Option ℕ → Effect F
  unfolding is_name_allowed
  add_name_label c d name (some other) = (c, throws)
  add_name_label c d name none =
      let c' : CommandLineArguments F = record c {
        args_by_name_label = (name, d.id) ∷ c.args_by_name_label;
      } in
      if not (is_name_allowed d (if c.use_opt_sign_slash then b'_' else b'-') name)
      then (c', throws)
      else if ltb 24 (length name)
      then (c', some length_error)
      else if ltb c.largest_name_label (length name)
      then (record c' { largest_name_label = length name }, none)
      else (c', none)

  unfoldable pub validate_name : CommandLineArguments F → ArgDeclaration → Effect F
  unfolding add_name_label
  validate_name c d =
      if is_null_or_empty d.opt_name
      then (c, none)
      else add_name_label c d (text_of d.opt_name)
          (find_name (text_of d.opt_name) c.args_by_name_label)

  -- The part about the single character, whose entry was looked up, and the name.
  unfoldable pub add_char_label : CommandLineArguments F → ArgDeclaration → Option ℕ → Effect F
  unfolding validate_name
  add_char_label c d (some other) = (c, throws)
  add_char_label c d none =
      validate_name (record c { args_by_char_label = (d.opt_char, d.id) ∷ c.args_by_char_label }) d

  -- Only called with a description that is not null.
  unfoldable pub validate_arg_desc_and_labels : CommandLineArguments F → ArgDeclaration → Effect F
  unfolding validate_name add_char_label non_white_space_found
  validate_arg_desc_and_labels c d =
      if not (non_white_space_found lib.is_space (text_of d.description) false)
      then (c, throws)
      else if ltb 2000 (length (text_of d.description))
      then (c, some length_error)
      else if d.opt_char == 0
      then validate_name c d
      else add_char_label c d (find d.opt_char c.args_by_char_label)

  -- The insertion into the main dictionary, where the id was looked up.
  unfoldable pub insert_declaration :
      CommandLineArguments F
      → ArgDeclaration
      → Option (ArgValCfg F)
      → Option (ArgDeclExtended F)
      → Effect F
  insert_declaration c d cfg (some other) = (c, throws)
  insert_declaration c d cfg none = (
    record c {
      expected_args = (d.id, record { common = d; typed_ext_info = cfg }) ∷ c.expected_args;
    },
    none,
  )

  unfoldable pub add_declaration :
      CommandLineArguments F → ArgDeclaration → Option (ArgValCfg F) → Effect F
  unfolding insert_declaration
  add_declaration c d cfg = insert_declaration c d cfg (find d.id c.expected_args)

  -- What follows on a check that may have thrown.
  unfoldable pub then_add : Effect F → (CommandLineArguments F → Effect F) → Effect F
  then_add (c, none) next = next c
  then_add (c, some e) next = (c, some e)

  unfoldable pub check_then : Option Stop → CommandLineArguments F → Effect F → Effect F
  check_then none c next = next
  check_then (some e) c next = (c, some e)

  unfoldable pub set_value_arg : CommandLineArguments F → ArgDeclaration → Option ℕ → Effect F
  set_value_arg c d (some other) = (c, throws)
  set_value_arg c d none = (record c { id_value_type_arg = some d.id }, none)

  unfoldable pub add_verified_arg_spec_into_map :
      CommandLineArguments F → ArgDeclaration → ArgValCfg F → Effect F
  unfolding validate_arg_desc_and_labels add_declaration then_add set_value_arg
  add_verified_arg_spec_into_map c d cfg = then_add (validate_arg_desc_and_labels c d) λ c1.
      then_add (if is_option d.type then (c1, none) else set_value_arg c1 d c1.id_value_type_arg)
        λ c2. add_declaration c2 d (some cfg)

  -- `AddExpectedArgument` without values
  unfoldable pub add_expected_argument : CommandLineArguments F → ArgDeclaration → Effect F
  unfolding check_then look_for_common_inconsistencies validate_arg_desc_and_labels add_declaration
      then_add
  add_expected_argument c d =
      if (is_option_switch d.type && has_value d.value_type)
        || (is_values_list d.type || (is_ranged d.value_type || is_enum d.value_type))
      then (c, throws)
      else check_then (look_for_common_inconsistencies d) c
          (then_add (validate_arg_desc_and_labels c d) λ c1. add_declaration c1 d none)

  -- The steps that the other overloads share, after the test of the declared type.
  unfoldable pub add_configured :
      CommandLineArguments F → ArgDeclaration → Option Stop → ArgValCfg F → Effect F
  unfolding check_then look_for_common_inconsistencies add_verified_arg_spec_into_map
  add_configured c d verified cfg =
      check_then (look_for_common_inconsistencies d) c
        (check_then verified c (add_verified_arg_spec_into_map c d cfg))

  -- `AddExpectedArgument` with integers, floats, strings, and counts of items. No string is less
  -- than another here: a range of strings cannot be declared.
  unfoldable pub add_expected_integers : CommandLineArguments F → ArgDeclaration → List ℤ → Effect F
  unfolding add_configured verify_arg_typed_val_config
  add_expected_integers c d cfg =
      if not (is_integer d.value_type) || is_values_list d.type
      then (c, throws)
      else add_configured c d
          (verify_arg_typed_val_config less_integer (λ a b. not (less_integer a b))
            (λ a. integer_eq a (pos 0)) d cfg)
          (integers cfg)

  unfoldable pub add_expected_floats : CommandLineArguments F → ArgDeclaration → List F → Effect F
  unfolding add_configured verify_arg_typed_val_config
  add_expected_floats c d cfg =
      if not (is_float d.value_type) || is_values_list d.type
      then (c, throws)
      else add_configured c d
          (verify_arg_typed_val_config lib.less_float lib.at_least_float (λ a. false) d cfg)
          (floats cfg)

  unfoldable pub add_expected_strings :
      CommandLineArguments F → ArgDeclaration → List Text → Effect F
  unfolding add_configured verify_arg_typed_val_config
  add_expected_strings c d cfg =
      if not (is_string d.value_type) || is_values_list d.type
      then (c, throws)
      else add_configured c d
          (verify_arg_typed_val_config (λ a b. false) (λ a b. false) (λ a. false) d cfg)
          (strings cfg)

  unfoldable pub add_expected_counts : CommandLineArguments F → ArgDeclaration → List ℕ → Effect F
  unfolding add_configured verify_arg_typed_val_config
  add_expected_counts c d cfg =
      if not (is_values_list d.type)
      then (c, throws)
      else add_configured c d
          (verify_arg_typed_val_config ltb (λ a b. not (ltb a b)) (λ a. a == 0) d cfg) (counts cfg)
