-- ===== src/Cmdline/Declaration/Kept.antt =====
-- Every overload of `AddExpectedArgument` of 3FD/cmdline.cpp keeps the declared arguments consistent.
use fd.Base.{
  ℕ, ◌≡◌, refl, ◌==◌, ltb, Bool, true, false, not, ◌&&◌, ◌||◌, Option, none, some, List, [], ◌∷◌,
  if◌then◌else◌, Stop, or_false,
}
use fd.Cmdline.Types.{
  Text, ℤ, pos, less_integer, integer_eq, is_values_list, is_option_switch, has_value, is_ranged,
  is_enum, is_integer, is_float, is_string, ArgDeclaration, ArgValCfg, integers, floats, strings,
  counts, Library, find, CommandLineArguments, ArgValSeparator, new_command_line_arguments,
}
use fd.Cmdline.Declaration.{
  Effect, throws, verify_arg_typed_val_config, look_for_common_inconsistencies,
  validate_arg_desc_and_labels, add_declaration, then_add, check_then,
  add_verified_arg_spec_into_map, add_expected_argument, add_configured, add_expected_integers,
  add_expected_floats, add_expected_strings, add_expected_counts,
}
use fd.Cmdline.Declaration.Consistent.{
  at_least_integer, TypeFits, MemberFits, CfgFits, AllFit, Leaves, then_add-Leaves,
  check_then-Leaves, labelled-Leaves, add_verified-Leaves, insert_declaration-Leaves,
}
use fd.Cmdline.Declaration.Fits.{
  not-false, integers-Fit, floats-Fit, strings-Fit, plain-Fit, no_list-Fits, counts-Fit,
}

-- The calls of the overloads.
pub data Call (F : Type 0) : Type 0 where
  with_nothing : ArgDeclaration → Call F
  with_integers : ArgDeclaration → List ℤ → Call F
  with_floats : ArgDeclaration → List F → Call F
  with_strings : ArgDeclaration → List Text → Call F
  with_counts : ArgDeclaration → List ℕ → Call F

module _ {F : Type 0} (lib : Library F) where
  abbrev pub run_call : CommandLineArguments F → Call F → Effect F
  run_call c (with_nothing d) = add_expected_argument lib c d
  run_call c (with_integers d cfg) = add_expected_integers lib c d cfg
  run_call c (with_floats d cfg) = add_expected_floats lib c d cfg
  run_call c (with_strings d cfg) = add_expected_strings lib c d cfg
  run_call c (with_counts d cfg) = add_expected_counts lib c d cfg

  -- A caller that goes on after an exception.
  abbrev pub run_calls : CommandLineArguments F → List (Call F) → CommandLineArguments F
  run_calls c [] = c
  run_calls c (call ∷ calls) = run_calls (run_call c call).0 calls

  add_configured-Leaves :
      (c : CommandLineArguments F) (d : ArgDeclaration) (verified : Option Stop) (cfg : ArgValCfg F)
      → AllFit lib c.expected_args
      → (look_for_common_inconsistencies lib d ≡ none
          → verified ≡ none
          → CfgFits lib (record { common = d; typed_ext_info = some cfg }))
      → Leaves lib (add_configured lib c d verified cfg)
  unfolding add_configured
  add_configured-Leaves c d verified cfg fit right =
      check_then-Leaves lib (look_for_common_inconsistencies lib d) c
        (check_then lib verified c (add_verified_arg_spec_into_map lib c d cfg)) fit
        λ common.
          check_then-Leaves lib verified c (add_verified_arg_spec_into_map lib c d cfg) fit
            λ fine. add_verified-Leaves lib c d cfg fit (right common fine)

  -- A call that is refused at once, or goes on.
  unless-Leaves :
      (b : Bool) (c : CommandLineArguments F) (next : Effect F)
      → AllFit lib c.expected_args
      → (b ≡ false → Leaves lib next)
      → Leaves lib (if b then (c, throws) else next)
  unless-Leaves true c next fit rest = fit
  unless-Leaves false c next fit rest = rest refl

  add_expected_argument-Leaves :
      (c : CommandLineArguments F) (d : ArgDeclaration)
      → AllFit lib c.expected_args
      → Leaves lib (add_expected_argument lib c d)
  unfolding add_expected_argument add_declaration
  add_expected_argument-Leaves c d fit =
      unless-Leaves
        ((is_option_switch d.type && has_value d.value_type)
          || (is_values_list d.type || (is_ranged d.value_type || is_enum d.value_type)))
        c
        (check_then lib (look_for_common_inconsistencies lib d) c
          (then_add lib (validate_arg_desc_and_labels lib c d) λ c1. add_declaration lib c1 d none))
        fit
        λ fine.
          let (a, b) = or_false (is_option_switch d.type && has_value d.value_type) _ fine in
          let (no_list, e) = or_false (is_values_list d.type) _ b in
          let (no_range, no_enum) = or_false (is_ranged d.value_type) (is_enum d.value_type) e in
          check_then-Leaves lib (look_for_common_inconsistencies lib d) c
            (then_add lib (validate_arg_desc_and_labels lib c d)
              λ c1. add_declaration lib c1 d none)
            fit
            λ common.
              then_add-Leaves lib (validate_arg_desc_and_labels lib c d)
                (λ c1. add_declaration lib c1 d none) (labelled-Leaves lib c d fit)
                λ c1 fit1.
                  insert_declaration-Leaves lib c1 d none (find d.id c1.expected_args) fit1
                    (no_list-Fits lib d none no_list
                      (plain-Fit lib d.value_type none no_range no_enum) tt)
                    refl

  -- The overloads with values share their first test.
  typed-Leaves :
      (c : CommandLineArguments F) (d : ArgDeclaration) (is_right : Bool) (verified : Option Stop)
      (cfg : ArgValCfg F)
      → AllFit lib c.expected_args
      → (is_right ≡ true → verified ≡ none → TypeFits lib d.value_type (some cfg))
      → (is_right ≡ true → MemberFits lib d.value_type (some cfg))
      → Leaves lib (
          if not is_right || is_values_list d.type
          then (c, throws)
          else add_configured lib c d verified cfg)
  typed-Leaves c d is_right verified cfg fit right member =
      unless-Leaves (not is_right || is_values_list d.type) c (add_configured lib c d verified cfg)
        fit
        λ fine.
          let (typed, no_list) = or_false (not is_right) (is_values_list d.type) fine in
          add_configured-Leaves c d verified cfg fit λ common verified_fine.
            no_list-Fits lib d (some cfg) no_list (right (not-false is_right typed) verified_fine)
              (member (not-false is_right typed))

  run_call-Leaves :
      (c : CommandLineArguments F) (call : Call F)
      → AllFit lib c.expected_args
      → Leaves lib (run_call c call)
  unfolding add_expected_integers add_expected_floats add_expected_strings add_expected_counts
  run_call-Leaves c (with_nothing d) fit = add_expected_argument-Leaves c d fit
  run_call-Leaves c (with_integers d l) fit =
      typed-Leaves c d (is_integer d.value_type)
        (verify_arg_typed_val_config less_integer at_least_integer (λ a. integer_eq a (pos 0)) d l)
        (integers l) fit (integers-Fit lib d d.value_type l refl) (λ h. h)
  run_call-Leaves c (with_floats d l) fit =
      typed-Leaves c d (is_float d.value_type)
        (verify_arg_typed_val_config lib.less_float lib.at_least_float (λ a. false) d l) (floats l)
        fit (floats-Fit lib d d.value_type l refl) (λ h. h)
  run_call-Leaves c (with_strings d l) fit =
      typed-Leaves c d (is_string d.value_type)
        (verify_arg_typed_val_config (λ a b. false) (λ a b. false) (λ a. false) d l) (strings l) fit
        (strings-Fit lib d d.value_type l refl) (λ h. h)
  run_call-Leaves c (with_counts d l) fit =
      unless-Leaves (not (is_values_list d.type)) c
        (add_configured lib c d
          (verify_arg_typed_val_config ltb (λ a b. not (ltb a b)) (λ a. a == 0) d l) (counts l))
        fit
        λ fine.
          add_configured-Leaves c d
            (verify_arg_typed_val_config ltb (λ a b. not (ltb a b)) (λ a. a == 0) d l) (counts l)
            fit (counts-Fit lib d l (not-false (is_values_list d.type) fine))

  pub run_calls_from-AllFit :
      (c : CommandLineArguments F) (calls : List (Call F))
      → AllFit lib c.expected_args
      → AllFit lib (run_calls c calls).expected_args
  run_calls_from-AllFit c [] fit = fit
  run_calls_from-AllFit c (call ∷ calls) fit =
      run_calls_from-AllFit (run_call c call).0 calls (run_call-Leaves c call fit)

  -- Whatever is declared, and even if some of the declarations throw, all the declared arguments of
  -- an object stand under their own id, each id once, with the configuration that their type needs:
  -- at least one item for a set; for a range two bounds, of which the code's `>=` does not hold of the
  -- first against the second, behind at most one default, which the code's `<` finds neither less
  -- than the first nor above the second; for a list of values a minimum above 0 and a maximum that
  -- is no less; any other configuration has items of the type of the values.
  pub run_calls-AllFit :
      (width : ℕ) (separator : ArgValSeparator) (slash case_sensitive : Bool)
      (calls : List (Call F))
      → AllFit lib
          (run_calls
            (new_command_line_arguments width separator slash case_sensitive)
            calls).expected_args
  unfolding new_command_line_arguments
  run_calls-AllFit width separator slash case_sensitive calls =
      run_calls_from-AllFit (new_command_line_arguments width separator slash case_sensitive) calls
        tt
