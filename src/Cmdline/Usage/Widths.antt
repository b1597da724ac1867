-- ===== src/Cmdline/Usage/Widths.antt =====
-- The widths of the columns that `PrintArgsInfo` of 3FD/cmdline.cpp prints.
use fd.Base.{
  ℕ, ◌+◌, ◌≡◌, ◌≤◌, ◌<◌, ◌==◌, ltb, Bool, true, false, not, ◌&&◌, ◌||◌, Option, none, some, List,
  [], ◌∷◌, if◌then◌else◌, Stop, arith,
}
use fd.Cmdline.Types.{
  pos, less_integer, integer_eq, is_option, is_values_list, is_option_switch, has_value, is_ranged,
  is_enum, is_integer, is_float, is_string, ArgDeclaration, ArgDeclExtended, ArgValCfg, integers,
  floats, strings, counts, Library, find, find_name, CommandLineArguments,
}
use fd.Cmdline.Declaration.{
  Effect, throws, text_of, verify_arg_typed_val_config, look_for_common_inconsistencies,
  add_name_label, validate_name, add_char_label, validate_arg_desc_and_labels, insert_declaration,
  add_declaration, then_add, check_then, set_value_arg, add_verified_arg_spec_into_map,
  add_expected_argument, add_configured, add_expected_integers, add_expected_floats,
  add_expected_strings, add_expected_counts,
}
use fd.Cmdline.Declaration.Kept.{
  Call, with_nothing, with_integers, with_floats, with_strings, with_counts, run_call, run_calls,
}
use fd.Cmdline.Usage.{Stream, width_table_col1, n_spaces_adv_col2, width_table_col2}

module _ {F : Type 0} (lib : Library F) (w : ℕ) where
  -- The width of the line is the one of the constructor, and no name is longer than 24 bytes.
  abbrev pub InWidth : CommandLineArguments F → Type 0
  InWidth c = (c.min_cmd_line_width ≡ w) × (c.largest_name_label ≤ 24)

  abbrev StaysIn : Effect F → Type 0
  StaysIn r = InWidth r.0

  add_name_label-StaysIn :
      (c : CommandLineArguments F) (d : ArgDeclaration) (name : List ℕ) (o : Option ℕ)
      → InWidth c
      → StaysIn (add_name_label lib c d name o)
  unfolding add_name_label
  add_name_label-StaysIn c d name (some other) inside = inside
  add_name_label-StaysIn c d name none (same, short) = (ground arith, ground arith)

  if-StaysIn : (b : Bool) (x y : Effect F) → StaysIn x → StaysIn y → StaysIn (if b then x else y)
  if-StaysIn true x y at_x at_y = at_x
  if-StaysIn false x y at_x at_y = at_y

  validate_name-StaysIn :
      (c : CommandLineArguments F) (d : ArgDeclaration)
      → InWidth c
      → StaysIn (validate_name lib c d)
  unfolding validate_name
  validate_name-StaysIn c d inside =
      let (same, short) = inside in
      let (same', short') =
        add_name_label-StaysIn c d (text_of d.opt_name)
          (find_name (text_of d.opt_name) c.args_by_name_label) inside in
      (ground arith, ground arith)

  add_char_label-StaysIn :
      (c : CommandLineArguments F) (d : ArgDeclaration) (o : Option ℕ)
      → InWidth c
      → StaysIn (add_char_label lib c d o)
  unfolding add_char_label
  add_char_label-StaysIn c d (some other) inside = inside
  add_char_label-StaysIn c d none inside =
      validate_name-StaysIn
        (record c { args_by_char_label = (d.opt_char, d.id) ∷ c.args_by_char_label }) d inside

  labelled-StaysIn :
      (c : CommandLineArguments F) (d : ArgDeclaration)
      → InWidth c
      → StaysIn (validate_arg_desc_and_labels lib c d)
  unfolding validate_arg_desc_and_labels
  labelled-StaysIn c d inside =
      let (same, short) = inside in
      let (same', short') = validate_name-StaysIn c d inside in
      let (same2, short2) =
        add_char_label-StaysIn c d (find d.opt_char c.args_by_char_label) inside in
      (ground arith, ground arith)

  insert_declaration-StaysIn :
      (c : CommandLineArguments F) (d : ArgDeclaration) (cfg : Option (ArgValCfg F))
      (o : Option (ArgDeclExtended F))
      → InWidth c
      → StaysIn (insert_declaration lib c d cfg o)
  unfolding insert_declaration
  insert_declaration-StaysIn c d cfg none inside = inside
  insert_declaration-StaysIn c d cfg (some other) inside = inside

  set_value_arg-StaysIn :
      (c : CommandLineArguments F) (d : ArgDeclaration) (o : Option ℕ)
      → InWidth c
      → StaysIn (set_value_arg lib c d o)
  unfolding set_value_arg
  set_value_arg-StaysIn c d none inside = inside
  set_value_arg-StaysIn c d (some other) inside = inside

  then_add-StaysIn :
      (r : Effect F) (next : CommandLineArguments F → Effect F)
      → StaysIn r
      → ((c : CommandLineArguments F) → InWidth c → StaysIn (next c))
      → StaysIn (then_add lib r next)
  unfolding then_add
  then_add-StaysIn (c, none) next inside rest = rest c inside
  then_add-StaysIn (c, some e) next inside rest = inside

  check_then-StaysIn :
      (o : Option Stop) (c : CommandLineArguments F) (next : Effect F)
      → InWidth c
      → StaysIn next
      → StaysIn (check_then lib o c next)
  unfolding check_then
  check_then-StaysIn none c next inside rest = rest
  check_then-StaysIn (some e) c next inside rest = inside

  add_verified-StaysIn :
      (c : CommandLineArguments F) (d : ArgDeclaration) (cfg : ArgValCfg F)
      → InWidth c
      → StaysIn (add_verified_arg_spec_into_map lib c d cfg)
  unfolding add_verified_arg_spec_into_map add_declaration
  add_verified-StaysIn c d cfg inside =
      then_add-StaysIn (validate_arg_desc_and_labels lib c d)
        (λ c1.
          then_add lib
            (if is_option d.type then (c1, none) else set_value_arg lib c1 d c1.id_value_type_arg)
            λ c2. add_declaration lib c2 d (some cfg))
        (labelled-StaysIn c d inside)
        λ c1 inside1.
          then_add-StaysIn
            (if is_option d.type then (c1, none) else set_value_arg lib c1 d c1.id_value_type_arg)
            (λ c2. add_declaration lib c2 d (some cfg))
            (if-StaysIn (is_option d.type) (c1, none) (set_value_arg lib c1 d c1.id_value_type_arg)
              inside1 (set_value_arg-StaysIn c1 d c1.id_value_type_arg inside1))
            λ c2 inside2.
              insert_declaration-StaysIn c2 d (some cfg) (find d.id c2.expected_args) inside2

  add_configured-StaysIn :
      (c : CommandLineArguments F) (d : ArgDeclaration) (verified : Option Stop) (cfg : ArgValCfg F)
      → InWidth c
      → StaysIn (add_configured lib c d verified cfg)
  unfolding add_configured
  add_configured-StaysIn c d verified cfg inside =
      check_then-StaysIn (look_for_common_inconsistencies lib d) c
        (check_then lib verified c (add_verified_arg_spec_into_map lib c d cfg)) inside
        (check_then-StaysIn verified c (add_verified_arg_spec_into_map lib c d cfg) inside
          (add_verified-StaysIn c d cfg inside))

  run_call-StaysIn :
      (c : CommandLineArguments F) (call : Call F) → InWidth c → StaysIn (run_call lib c call)
  unfolding add_expected_argument add_declaration add_expected_integers add_expected_floats
      add_expected_strings add_expected_counts
  run_call-StaysIn c (with_nothing d) inside =
      if-StaysIn
        ((is_option_switch d.type && has_value d.value_type)
          || (is_values_list d.type || (is_ranged d.value_type || is_enum d.value_type)))
        (c, throws)
        (check_then lib (look_for_common_inconsistencies lib d) c
          (then_add lib (validate_arg_desc_and_labels lib c d) λ c1. add_declaration lib c1 d none))
        inside
        (check_then-StaysIn (look_for_common_inconsistencies lib d) c
          (then_add lib (validate_arg_desc_and_labels lib c d) λ c1. add_declaration lib c1 d none)
          inside
          (then_add-StaysIn (validate_arg_desc_and_labels lib c d)
            (λ c1. add_declaration lib c1 d none) (labelled-StaysIn c d inside)
            λ c1 inside1.
              insert_declaration-StaysIn c1 d none (find d.id c1.expected_args) inside1))
  run_call-StaysIn c (with_integers d l) inside =
      if-StaysIn (not (is_integer d.value_type) || is_values_list d.type) (c, throws)
        (add_configured lib c d
          (verify_arg_typed_val_config less_integer (λ a b. not (less_integer a b))
            (λ a. integer_eq a (pos 0)) d l)
          (integers l))
        inside
        (add_configured-StaysIn c d
          (verify_arg_typed_val_config less_integer (λ a b. not (less_integer a b))
            (λ a. integer_eq a (pos 0)) d l)
          (integers l) inside)
  run_call-StaysIn c (with_floats d l) inside =
      if-StaysIn (not (is_float d.value_type) || is_values_list d.type) (c, throws)
        (add_configured lib c d
          (verify_arg_typed_val_config lib.less_float lib.at_least_float (λ a. false) d l)
          (floats l))
        inside
        (add_configured-StaysIn c d
          (verify_arg_typed_val_config lib.less_float lib.at_least_float (λ a. false) d l)
          (floats l) inside)
  run_call-StaysIn c (with_strings d l) inside =
      if-StaysIn (not (is_string d.value_type) || is_values_list d.type) (c, throws)
        (add_configured lib c d
          (verify_arg_typed_val_config (λ a b. false) (λ a b. false) (λ a. false) d l) (strings l))
        inside
        (add_configured-StaysIn c d
          (verify_arg_typed_val_config (λ a b. false) (λ a b. false) (λ a. false) d l) (strings l)
          inside)
  run_call-StaysIn c (with_counts d l) inside =
      if-StaysIn (not (is_values_list d.type)) (c, throws)
        (add_configured lib c d
          (verify_arg_typed_val_config ltb (λ a b. not (ltb a b)) (λ a. a == 0) d l) (counts l))
        inside
        (add_configured-StaysIn c d
          (verify_arg_typed_val_config ltb (λ a b. not (ltb a b)) (λ a. a == 0) d l) (counts l)
          inside)

  pub run_calls-InWidth :
      (c : CommandLineArguments F) (calls : List (Call F))
      → InWidth c
      → InWidth (run_calls lib c calls)
  run_calls-InWidth c [] inside = inside
  run_calls-InWidth c (call ∷ calls) inside =
      run_calls-InWidth (run_call lib c call).0 calls (run_call-StaysIn c call inside)

  -- The second column of the table is at least 44 characters wide: its width, which is computed with
  -- 16 bits, does not wrap around.
  pub width_table_col2_bound :
      (stream : Stream F) (c : CommandLineArguments F)
      → InWidth c
      → 80 ≤ w
      → w < 256
      → 44 ≤ width_table_col2 lib stream c
  unfolding width_table_col2 n_spaces_adv_col2 width_table_col1
  width_table_col2_bound stream c (same, short) wide small = ground arith

  pub width_table_col2_fills :
      (stream : Stream F) (c : CommandLineArguments F)
      → InWidth c
      → 80 ≤ w
      → w < 256
      → n_spaces_adv_col2 lib stream c + width_table_col2 lib stream c ≡ w
  unfolding width_table_col2 n_spaces_adv_col2 width_table_col1
  width_table_col2_fills stream c (same, short) wide small = ground arith
