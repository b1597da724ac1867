-- ===== src/Cmdline/Parsing/Examples.antt =====
-- A run of `Parse` of 3FD/cmdline.cpp.
use fd.Base.{ℕ, ◌≡◌, refl, true, false, none, [], ◌∷◌, ok}
use fd.Cmdline.Types.{
  pos, less_integer, integer_eq, as_integer, find, find_name, CommandLineArguments,
  new_command_line_arguments,
}
use fd.Cmdline.Values.{
  parse_and_validate_value, parse_value, checked, parse_integer, validate_ranged_value, integers_of,
}
use fd.Cmdline.Declaration.{
  then_add, add_expected_integers, add_expected_counts, add_configured, check_then,
  look_for_common_inconsistencies, verify_arg_typed_val_config, verify_range, verify_counts,
  add_verified_arg_spec_into_map, validate_arg_desc_and_labels, add_char_label, validate_name,
  add_name_label, is_name_allowed, non_white_space_found, is_null_or_empty, add_declaration,
  insert_declaration, set_value_arg,
}
use fd.Cmdline.Parsing.{
  looks_by_name, looks_by_char, looks_like, val_arg, push_value, parse_val_arg, put_option,
  parse_with_value, parse_next, parse_switch, parse_option, parse_unrepeated, parse_declared,
  parse_looking, parse_args, is_count_in, is_count_right, check_count, finish_parse, parse,
}
use fd.Cmdline.Parsing.Pieces.{
  with_text, plain, pieces, pieces_of, pieces_declared, pieces_of_type, waiting_of,
  waiting_declared, waiting_of_type,
}
use fd.Cmdline.Parsing.Sound.{Parsed, parse-Parsed}
use fd.Cmdline.Types.{equal_sign}
use fd.Cmdline.Values.Ends.{Ends}
use fd.Cmdline.Parsing.Ends.{parse-Ends}
use fd.Cmdline.Declaration.Kept.{run_calls}
use fd.Cmdline.Declaration.Examples.{sample_calls}
use fd.Cmdline.Sample.{sample_library, sample_line, sample_arguments, declared_line}

pub declarations_are_accepted : declared_line.1 ≡ none
unfolding then_add add_expected_integers add_expected_counts add_configured check_then
    look_for_common_inconsistencies verify_arg_typed_val_config verify_range verify_counts
    add_verified_arg_spec_into_map validate_arg_desc_and_labels add_char_label validate_name
    add_name_label is_name_allowed non_white_space_found is_null_or_empty add_declaration
    insert_declaration set_value_arg less_integer integer_eq find find_name
    new_command_line_arguments
declarations_are_accepted = refl

abbrev pub parsed_line : CommandLineArguments ℕ
parsed_line = record sample_line {
  parsed_opt_vals = (7, as_integer (pos 12)) ∷ [];
  parsed_val_args = as_integer (pos 5) ∷ [];
}

pub sample_is_parsed : parse sample_library sample_line sample_arguments ≡ ok (true, parsed_line)
unfolding then_add add_expected_integers add_expected_counts add_configured check_then
    look_for_common_inconsistencies verify_arg_typed_val_config verify_range verify_counts
    add_verified_arg_spec_into_map validate_arg_desc_and_labels add_char_label validate_name
    add_name_label is_name_allowed non_white_space_found is_null_or_empty add_declaration
    insert_declaration set_value_arg less_integer integer_eq find find_name
    new_command_line_arguments parse_and_validate_value parse_value checked parse_integer
    validate_ranged_value integers_of looks_by_name looks_by_char looks_like val_arg push_value
    parse_val_arg put_option parse_with_value parse_next parse_switch parse_option parse_unrepeated
    parse_declared parse_looking parse_args is_count_in is_count_right check_count finish_parse
    parse
sample_is_parsed = refl

-- The text behind -1=, and a value.
sample_pieces :
    pieces sample_library sample_line none sample_arguments
    ≡ with_text 7 (b'1' ∷ b'2' ∷ []) ∷ plain (b'5' ∷ []) ∷ []
unfolding then_add add_expected_integers add_expected_counts add_configured check_then
    look_for_common_inconsistencies verify_arg_typed_val_config verify_range verify_counts
    add_verified_arg_spec_into_map validate_arg_desc_and_labels add_char_label validate_name
    add_name_label is_name_allowed non_white_space_found is_null_or_empty add_declaration
    insert_declaration set_value_arg less_integer integer_eq find find_name
    new_command_line_arguments looks_by_name looks_by_char looks_like pieces pieces_of
    pieces_declared pieces_of_type waiting_of waiting_declared waiting_of_type
sample_pieces = refl

parse-Parsed_example : Parsed sample_library sample_line true parsed_line
parse-Parsed_example =
    parse-Parsed sample_library sample_line sample_arguments true parsed_line sample_is_parsed

parse-Ends_example : Ends (
    parse sample_library
      (run_calls sample_library (new_command_line_arguments 80 equal_sign false true) sample_calls)
      sample_arguments)
parse-Ends_example =
    parse-Ends sample_library 80 equal_sign false true sample_calls sample_arguments
