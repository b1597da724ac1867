-- ===== src/Cmdline/Retrieval/Examples.antt =====
-- Getters of 3FD/cmdline.cpp after a run of `Parse`.
use fd.Base.{ℕ, ◌≡◌, ◌≤◌, ◌⊎◌, refl, ltb, true, false, none, some, List, [], ◌∷◌, length, map, ok}
use fd.Cmdline.Types.{
  Text, ℤ, pos, less_integer, integer_eq, as_integer, counts, integers, ArgDeclExtended, find,
  find_name, new_command_line_arguments,
}
use fd.Cmdline.Values.{parse_integer}
use fd.Cmdline.Values.Conforms.{OneOf, Conforms}
use fd.Cmdline.Declaration.{
  then_add, add_expected_integers, add_expected_counts, add_configured, check_then,
  look_for_common_inconsistencies, verify_arg_typed_val_config, verify_range, verify_counts,
  add_verified_arg_spec_into_map, validate_arg_desc_and_labels, add_char_label, validate_name,
  add_name_label, is_name_allowed, non_white_space_found, is_null_or_empty, add_declaration,
  insert_declaration, set_value_arg,
}
use fd.Cmdline.Parsing.{val_arg}
use fd.Cmdline.Parsing.Pieces.{with_text, pieces, value_texts}
use fd.Cmdline.Parsing.Examples.{parsed_line, sample_is_parsed}
use fd.Cmdline.Retrieval.{is_value_arg, get_arg_value_integer, get_arg_list_of_integers}
use fd.Cmdline.Retrieval.Present.{get_arg_value_integer-Conforms, get_arg_list_of_integers-Given}
use fd.Cmdline.Sample.{sample_library, sample_line, sample_arguments, level, numbers}

abbrev level_declared : ArgDeclExtended ℕ
level_declared = record { common = level; typed_ext_info = some (integers (pos 2 ∷ pos 20 ∷ [])) }

abbrev numbers_declared : ArgDeclExtended ℕ
numbers_declared = record { common = numbers; typed_ext_info = some (counts (1 ∷ 2 ∷ [])) }

level_found : find 7 sample_line.expected_args ≡ some level_declared
unfolding then_add add_expected_integers add_expected_counts add_configured check_then
    look_for_common_inconsistencies verify_arg_typed_val_config verify_range verify_counts
    add_verified_arg_spec_into_map validate_arg_desc_and_labels add_char_label validate_name
    add_name_label is_name_allowed non_white_space_found is_null_or_empty add_declaration
    insert_declaration set_value_arg less_integer integer_eq find find_name
    new_command_line_arguments
level_found = refl

level_is_option : is_value_arg sample_line.id_value_type_arg 7 ≡ false
unfolding then_add add_expected_integers add_expected_counts add_configured check_then
    look_for_common_inconsistencies verify_arg_typed_val_config verify_range verify_counts
    add_verified_arg_spec_into_map validate_arg_desc_and_labels add_char_label validate_name
    add_name_label is_name_allowed non_white_space_found is_null_or_empty add_declaration
    insert_declaration set_value_arg less_integer integer_eq find find_name
    new_command_line_arguments is_value_arg
level_is_option = refl

numbers_found : val_arg sample_library sample_line ≡ some numbers_declared
unfolding then_add add_expected_integers add_expected_counts add_configured check_then
    look_for_common_inconsistencies verify_arg_typed_val_config verify_range verify_counts
    add_verified_arg_spec_into_map validate_arg_desc_and_labels add_char_label validate_name
    add_name_label is_name_allowed non_white_space_found is_null_or_empty add_declaration
    insert_declaration set_value_arg less_integer integer_eq find find_name
    new_command_line_arguments val_arg
numbers_found = refl

level_given : find 7 parsed_line.parsed_opt_vals ≡ some (as_integer (pos 12))
unfolding find
level_given = refl

get_arg_value_integer-Conforms_example :
    (v : ℤ) × (t : Text) × (get_arg_value_integer sample_library parsed_line 7 false ≡ ok (v, true))
    × OneOf (pieces sample_library sample_line none sample_arguments) (with_text 7 t)
    × (parse_integer sample_library t ≡ some v)
    × Conforms sample_library level.value_type
        (some (integers (pos 2 ∷ pos 20 ∷ [])))
        (as_integer v)
get_arg_value_integer-Conforms_example =
    get_arg_value_integer-Conforms sample_library sample_line sample_arguments parsed_line 7
      level_declared (as_integer (pos 12)) false sample_is_parsed level_found refl refl
      level_is_option level_given

get_arg_list_of_integers-Given_example :
    (l : List ℤ) × (get_arg_list_of_integers sample_library parsed_line ≡ ok (l, ltb 0 (length l)))
    × (map
          (parse_integer sample_library)
          (value_texts (pieces sample_library sample_line none sample_arguments))
        ≡ map some l)
    × ((length l ≡ 0)
        ⊎ ((min : ℕ) × (max : ℕ) × (k : List ℕ) × (numbers_declared.typed_ext_info
              ≡ some (counts (min ∷ max ∷ k)))
            × (min ≤ length l)
            × (length l ≤ max)))
get_arg_list_of_integers-Given_example =
    get_arg_list_of_integers-Given sample_library sample_line sample_arguments parsed_line
      numbers_declared sample_is_parsed numbers_found refl refl
