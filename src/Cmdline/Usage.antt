-- ===== src/Cmdline/Usage.antt =====
-- `PrintArgsInfo` of 3FD/cmdline.cpp, which prints the usage of the command line.
pub mod Widths
pub mod Sorted
pub mod Ink
pub mod Printed
pub mod Whole
mod Examples
use fd.Base.{
  ℕ, ◌+◌, ◌-◌, ◌%◌, ◌==◌, ltb, Bool, true, false, not, ◌&&◌, Option, none, some, List, [], ◌∷◌,
  ◌++◌, if◌then◌else◌, length, replicate, Run, ok, stop, out_of_bounds, bad_cast, ◌>>=◌,
}
use fd.Cmdline.Types.{
  Text, ℤ, integer_eq, text_eq, is_option, is_values_list, has_value, is_ranged, is_enum, is_string,
  is_integer, is_float, ArgDeclaration, ArgDeclExtended, ArgValCfg, integers, floats, strings,
  counts, ArgValSeparator, space, colon, equal_sign, Library, Map, CommandLineArguments,
}
use fd.Cmdline.Declaration.{is_null_or_empty, text_of}
use fd.Cmdline.Paragraph.{format_paragraph}
use fd.Cmdline.Parsing.{is_space_separator}

-- How the stream writes numbers.
pub record Stream (F : Type 0) : Type 0 where
  pub show_integer : ℤ → Text
  pub show_float : F → Text
  pub show_count : ℕ → Text

abbrev opening : Text
opening = b' ' ∷ b'(' ∷ []

abbrev when_omitted : Text
when_omitted =
    b'w' ∷ b'h' ∷ b'e' ∷ b'n' ∷ b' ' ∷ b'o' ∷ b'm' ∷ b'm' ∷ b'i' ∷ b't' ∷ b'e' ∷ b'd' ∷ b',' ∷ b' '
    ∷ b'd' ∷ b'e' ∷ b'f' ∷ b'a' ∷ b'u' ∷ b'l' ∷ b't' ∷ b' ' ∷ b'=' ∷ b' ' ∷ []

abbrev semicolon : Text
semicolon = b';' ∷ b' ' ∷ []

abbrev min_is : Text
min_is = b'm' ∷ b'i' ∷ b'n' ∷ b' ' ∷ b'=' ∷ b' ' ∷ []

abbrev max_is : Text
max_is = b';' ∷ b' ' ∷ b'm' ∷ b'a' ∷ b'x' ∷ b' ' ∷ b'=' ∷ b' ' ∷ []

abbrev allowed : Text
allowed =
    b' ' ∷ b'-' ∷ b' ' ∷ b'a' ∷ b'l' ∷ b'l' ∷ b'o' ∷ b'w' ∷ b'e' ∷ b'd' ∷ b':' ∷ b' ' ∷ b'[' ∷ b'('
    ∷ b'd' ∷ b'e' ∷ b'f' ∷ b'a' ∷ b'u' ∷ b'l' ∷ b't' ∷ b' ' ∷ b'=' ∷ b' ' ∷ b')' ∷ []

abbrev comma : Text
comma = b',' ∷ b' ' ∷ []

abbrev expects_from : Text
expects_from =
    b' ' ∷ b'(' ∷ b'e' ∷ b'x' ∷ b'p' ∷ b'e' ∷ b'c' ∷ b't' ∷ b's' ∷ b' ' ∷ b'f' ∷ b'r' ∷ b'o' ∷ b'm'
    ∷ b' ' ∷ b' ' ∷ []

abbrev to : Text
to = b' ' ∷ b't' ∷ b'o' ∷ b' ' ∷ []

abbrev values : Text
values = b' ' ∷ b'v' ∷ b'a' ∷ b'l' ∷ b'u' ∷ b'e' ∷ b's' ∷ b')' ∷ []

abbrev expects : Text
expects = b' ' ∷ b'(' ∷ b'e' ∷ b'x' ∷ b'p' ∷ b'e' ∷ b'c' ∷ b't' ∷ b's' ∷ b' ' ∷ []

-- `PrintArgValuesConfig`: a range, a set, or the counts of a list of values.
module _ {V : Type 0} (show : V → Text) (same : V → V → Bool) where
  unfoldable pub print_range : List V → Run Text
  print_range (default ∷ min ∷ max ∷ []) = ok (
      opening
      ++ when_omitted
      ++ show default
      ++ semicolon
      ++ min_is
      ++ show min
      ++ max_is
      ++ show max
      ++ b')' ∷ [])
  print_range (min ∷ max ∷ cfg) =
      ok (opening ++ min_is ++ show min ++ max_is ++ show max ++ b')' ∷ [])
  print_range _ = stop out_of_bounds

  unfoldable pub print_items : List V → Run Text
  print_items [] = stop out_of_bounds
  print_items (item ∷ []) = ok (show item ++ b']' ∷ [])
  print_items (item ∷ more ∷ cfg) = do t ← print_items (more ∷ cfg); ok (show item ++ comma ++ t)

  unfoldable pub print_counts : List V → Run Text
  print_counts (min ∷ max ∷ cfg) =
      if same min max
      then ok (expects ++ show min ++ values)
      else ok (expects_from ++ show min ++ to ++ show max ++ values)
  print_counts _ = stop out_of_bounds

  unfoldable pub print_arg_values_config : ArgDeclaration → List V → Run Text
  unfolding print_range print_items print_counts
  print_arg_values_config d cfg =
      if is_ranged d.value_type
      then print_range cfg
      else if is_enum d.value_type
      then (do t ← print_items cfg; ok (allowed ++ t))
      else if is_values_list d.type
      then print_counts cfg
      else ok []

module _ {F : Type 0} (lib : Library F) (stream : Stream F) where
  -- The casts of `typedExtInfo`.
  unfoldable pub print_counts_of : ArgDeclaration → ArgValCfg F → Run Text
  unfolding print_arg_values_config
  print_counts_of d (counts l) = print_arg_values_config stream.show_count (λ a b. a == b) d l
  print_counts_of d _ = stop bad_cast

  unfoldable pub print_integers_of : ArgDeclaration → ArgValCfg F → Run Text
  unfolding print_arg_values_config
  print_integers_of d (integers l) = print_arg_values_config stream.show_integer integer_eq d l
  print_integers_of d _ = stop bad_cast

  unfoldable pub print_floats_of : ArgDeclaration → ArgValCfg F → Run Text
  unfolding print_arg_values_config
  print_floats_of d (floats l) =
      print_arg_values_config stream.show_float
        (λ a b. not (lib.less_float a b) && not (lib.less_float b a)) d l
  print_floats_of d _ = stop bad_cast

  unfoldable pub print_strings_of : ArgDeclaration → ArgValCfg F → Run Text
  unfolding print_arg_values_config
  print_strings_of d (strings l) = print_arg_values_config (λ t. t) text_eq d l
  print_strings_of d _ = stop bad_cast

  -- What follows on the description.
  unfoldable pub print_config : ArgDeclaration → Option (ArgValCfg F) → Run Text
  unfolding print_counts_of print_integers_of print_floats_of print_strings_of
  print_config d none = ok []
  print_config d (some cfg) =
      if is_values_list d.type
      then print_counts_of d cfg
      else if is_integer d.value_type
      then print_integers_of d cfg
      else if is_float d.value_type
      then print_floats_of d cfg
      else if is_string d.value_type
      then print_strings_of d cfg
      else ok []

  module _ (c : CommandLineArguments F) where
    -- The widths are computed with 16 bits.
    unfoldable pub width_table_col1 : ℕ
    width_table_col1 =
        if ltb 0 c.largest_name_label
        then (3
            + 2
            + (if c.use_opt_sign_slash then 1 else 2)
            + c.largest_name_label
            + (if is_space_separator c.arg_val_separator then 0 else 2))
          % 65536
        else (3 + (if is_space_separator c.arg_val_separator then 0 else 1)) % 65536

    unfoldable pub n_spaces_adv_col2 : ℕ
    unfolding width_table_col1
    n_spaces_adv_col2 = (width_table_col1 + 3) % 65536

    unfoldable pub width_table_col2 : ℕ
    unfolding n_spaces_adv_col2
    width_table_col2 = (c.min_cmd_line_width + 65536 - n_spaces_adv_col2) % 65536

    abbrev pub separator_char : ArgValSeparator → ℕ
    separator_char space = b' '
    separator_char colon = b':'
    separator_char equal_sign = b'='

    unfoldable pub char_column : ArgDeclaration → Text
    char_column d =
        if d.opt_char == 0
        then []
        else (if c.use_opt_sign_slash then b'/' else b'-') ∷ d.opt_char ∷ []
          ++ (if has_value d.value_type && not (is_space_separator c.arg_val_separator)
              then separator_char c.arg_val_separator ∷ []
              else [])
          ++ (if is_null_or_empty d.opt_name then [] else comma)

    unfoldable pub name_column : ArgDeclaration → Text
    name_column d =
        if is_null_or_empty d.opt_name
        then []
        else (if is_option d.type
            then (if c.use_opt_sign_slash then b'/' ∷ [] else b'-' ∷ b'-' ∷ [])
            else [])
          ++ text_of d.opt_name
          ++ (if is_option d.type
                && has_value d.value_type
                && not (is_space_separator c.arg_val_separator)
              then separator_char c.arg_val_separator ∷ []
              else [])

    -- `std::setw`
    unfoldable pub pad_left : ℕ → Text → Text
    pad_left width t = replicate (width - length t) b' ' ++ t

    -- An argument; `alloc` tells whether `calloc` gives a buffer of a size.
    unfoldable pub print_entry : (ℕ → Bool) → ArgDeclExtended F → Run Text
    unfolding char_column name_column pad_left print_config
    print_entry alloc e = do
      configured ← print_config e.common e.typed_ext_info
      paragraph ←
          format_paragraph alloc lib.is_space (text_of e.common.description ++ configured)
            width_table_col2 n_spaces_adv_col2
      ok (
          pad_left width_table_col1 (char_column e.common ++ name_column e.common)
          ++ replicate 3 b' '
          ++ paragraph
          ++ b'\n' ∷ b'\n' ∷ [])

    -- A `std::map` gives its entries in the order of their keys.
    unfoldable pub insert_by_id :
        ℕ → ArgDeclExtended F → Map ℕ (ArgDeclExtended F) → Map ℕ (ArgDeclExtended F)
    insert_by_id id e [] = (id, e) ∷ []
    insert_by_id id e ((j, d) ∷ m) =
        let rest = insert_by_id id e m in if ltb id j then (id, e) ∷ (j, d) ∷ m else (j, d) ∷ rest

    unfoldable pub by_id : Map ℕ (ArgDeclExtended F) → Map ℕ (ArgDeclExtended F)
    unfolding insert_by_id
    by_id [] = []
    by_id ((id, e) ∷ m) = insert_by_id id e (by_id m)

    unfoldable pub print_entries : (ℕ → Bool) → Map ℕ (ArgDeclExtended F) → Run Text
    unfolding print_entry
    print_entries alloc [] = ok []
    print_entries alloc ((id, e) ∷ m) = do
      first ← print_entry alloc e
      rest ← print_entries alloc m
      ok (first ++ rest)

    -- What is written to `std::cout`.
    unfoldable pub print_args_info : (ℕ → Bool) → Run Text
    unfolding print_entries by_id
    print_args_info alloc = print_entries alloc (by_id c.expected_args)
