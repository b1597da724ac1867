-- ===== src/Cmdline/Types.antt =====
-- The types of 3FD/cmdline.h, and what the class uses of the C library and of boost::regex.
use fd.Base.{
  ℕ, ◌==◌, ltb, Bool, true, false, not, ◌&&◌, Option, none, some, List, [], ◌∷◌, if◌then◌else◌,
}

-- A C string: its bytes, without the null byte at the end. A `const char *` that may be null is an
-- `Option Text`.
abbrev pub Text : Type 0
Text = List ℕ

unfoldable pub text_eq : Text → Text → Bool
text_eq [] [] = true
text_eq [] (d ∷ ds) = false
text_eq (c ∷ cs) [] = false
text_eq (c ∷ cs) (d ∷ ds) = c == d && text_eq cs ds

-- `long long`
pub data ℤ : Type 0 where
  pos negsuc : ℕ → ℤ

unfoldable pub less_integer : ℤ → ℤ → Bool
less_integer (pos a) (pos b) = ltb a b
less_integer (pos a) (negsuc b) = false
less_integer (negsuc a) (pos b) = true
less_integer (negsuc a) (negsuc b) = ltb b a

unfoldable pub integer_eq : ℤ → ℤ → Bool
integer_eq (pos a) (pos b) = a == b
integer_eq (pos a) (negsuc b) = false
integer_eq (negsuc a) (pos b) = false
integer_eq (negsuc a) (negsuc b) = a == b

pub data ArgType : Type 0 where
  option_switch option_with_req_value single_value values_list : ArgType

-- The enumerator has `argIsOptionFlag`, or else `argIsValueFlag`.
abbrev pub is_option : ArgType → Bool
is_option option_switch = true
is_option option_with_req_value = true
is_option single_value = false
is_option values_list = false

abbrev pub is_values_list : ArgType → Bool
is_values_list values_list = true
is_values_list _ = false

abbrev pub is_option_switch : ArgType → Bool
is_option_switch option_switch = true
is_option_switch _ = false

pub data ArgValType : Type 0 where
  no_value string integer float enum_string enum_integer range_integer range_float : ArgValType

-- The bits of the enumerators: `argValIsRangedTypeFlag`, `argValIsEnumTypeFlag`, and those of
-- `String`, `Integer` and `Float`.
abbrev pub is_ranged : ArgValType → Bool
is_ranged range_integer = true
is_ranged range_float = true
is_ranged _ = false

abbrev pub is_enum : ArgValType → Bool
is_enum enum_string = true
is_enum enum_integer = true
is_enum _ = false

abbrev pub is_string : ArgValType → Bool
is_string string = true
is_string enum_string = true
is_string _ = false

abbrev pub is_integer : ArgValType → Bool
is_integer integer = true
is_integer enum_integer = true
is_integer range_integer = true
is_integer _ = false

abbrev pub is_float : ArgValType → Bool
is_float float = true
is_float range_float = true
is_float _ = false

abbrev pub has_value : ArgValType → Bool
has_value no_value = false
has_value _ = true

-- `opt_char` is 0 when there is none.
pub record ArgDeclaration : Type 0 where
  pub id : ℕ
  pub type : ArgType
  pub value_type : ArgValType
  pub opt_char : ℕ
  pub opt_name : Option Text
  pub description : Option Text

pub data ArgValSeparator : Type 0 where
  space colon equal_sign : ArgValSeparator

-- The union, with the member that was written last.
pub data ParsedValue (F : Type 0) : Type 0 where
  as_integer : ℤ → ParsedValue F
  as_float : F → ParsedValue F
  as_string : Text → ParsedValue F

-- The vector behind `typedExtInfo`, with the type of its items.
pub data ArgValCfg (F : Type 0) : Type 0 where
  integers : List ℤ → ArgValCfg F
  floats : List F → ArgValCfg F
  strings : List Text → ArgValCfg F
  counts : List ℕ → ArgValCfg F

pub record ArgDeclExtended (F : Type 0) : Type 0 where
  pub common : ArgDeclaration
  pub typed_ext_info : Option (ArgValCfg F)

-- A pattern of the two tables of the constructor: which table, which line, which column, and
-- whether case is ignored.
pub record Regex : Type 0 where
  pub by_name : Bool
  pub slash : Bool
  pub separator : ArgValSeparator
  pub icase : Bool

-- A match: the label, which is group 1, and the value, which is group 3, if group 2 matched.
pub record Match : Type 0 where
  pub label : Text
  pub value : Option Text

-- The library functions. `strtoll` and `strtod` return how many bytes they read, besides the
-- value. `F` is `double`.
pub record Library (F : Type 0) : Type 0 where
  pub is_space : ℕ → Bool
  pub is_alnum : ℕ → Bool
  pub strtoll : Text → ℤ × ℕ
  pub strtod : Text → F × ℕ
  pub less_float : F → F → Bool
  pub at_least_float : F → F → Bool
  pub zero_float : F
  pub regex_match : Regex → Text → Option Match

-- `std::map`, of which only look-up and insertion matter.
abbrev pub Map : Type 0 → Type 0 → Type 0
Map K V = List (K × V)

unfoldable pub find : {V : Type 0} → ℕ → Map ℕ V → Option V
find k [] = none
find k ((j, v) ∷ m) = if k == j then some v else find k m

unfoldable pub find_name : {V : Type 0} → Text → Map Text V → Option V
find_name k [] = none
find_name k ((j, v) ∷ m) = if text_eq k j then some v else find_name k m

pub record CommandLineArguments (F : Type 0) : Type 0 where
  pub expected_args : Map ℕ (ArgDeclExtended F)
  pub args_by_char_label : Map ℕ ℕ
  pub args_by_name_label : Map Text ℕ
  pub arg_val_separator : ArgValSeparator
  pub min_cmd_line_width : ℕ
  pub largest_name_label : ℕ
  pub use_opt_sign_slash : Bool
  pub is_opt_case_sensitive : Bool
  pub id_value_type_arg : Option ℕ
  pub parsed_opt_vals : Map ℕ (ParsedValue F)
  pub parsed_val_args : List (ParsedValue F)

-- The constructor.
unfoldable pub new_command_line_arguments :
    {F : Type 0} → ℕ → ArgValSeparator → Bool → Bool → CommandLineArguments F
new_command_line_arguments min_cmd_line_width separator use_opt_sign_slash opt_case_sensitive =
    record {
      expected_args = [];
      args_by_char_label = [];
      args_by_name_label = [];
      arg_val_separator = separator;
      min_cmd_line_width = if ltb 80 min_cmd_line_width then min_cmd_line_width else 80;
      largest_name_label = 0;
      use_opt_sign_slash = use_opt_sign_slash;
      is_opt_case_sensitive = opt_case_sensitive;
      id_value_type_arg = none;
      parsed_opt_vals = [];
      parsed_val_args = [];
    }

-- `m_rgxOptCharLabel` and `m_rgxOptNameLabel`, as the constructor sets them.
abbrev pub rgx_opt_char_label : {F : Type 0} → CommandLineArguments F → Regex
rgx_opt_char_label c = record {
  by_name = false;
  slash = c.use_opt_sign_slash;
  separator = c.arg_val_separator;
  icase = not c.is_opt_case_sensitive;
}

abbrev pub rgx_opt_name_label : {F : Type 0} → CommandLineArguments F → Regex
rgx_opt_name_label c = record {
  by_name = true;
  slash = c.use_opt_sign_slash;
  separator = c.arg_val_separator;
  icase = true;
}
