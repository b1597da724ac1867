-- ===== src/Cmdline/Sample.antt =====
-- A C library and a command line for the tests of 3FD/cmdline.cpp. The type `double` is ℕ here.
use fd.Base.{
  ℕ, suc, ◌+◌, ◌*◌, ◌-◌, ◌==◌, ltb, Bool, true, false, not, ◌&&◌, ◌||◌, Option, none, some, List,
  [], ◌∷◌, if◌then◌else◌,
}
use fd.Cmdline.Types.{
  Text, pos, ArgValSeparator, space, colon, equal_sign, option_with_req_value, values_list, integer,
  range_integer, ArgDeclaration, Regex, Match, Library, CommandLineArguments,
  new_command_line_arguments,
}
use fd.Cmdline.Declaration.{Effect, then_add, add_expected_integers, add_expected_counts}

abbrev pub between : ℕ → ℕ → ℕ → Bool
between low high c = not (ltb c low) && not (ltb high c)

-- The value of the digits at the front, and how many there are.
abbrev pub digits : ℕ → ℕ → Text → ℕ × ℕ
digits value count [] = (value, count)
digits value count (c ∷ t) =
    let rest = digits (value * 10 + (c - b'0')) (suc count) t in
    if between b'0' b'9' c then rest else (value, count)

abbrev pub separator_byte : ArgValSeparator → ℕ
separator_byte space = b' '
separator_byte colon = b':'
separator_byte equal_sign = b'='

abbrev pub more_label : ℕ → Match → Match
more_label c m = record { label = c ∷ m.label; value = m.value }

-- A label, and the value behind the separator.
abbrev pub split : ℕ → Text → Match
split separator [] = record { label = []; value = none }
split separator (c ∷ t) =
    let rest = split separator t in
    if c == separator then record { label = []; value = some t } else more_label c rest

abbrev pub is_single : Text → Bool
is_single (c ∷ []) = true
is_single _ = false

abbrev pub after_dash : Text → Option Text
after_dash [] = none
after_dash (c ∷ t) = if c == b'-' then some t else none

abbrev pub labelled : Bool → Match → Option Match
labelled single m =
    if is_single m.label && single
    then some m
    else if not (is_single m.label) && not single
    then some m
    else none

abbrev pub match_name : ℕ → Option Text → Option Match
match_name separator none = none
match_name separator (some t) = labelled false (split separator t)

abbrev pub match_char : ℕ → Option Text → Option Match
match_char separator none = none
match_char separator (some t) = labelled true (split separator t)

abbrev pub match_rest : Regex → Option Text → Option Match
match_rest r none = none
match_rest r (some t) =
    if r.by_name
    then match_name (separator_byte r.separator) (after_dash t)
    else match_char (separator_byte r.separator) (some t)

abbrev pub sample_library : Library ℕ
sample_library = record {
  is_space = λ c. c == b' ' || c == b'\n';
  is_alnum = λ c. between b'0' b'9' c;
  strtoll = λ t. (pos (digits 0 0 t).0, (digits 0 0 t).1);
  strtod = digits 0 0;
  less_float = ltb;
  at_least_float = λ a b. not (ltb a b);
  zero_float = 0;
  regex_match = λ r t. match_rest r (after_dash t);
}

-- The option -1 with an integer from 2 to 20.
abbrev pub level : ArgDeclaration
level = record {
  id = 7;
  type = option_with_req_value;
  value_type = range_integer;
  opt_char = b'1';
  opt_name = none;
  description = some (b'a' ∷ []);
}

-- A list of 1 to 2 integers.
abbrev pub numbers : ArgDeclaration
numbers = record {
  id = 9;
  type = values_list;
  value_type = integer;
  opt_char = 0;
  opt_name = some (b'0' ∷ b'0' ∷ []);
  description = some (b'b' ∷ []);
}

abbrev pub declared_line : Effect ℕ
declared_line =
    then_add sample_library
      (add_expected_integers sample_library (new_command_line_arguments 80 equal_sign false true)
        level (pos 2 ∷ pos 20 ∷ []))
      (λ c. add_expected_counts sample_library c numbers (1 ∷ 2 ∷ []))

abbrev pub sample_line : CommandLineArguments ℕ
sample_line = declared_line.0

-- -1=12 and 5
abbrev pub sample_arguments : List Text
sample_arguments = (b'-' ∷ b'1' ∷ b'=' ∷ b'1' ∷ b'2' ∷ []) ∷ (b'5' ∷ []) ∷ []
