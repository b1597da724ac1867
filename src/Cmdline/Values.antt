-- ===== src/Cmdline/Values.antt =====
-- The values of arguments in 3FD/cmdline.cpp: how a string is parsed and checked against the
-- declaration. `none` is `STATUS_FAIL`.
pub mod Conforms
pub mod Ends
use fd.Base.{
  ℕ, ◌==◌, ◌-◌, ltb, Bool, true, false, not, ◌&&◌, ◌||◌, Option, none, some, List, [], ◌∷◌,
  if◌then◌else◌, length, Run, ok, stop, assertion, bad_cast, out_of_bounds, ◌>>=◌,
}
use fd.Cmdline.Types.{
  Text, text_eq, ℤ, less_integer, integer_eq, ArgValType, no_value, string, integer, float,
  enum_string, enum_integer, range_integer, range_float, ArgDeclaration, ParsedValue, as_integer,
  as_float, as_string, ArgValCfg, integers, floats, strings, counts, Library,
}

-- `ValidateEnumValue`, by the equality of the type of values.
unfoldable pub validate_enum_value : {V : Type 0} → (V → V → Bool) → List V → V → Bool
validate_enum_value eq [] value = false
validate_enum_value eq (entry ∷ cfg) value = eq entry value || validate_enum_value eq cfg value

-- `ValidateRangedValue`: the last two items are the boundaries.
unfoldable pub validate_ranged_value : {V : Type 0} → (V → V → Bool) → List V → V → Run Bool
validate_ranged_value less (min ∷ max ∷ []) value = ok (not (less value min || less max value))
validate_ranged_value less (x ∷ min ∷ max ∷ cfg) value =
    validate_ranged_value less (min ∷ max ∷ cfg) value
validate_ranged_value less _ value = stop out_of_bounds

abbrev pub keep_if : {A : Type 0} → Bool → A → Option A
keep_if true a = some a
keep_if false a = none

-- The casts of `argValCfg`, after the assertion that it is not null.
unfoldable pub integers_of : {F : Type 0} → Option (ArgValCfg F) → Run (List ℤ)
integers_of none = stop assertion
integers_of (some (integers l)) = ok l
integers_of (some _) = stop bad_cast

unfoldable pub floats_of : {F : Type 0} → Option (ArgValCfg F) → Run (List F)
floats_of none = stop assertion
floats_of (some (floats l)) = ok l
floats_of (some _) = stop bad_cast

unfoldable pub strings_of : {F : Type 0} → Option (ArgValCfg F) → Run (List Text)
strings_of none = stop assertion
strings_of (some (strings l)) = ok l
strings_of (some _) = stop bad_cast

module _ {F : Type 0} (lib : Library F) where
  -- `ParseInteger` and `ParseFloat`: the library must read the whole string.
  unfoldable pub parse_integer : Text → Option ℤ
  parse_integer t = keep_if ((lib.strtoll t).1 == length t) (lib.strtoll t).0

  unfoldable pub parse_float : Text → Option F
  parse_float t = keep_if ((lib.strtod t).1 == length t) (lib.strtod t).0

  -- A value that was parsed, and is kept if it passes a check.
  unfoldable pub checked :
      {V : Type 0} → (V → ParsedValue F) → Option V → (V → Run Bool) → Run (Option (ParsedValue F))
  checked member none test = ok none
  checked member (some v) test = do fine ← test v; ok (keep_if fine (member v))

  -- `ParseAndValidateValue`, by the type of value.
  unfoldable pub parse_value :
      ArgValType → Option (ArgValCfg F) → Text → Run (Option (ParsedValue F))
  unfolding checked parse_integer parse_float validate_enum_value validate_ranged_value
  parse_value no_value cfg t = stop assertion
  parse_value string cfg t = ok (some (as_string t))
  parse_value integer cfg t = checked as_integer (parse_integer t) (λ v. ok true)
  parse_value float cfg t = checked as_float (parse_float t) (λ v. ok true)
  parse_value enum_string cfg t =
      checked as_string (some t) λ v. do l ← strings_of cfg; ok (validate_enum_value text_eq l v)
  parse_value enum_integer cfg t =
      checked as_integer (parse_integer t)
        λ v. do l ← integers_of cfg; ok (validate_enum_value integer_eq l v)
  parse_value range_integer cfg t =
      checked as_integer (parse_integer t)
        λ v. do l ← integers_of cfg; validate_ranged_value less_integer l v
  parse_value range_float cfg t =
      checked as_float (parse_float t)
        λ v. do l ← floats_of cfg; validate_ranged_value lib.less_float l v

  unfoldable pub parse_and_validate_value :
      ArgDeclaration → Option (ArgValCfg F) → Text → Run (Option (ParsedValue F))
  unfolding parse_value
  parse_and_validate_value d cfg t = parse_value d.value_type cfg t
