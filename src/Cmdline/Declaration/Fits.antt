-- ===== src/Cmdline/Declaration/Fits.antt =====
-- The configurations that the checks of a declaration in 3FD/cmdline.cpp let through fit its type.
use fd.Base.{ℕ, ◌≡◌, refl, ap, ◌==◌, ltb, Bool, true, false, not, Option, none, some, List, arith}
use fd.Cmdline.Types.{
  Text, ℤ, pos, less_integer, integer_eq, ArgType, option_switch, option_with_req_value,
  single_value, values_list, is_option, is_values_list, ArgValType, no_value, string, integer,
  float, enum_string, enum_integer, range_integer, range_float, is_ranged, is_enum, is_integer,
  is_float, is_string, ArgDeclaration, ArgValCfg, integers, floats, strings, counts, Library,
}
use fd.Cmdline.Declaration.{verify_arg_typed_val_config, look_for_common_inconsistencies}
use fd.Cmdline.Declaration.Consistent.{at_least_integer, TypeFits, MemberFits, CfgFits}
use fd.Cmdline.Declaration.Verified.{
  verified-IsEnum, verified-IsRange, verified-IsCount, common-not_option,
}

pub not-false : (b : Bool) → not b ≡ false → b ≡ true
not-false true h = refl
not-false false h = absurd cc

list_is_value : (t : ArgType) → is_values_list t ≡ true → is_option t ≡ false
list_is_value option_switch h = absurd cc
list_is_value option_with_req_value h = absurd cc
list_is_value single_value h = absurd cc
list_is_value values_list h = refl

module _ {F : Type 0} (lib : Library F) where
  pub integers-Fit :
      (d : ArgDeclaration) (t : ArgValType) (l : List ℤ)
      → d.value_type ≡ t
      → is_integer t ≡ true
      → verify_arg_typed_val_config less_integer at_least_integer (λ a. integer_eq a (pos 0)) d l
        ≡ none
      → TypeFits lib t (some (integers l))
  integers-Fit d no_value l e is_one h = tt
  integers-Fit d string l e is_one h = tt
  integers-Fit d integer l e is_one h = tt
  integers-Fit d float l e is_one h = tt
  integers-Fit d enum_string l e is_one h = absurd cc
  integers-Fit d enum_integer l e is_one h =
      let (x, k, same) =
        verified-IsEnum less_integer at_least_integer (λ a. integer_eq a (pos 0)) d l (ap is_enum e)
          h in
      (x, k, ap (λ l. some (integers l)) same)
  integers-Fit d range_integer l e is_one h = (
    l,
    refl,
    verified-IsRange less_integer at_least_integer (λ a. integer_eq a (pos 0)) d l (ap is_enum e)
        (ap is_ranged e) h,
  )
  integers-Fit d range_float l e is_one h = absurd cc

  pub floats-Fit :
      (d : ArgDeclaration) (t : ArgValType) (l : List F)
      → d.value_type ≡ t
      → is_float t ≡ true
      → verify_arg_typed_val_config lib.less_float lib.at_least_float (λ a. false) d l ≡ none
      → TypeFits lib t (some (floats l))
  floats-Fit d no_value l e is_one h = tt
  floats-Fit d string l e is_one h = tt
  floats-Fit d integer l e is_one h = tt
  floats-Fit d float l e is_one h = tt
  floats-Fit d enum_string l e is_one h = absurd cc
  floats-Fit d enum_integer l e is_one h = absurd cc
  floats-Fit d range_integer l e is_one h = absurd cc
  floats-Fit d range_float l e is_one h = (
    l,
    refl,
    verified-IsRange lib.less_float lib.at_least_float (λ a. false) d l (ap is_enum e)
        (ap is_ranged e) h,
  )

  pub strings-Fit :
      (d : ArgDeclaration) (t : ArgValType) (l : List Text)
      → d.value_type ≡ t
      → is_string t ≡ true
      → verify_arg_typed_val_config (λ a b. false) (λ a b. false) (λ a. false) d l ≡ none
      → TypeFits lib t (some (strings l))
  strings-Fit d no_value l e is_one h = tt
  strings-Fit d string l e is_one h = tt
  strings-Fit d integer l e is_one h = tt
  strings-Fit d float l e is_one h = tt
  strings-Fit d enum_string l e is_one h =
      let (x, k, same) =
        verified-IsEnum (λ a b. false) (λ a b. false) (λ a. false) d l (ap is_enum e) h in
      (x, k, ap (λ l. some (strings l)) same)
  strings-Fit d enum_integer l e is_one h = absurd cc
  strings-Fit d range_integer l e is_one h = absurd cc
  strings-Fit d range_float l e is_one h = absurd cc

  -- A type of values without a range or a set needs no configuration.
  pub plain-Fit :
      (t : ArgValType) (cfg : Option (ArgValCfg F))
      → is_ranged t ≡ false
      → is_enum t ≡ false
      → TypeFits lib t cfg
  plain-Fit no_value cfg no_range no_enum = tt
  plain-Fit string cfg no_range no_enum = tt
  plain-Fit integer cfg no_range no_enum = tt
  plain-Fit float cfg no_range no_enum = tt
  plain-Fit enum_string cfg no_range no_enum = absurd cc
  plain-Fit enum_integer cfg no_range no_enum = absurd cc
  plain-Fit range_integer cfg no_range no_enum = absurd cc
  plain-Fit range_float cfg no_range no_enum = absurd cc

  pub no_list-Fits :
      (d : ArgDeclaration) (cfg : Option (ArgValCfg F))
      → is_values_list d.type ≡ false
      → TypeFits lib d.value_type cfg
      → MemberFits lib d.value_type cfg
      → CfgFits lib (record { common = d; typed_ext_info = cfg })
  no_list-Fits d cfg no_list fit member = (fit, rw (no_list) member)

  pub counts-Fit :
      (d : ArgDeclaration) (l : List ℕ)
      → is_values_list d.type ≡ true
      → look_for_common_inconsistencies lib d ≡ none
      → verify_arg_typed_val_config ltb (λ a b. not (ltb a b)) (λ a. a == 0) d l ≡ none
      → CfgFits lib (record { common = d; typed_ext_info = some (counts l) })
  counts-Fit d l is_list common h =
      let (no_range, no_enum) = common-not_option lib d (list_is_value d.type is_list) common in
      let (min, max, same, some_min, in_order) =
        verified-IsCount ltb (λ a b. not (ltb a b)) (λ a. a == 0) d l no_enum no_range is_list h in
      (
        plain-Fit d.value_type (some (counts l)) no_range no_enum,
        rw (is_list) (min, max, ap (λ l. some (counts l)) same, ground arith, ground arith),
      )
