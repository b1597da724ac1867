-- ===== src/Cmdline/Declaration/Verified.antt =====
-- What the checks of a declaration in 3FD/cmdline.cpp let through.
use fd.Base.{
  ◌≡◌, refl, ◌==◌, ltb, Bool, true, false, not, ◌&&◌, ◌||◌, Option, none, List, [], ◌∷◌,
  if◌then◌else◌, length, Stop, or_false, arith,
}
use fd.Cmdline.Types.{
  is_option, is_values_list, is_option_switch, ArgDeclaration, is_ranged, is_enum, Library,
}
use fd.Cmdline.Declaration.{
  throws, is_null_or_empty, verify_range, verify_counts, verify_arg_typed_val_config,
  look_for_common_inconsistencies,
}
use fd.Cmdline.Declaration.Consistent.{IsRange}

-- A check that did not throw.
pub if_throws_lem :
    (b : Bool) (rest : Option Stop)
    → (if b then throws else rest) ≡ none
    → (b ≡ false) × (rest ≡ none)
if_throws_lem true rest h = absurd cc
if_throws_lem false rest h = (refl, h)

module _ {V : Type 0} (less at_least : V → V → Bool) (is_zero : V → Bool) where
  verify_range-IsRange :
      (l : List V)
      → (if ltb (length l) 2 || ltb 3 (length l)
          then throws
          else verify_range less at_least is_zero l)
        ≡ none
      → IsRange less at_least l
  unfolding verify_range
  verify_range-IsRange [] h = absurd cc
  verify_range-IsRange (x ∷ []) h = absurd cc
  verify_range-IsRange (min ∷ max ∷ []) h =
      let (fine, done) = if_throws_lem (at_least min max) none h in
      ([], min, max, refl, fine, omega arith, tt)
  verify_range-IsRange (def_value ∷ min ∷ max ∷ []) h =
      let (fine, done) =
        if_throws_lem (at_least min max || (less def_value min || less max def_value)) none h in
      let (in_order, inside) = or_false (at_least min max) _ fine in
      (
        def_value ∷ [],
        min,
        max,
        refl,
        in_order,
        omega arith,
        (or_false (less def_value min) (less max def_value) inside, tt),
      )
  verify_range-IsRange (a ∷ b ∷ c ∷ d ∷ l) h =
      let (few, done) =
        if_throws_lem (ltb (length (a ∷ b ∷ c ∷ d ∷ l)) 2 || ltb 3 (length (a ∷ b ∷ c ∷ d ∷ l)))
          none h in
      ground arith

  verify_counts_lem :
      (l : List V)
      → verify_counts less at_least is_zero l ≡ none
      → (min : V) × (max : V) × (l ≡ min ∷ max ∷ [])
        × (is_zero min ≡ false)
        × (less max min ≡ false)
  unfolding verify_counts
  verify_counts_lem [] h = absurd cc
  verify_counts_lem (x ∷ []) h = absurd cc
  verify_counts_lem (min ∷ max ∷ []) h =
      let (fine, done) = if_throws_lem (is_zero min || less max min) none h in
      let (a, b) = or_false (is_zero min) (less max min) fine in (min, max, refl, a, b)
  verify_counts_lem (a ∷ b ∷ c ∷ l) h = absurd cc

  pub verified-IsEnum :
      (d : ArgDeclaration) (l : List V)
      → is_enum d.value_type ≡ true
      → verify_arg_typed_val_config less at_least is_zero d l ≡ none
      → (x : V) × (k : List V) × (l ≡ x ∷ k)
  unfolding verify_arg_typed_val_config
  verified-IsEnum d [] is_one h =
      let (no_switch, h1) = if_throws_lem (is_option_switch d.type) _ h in
      let h2 = rw is_one at h1 in absurd cc
  verified-IsEnum d (x ∷ k) is_one h = (x, k, refl)

  pub verified-IsRange :
      (d : ArgDeclaration) (l : List V)
      → is_enum d.value_type ≡ false
      → is_ranged d.value_type ≡ true
      → verify_arg_typed_val_config less at_least is_zero d l ≡ none
      → IsRange less at_least l
  unfolding verify_arg_typed_val_config
  verified-IsRange d l no_enum is_one h =
      let (no_switch, h1) = if_throws_lem (is_option_switch d.type) _ h in
      let h2 = rw (no_enum, is_one) at h1 in verify_range-IsRange l h2

  pub verified-IsCount :
      (d : ArgDeclaration) (l : List V)
      → is_enum d.value_type ≡ false
      → is_ranged d.value_type ≡ false
      → is_values_list d.type ≡ true
      → verify_arg_typed_val_config less at_least is_zero d l ≡ none
      → (min : V) × (max : V) × (l ≡ min ∷ max ∷ [])
        × (is_zero min ≡ false)
        × (less max min ≡ false)
  unfolding verify_arg_typed_val_config verify_counts
  verified-IsCount d l no_enum no_range is_list h =
      let (no_switch, h1) = if_throws_lem (is_option_switch d.type) _ h in
      let h2 = rw (no_enum, no_range, is_list) at h1 in verify_counts_lem l h2

pub common-not_option :
    {F : Type 0} (lib : Library F) (d : ArgDeclaration)
    → is_option d.type ≡ false
    → look_for_common_inconsistencies lib d ≡ none
    → (is_ranged d.value_type ≡ false) × (is_enum d.value_type ≡ false)
unfolding look_for_common_inconsistencies
common-not_option lib d no_option h =
    let (described, h1) = if_throws_lem (is_null_or_empty d.description) _ h in
    let (labelled, h2) =
      if_throws_lem
        (is_option d.type && (is_null_or_empty d.opt_name && not (lib.is_alnum d.opt_char))) _ h1 in
    let (fine, done) =
      if_throws_lem
        (not (is_option d.type)
          && (not (d.opt_char == 0)
              || (is_null_or_empty d.opt_name || (is_ranged d.value_type || is_enum d.value_type))))
        none h2 in
    let fine' = rw no_option at fine in
    let (a, b) = or_false (not (d.opt_char == 0)) _ fine' in
    let (e, f) = or_false (is_null_or_empty d.opt_name) _ b in
    or_false (is_ranged d.value_type) (is_enum d.value_type) f
