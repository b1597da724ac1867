-- ===== src/Cmdline/Usage/Printed.antt =====
-- What `PrintArgsInfo` of 3FD/cmdline.cpp prints of a configuration that fits its type.
use fd.Base.{
  ℕ, ◌≡◌, ◌≤◌, refl, ap, sym, subst, ◌==◌, Bool, true, false, not, ◌&&◌, Option, none, some, List,
  [], ◌∷◌, ◌++◌, length, Run, ok, stop, ◌>>=◌, Returns, Bool-cases, inl, inr, arith,
}
use fd.Cmdline.Types.{
  Text, integer_eq, text_eq, is_values_list, ArgValType, no_value, string, integer, float,
  enum_string, enum_integer, range_integer, range_float, is_ranged, is_enum, is_integer, is_float,
  is_string, ArgDeclaration, ArgDeclExtended, ArgValCfg, integers, floats, strings, counts, Library,
}
use fd.Cmdline.Declaration.Consistent.{TypeFits, MemberFits, CfgFits}
use fd.Cmdline.Usage.{
  Stream, print_range, print_items, print_counts, print_arg_values_config, print_counts_of,
  print_integers_of, print_floats_of, print_strings_of, print_config, allowed, comma,
}
use fd.Cmdline.Values.Ends.{IsRange-length}

-- The run returns.
abbrev pub Prints : Run Text → Type 0
Prints run = Returns run λ t. Unit

pub bind-Prints :
    {A : Type 0} (r : Run A) (f : A → Run Text)
    → ((a : A) × (r ≡ ok a))
    → ((a : A) → Prints (f a))
    → Prints (r >>= f)
bind-Prints (ok a) f came rest = rest a
bind-Prints (stop e) f came rest = absurd (let r = came.1 in cc)

module _ {V : Type 0} (show : V → Text) (same : V → V → Bool) where
  print_range-Prints : (l : List V) → 2 ≤ length l → Prints (print_range show same l)
  unfolding print_range
  print_range-Prints [] long = ground arith
  print_range-Prints (x ∷ []) long = ground arith
  print_range-Prints (min ∷ max ∷ []) long = (_, refl, tt)
  print_range-Prints (default ∷ min ∷ max ∷ []) long = (_, refl, tt)
  print_range-Prints (a ∷ b ∷ c ∷ d ∷ l) long = (_, refl, tt)

  print_items-Prints : (l : List V) → 1 ≤ length l → Prints (print_items show same l)
  unfolding print_items
  print_items-Prints [] long = ground arith
  print_items-Prints (x ∷ []) long = (_, refl, tt)
  print_items-Prints (x ∷ y ∷ l) long =
      bind-Prints (print_items show same (y ∷ l)) (λ t. ok (show x ++ comma ++ t))
        (let x = print_items-Prints (y ∷ l) (omega arith) in (x.0, x.1)) (λ t. (_, refl, tt))

  print_counts-Prints : (min max : V) (l : List V) → Prints (print_counts show same (min ∷ max ∷ l))
  unfolding print_counts
  print_counts-Prints min max l = elim (Bool-cases (same min max)) [
    | inl e ↦ rw (e) (_, refl, tt)
    | inr e ↦ rw (e) (_, refl, tt)
  ]

  print_plain-Prints :
      (d : ArgDeclaration) (l : List V)
      → (is_ranged d.value_type ≡ true → 2 ≤ length l)
      → (is_enum d.value_type ≡ true → 1 ≤ length l)
      → is_values_list d.type ≡ false
      → Prints (print_arg_values_config show same d l)
  unfolding print_arg_values_config
  print_plain-Prints d l range enum no_list = elim (Bool-cases (is_ranged d.value_type)) [
    | inl is_range ↦ rw (is_range) (print_range-Prints l (range is_range))
    | inr no_range ↦ elim (Bool-cases (is_enum d.value_type)) [
      | inl is_set ↦
          rw (no_range, is_set)
            (bind-Prints (print_items show same l) (λ t. ok (allowed ++ t))
              (let x = print_items-Prints l (enum is_set) in (x.0, x.1)) (λ t. (_, refl, tt)))
      | inr no_set ↦ rw (no_range, no_set, no_list) ([], refl, tt)
    ]
  ]

  print_list-Prints :
      (d : ArgDeclaration) (min max : V)
      → is_ranged d.value_type ≡ false
      → is_enum d.value_type ≡ false
      → is_values_list d.type ≡ true
      → Prints (print_arg_values_config show same d (min ∷ max ∷ []))
  unfolding print_arg_values_config
  print_list-Prints d min max no_range no_set is_list =
      rw (no_range, no_set, is_list) (print_counts-Prints min max [])

abbrev size_of : {F : Type 0} → ArgValCfg F → ℕ
size_of (integers l) = length l
size_of (floats l) = length l
size_of (strings l) = length l
size_of (counts l) = length l

abbrev size_or_0 : {F : Type 0} → Option (ArgValCfg F) → ℕ
size_or_0 none = 0
size_or_0 (some cfg) = size_of cfg

module _ {F : Type 0} (lib : Library F) where
  range-size :
      (t : ArgValType) (cfg : Option (ArgValCfg F))
      → TypeFits lib t cfg
      → is_ranged t ≡ true
      → 2 ≤ size_or_0 cfg
  range-size no_value cfg fits is_one = absurd cc
  range-size string cfg fits is_one = absurd cc
  range-size integer cfg fits is_one = absurd cc
  range-size float cfg fits is_one = absurd cc
  range-size enum_string cfg fits is_one = absurd cc
  range-size enum_integer cfg fits is_one = absurd cc
  range-size range_integer cfg (l, e, range) is_one =
      let n = ap size_or_0 e in let m = IsRange-length _ _ l range in omega arith
  range-size range_float cfg (l, e, range) is_one =
      let n = ap size_or_0 e in let m = IsRange-length _ _ l range in omega arith

  enum-size :
      (t : ArgValType) (cfg : Option (ArgValCfg F))
      → TypeFits lib t cfg
      → is_enum t ≡ true
      → 1 ≤ size_or_0 cfg
  enum-size no_value cfg fits is_one = absurd cc
  enum-size string cfg fits is_one = absurd cc
  enum-size integer cfg fits is_one = absurd cc
  enum-size float cfg fits is_one = absurd cc
  enum-size enum_string cfg (x, l, e) is_one = let n = ap size_or_0 e in omega arith
  enum-size enum_integer cfg (x, l, e) is_one = let n = ap size_or_0 e in omega arith
  enum-size range_integer cfg fits is_one = absurd cc
  enum-size range_float cfg fits is_one = absurd cc

  -- A type with counts is no range and no set.
  counts-plain :
      (t : ArgValType) (l : List ℕ)
      → TypeFits lib t (some (counts l))
      → (is_ranged t ≡ false) × (is_enum t ≡ false)
  counts-plain no_value l fits = (refl, refl)
  counts-plain string l fits = (refl, refl)
  counts-plain integer l fits = (refl, refl)
  counts-plain float l fits = (refl, refl)
  counts-plain enum_string l (x, k, e) = absurd cc
  counts-plain enum_integer l (x, k, e) = absurd cc
  counts-plain range_integer l (k, e, range) = absurd cc
  counts-plain range_float l (k, e, range) = absurd cc

  -- The bits of the types of values exclude each other.
  float-only : (t : ArgValType) → is_float t ≡ true → is_integer t ≡ false
  float-only no_value h = absurd cc
  float-only string h = absurd cc
  float-only integer h = absurd cc
  float-only float h = refl
  float-only enum_string h = absurd cc
  float-only enum_integer h = absurd cc
  float-only range_integer h = absurd cc
  float-only range_float h = refl

  string-only :
      (t : ArgValType) → is_string t ≡ true → (is_integer t ≡ false) × (is_float t ≡ false)
  string-only no_value h = absurd cc
  string-only string h = (refl, refl)
  string-only integer h = absurd cc
  string-only float h = absurd cc
  string-only enum_string h = (refl, refl)
  string-only enum_integer h = absurd cc
  string-only range_integer h = absurd cc
  string-only range_float h = absurd cc

  module _ (stream : Stream F) where
    -- Which of the casts is taken.
    takes_counts :
        (d : ArgDeclaration) (cfg : ArgValCfg F)
        → is_values_list d.type ≡ true
        → print_config lib stream d (some cfg) ≡ print_counts_of lib stream d cfg
    unfolding print_config
    takes_counts d cfg is_list = rw (is_list) refl

    takes_integers :
        (d : ArgDeclaration) (cfg : ArgValCfg F)
        → is_values_list d.type ≡ false
        → is_integer d.value_type ≡ true
        → print_config lib stream d (some cfg) ≡ print_integers_of lib stream d cfg
    unfolding print_config
    takes_integers d cfg no_list is_one = rw (no_list, is_one) refl

    takes_floats :
        (d : ArgDeclaration) (cfg : ArgValCfg F)
        → is_values_list d.type ≡ false
        → is_float d.value_type ≡ true
        → print_config lib stream d (some cfg) ≡ print_floats_of lib stream d cfg
    unfolding print_config
    takes_floats d cfg no_list is_one =
        let no_integer = float-only d.value_type is_one in rw (no_list, no_integer, is_one) refl

    takes_strings :
        (d : ArgDeclaration) (cfg : ArgValCfg F)
        → is_values_list d.type ≡ false
        → is_string d.value_type ≡ true
        → print_config lib stream d (some cfg) ≡ print_strings_of lib stream d cfg
    unfolding print_config
    takes_strings d cfg no_list is_one =
        let (no_integer, no_float) = string-only d.value_type is_one in
        rw (no_list, no_integer, no_float, is_one) refl

    print_member-Prints :
        (d : ArgDeclaration) (cfg : ArgValCfg F)
        → is_values_list d.type ≡ false
        → TypeFits lib d.value_type (some cfg)
        → MemberFits lib d.value_type (some cfg)
        → Prints (print_config lib stream d (some cfg))
    unfolding print_integers_of print_floats_of print_strings_of
    print_member-Prints d (integers l) no_list fits member =
        subst Prints (sym (takes_integers d (integers l) no_list member)) (
          print_plain-Prints stream.show_integer integer_eq d l
            (range-size d.value_type (some (integers l)) fits)
            (enum-size d.value_type (some (integers l)) fits) no_list)
    print_member-Prints d (floats l) no_list fits member =
        subst Prints (sym (takes_floats d (floats l) no_list member)) (
          print_plain-Prints stream.show_float
            (λ a b. not (lib.less_float a b) && not (lib.less_float b a)) d l
            (range-size d.value_type (some (floats l)) fits)
            (enum-size d.value_type (some (floats l)) fits) no_list)
    print_member-Prints d (strings l) no_list fits member =
        subst Prints (sym (takes_strings d (strings l) no_list member)) (
          print_plain-Prints (λ t. t) text_eq d l (range-size d.value_type (some (strings l)) fits)
            (enum-size d.value_type (some (strings l)) fits) no_list)
    print_member-Prints d (counts l) no_list fits member = absurd member

    -- A list of values has two counts, whatever the rest of its declaration is.
    print_two-Prints :
        (d : ArgDeclaration) (cfg : Option (ArgValCfg F)) (min max : ℕ)
        → cfg ≡ some (counts (min ∷ max ∷ []))
        → is_values_list d.type ≡ true
        → TypeFits lib d.value_type cfg
        → Prints (print_config lib stream d cfg)
    unfolding print_counts_of
    print_two-Prints d cfg min max e is_list fits =
        let fits' = subst (TypeFits lib d.value_type) e fits in
        let (no_range, no_set) = counts-plain d.value_type (min ∷ max ∷ []) fits' in
        let printed : Prints (print_counts_of lib stream d (counts (min ∷ max ∷ []))) =
          print_list-Prints stream.show_count (λ a b. a == b) d min max no_range no_set is_list in
        subst (λ o. Prints (print_config lib stream d o)) (sym e)
          (subst Prints (sym (takes_counts d (counts (min ∷ max ∷ [])) is_list)) printed)

    print_unlisted-Prints :
        (d : ArgDeclaration) (cfg : Option (ArgValCfg F))
        → is_values_list d.type ≡ false
        → TypeFits lib d.value_type cfg
        → MemberFits lib d.value_type cfg
        → Prints (print_config lib stream d cfg)
    unfolding print_config
    print_unlisted-Prints d none no_list fits member = ([], refl, tt)
    print_unlisted-Prints d (some cfg) no_list fits member =
        print_member-Prints d cfg no_list fits member

    pub print_config-Prints :
        (e : ArgDeclExtended F)
        → CfgFits lib e
        → Prints (print_config lib stream e.common e.typed_ext_info)
    print_config-Prints e fits = elim (Bool-cases (is_values_list e.common.type)) [
      | inl is_list ↦
          let (min, max, cfg, some_min, in_order) = rw is_list at fits.1 in
          print_two-Prints e.common e.typed_ext_info min max cfg is_list fits.0
      | inr no_list ↦
          let member = rw no_list at fits.1 in
          print_unlisted-Prints e.common e.typed_ext_info no_list fits.0 member
    ]
