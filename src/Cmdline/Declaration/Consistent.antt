-- ===== src/Cmdline/Declaration/Consistent.antt =====
-- What holds of the declared arguments of 3FD/cmdline.cpp, whichever declarations were tried.
use fd.Base.{
  ℕ, ◌≡◌, subst, ◌<◌, ◌≤◌, refl, sym, Bool, true, false, not, Option, none, some, List, [], ◌∷◌,
  ◌++◌, if◌then◌else◌, length, All, Stop, arith,
}
use fd.Cmdline.Types.{
  ℤ, less_integer, is_option, is_integer, is_float, is_string, is_values_list, ArgValType, no_value,
  string, integer, float, enum_string, enum_integer, range_integer, range_float, ArgDeclaration,
  ArgDeclExtended, ArgValCfg, integers, floats, strings, counts, Library, Map, find, find_name,
  CommandLineArguments,
}
use fd.Cmdline.Declaration.{
  Effect, text_of, add_name_label, validate_name, add_char_label, validate_arg_desc_and_labels,
  insert_declaration, add_declaration, then_add, check_then, set_value_arg,
  add_verified_arg_spec_into_map,
}

-- A range: two bounds, of which the first is not at least the second, behind at most one default,
-- which is neither less than the first nor more than the second.
abbrev pub IsRange : {V : Type 0} → (V → V → Bool) → (V → V → Bool) → List V → Type 0
IsRange {V} less at_least l =
    (front : List V) × (min : V) × (max : V) × (l ≡ front ++ min ∷ max ∷ [])
    × (at_least min max ≡ false)
    × (length front ≤ 1)
    × All (λ x. (less x min ≡ false) × (less max x ≡ false)) front

abbrev pub at_least_integer : ℤ → ℤ → Bool
at_least_integer a b = not (less_integer a b)

module _ {F : Type 0} (lib : Library F) where
  -- The configuration that a type of values needs.
  abbrev pub TypeFits : ArgValType → Option (ArgValCfg F) → Type 0
  TypeFits no_value cfg = Unit
  TypeFits string cfg = Unit
  TypeFits integer cfg = Unit
  TypeFits float cfg = Unit
  TypeFits enum_string cfg = (x : List ℕ) × (l : List (List ℕ)) × (cfg ≡ some (strings (x ∷ l)))
  TypeFits enum_integer cfg = (x : ℤ) × (l : List ℤ) × (cfg ≡ some (integers (x ∷ l)))
  TypeFits range_integer cfg =
      (l : List ℤ) × (cfg ≡ some (integers l)) × IsRange less_integer at_least_integer l
  TypeFits range_float cfg =
      (l : List F) × (cfg ≡ some (floats l)) × IsRange lib.less_float lib.at_least_float l

  -- A list of values needs two counts.
  abbrev pub ListFits : ArgDeclExtended F → Type 0
  ListFits e =
      (min : ℕ) × (max : ℕ) × (e.typed_ext_info ≡ some (counts (min ∷ max ∷ [])))
      × (0 < min)
      × (min ≤ max)

  -- Another configuration has items of the type of the values.
  abbrev pub MemberFits : ArgValType → Option (ArgValCfg F) → Type 0
  MemberFits t none = Unit
  MemberFits t (some (integers l)) = is_integer t ≡ true
  MemberFits t (some (floats l)) = is_float t ≡ true
  MemberFits t (some (strings l)) = is_string t ≡ true
  MemberFits t (some (counts l)) = ⊥

  -- The configuration of an argument is the one that its type needs.
  abbrev pub CfgFits : ArgDeclExtended F → Type 0
  CfgFits e =
      TypeFits e.common.value_type e.typed_ext_info
      × (if is_values_list e.common.type
          then ListFits e
          else MemberFits e.common.value_type e.typed_ext_info)

  -- Every declared argument stands under its id, once, with a configuration that fits.
  abbrev pub AllFit : Map ℕ (ArgDeclExtended F) → Type 0
  AllFit [] = Unit
  AllFit ((id, e) ∷ m) = (e.common.id ≡ id) × CfgFits e × (find id m ≡ none) × AllFit m

  -- What a call leaves is consistent, whether it throws or not.
  abbrev pub Leaves : Effect F → Type 0
  Leaves r = AllFit r.0.expected_args

  -- The registration of the labels does not touch the declarations.
  add_name_label-expected_args :
      (c : CommandLineArguments F) (d : ArgDeclaration) (name : List ℕ) (o : Option ℕ)
      → (add_name_label lib c d name o).0.expected_args ≡ c.expected_args
  unfolding add_name_label
  add_name_label-expected_args c d name (some other) = refl
  add_name_label-expected_args c d name none = ground arith

  validate_name-expected_args :
      (c : CommandLineArguments F) (d : ArgDeclaration)
      → (validate_name lib c d).0.expected_args ≡ c.expected_args
  unfolding validate_name
  validate_name-expected_args c d =
      let named =
        add_name_label-expected_args c d (text_of d.opt_name)
          (find_name (text_of d.opt_name) c.args_by_name_label) in
      ground arith

  add_char_label-expected_args :
      (c : CommandLineArguments F) (d : ArgDeclaration) (o : Option ℕ)
      → (add_char_label lib c d o).0.expected_args ≡ c.expected_args
  unfolding add_char_label
  add_char_label-expected_args c d (some other) = refl
  add_char_label-expected_args c d none =
      validate_name-expected_args
        (record c { args_by_char_label = (d.opt_char, d.id) ∷ c.args_by_char_label }) d

  validate_arg_desc_and_labels-expected_args :
      (c : CommandLineArguments F) (d : ArgDeclaration)
      → (validate_arg_desc_and_labels lib c d).0.expected_args ≡ c.expected_args
  unfolding validate_arg_desc_and_labels
  validate_arg_desc_and_labels-expected_args c d =
      let named = validate_name-expected_args c d in
      let charred = add_char_label-expected_args c d (find d.opt_char c.args_by_char_label) in
      ground arith

  set_value_arg-expected_args :
      (c : CommandLineArguments F) (d : ArgDeclaration) (o : Option ℕ)
      → (set_value_arg lib c d o).0.expected_args ≡ c.expected_args
  unfolding set_value_arg
  set_value_arg-expected_args c d none = refl
  set_value_arg-expected_args c d (some other) = refl

  set_if_value-expected_args :
      (c : CommandLineArguments F) (d : ArgDeclaration)
      → (if is_option d.type
          then (c, none)
          else set_value_arg lib c d c.id_value_type_arg).0.expected_args
        ≡ c.expected_args
  set_if_value-expected_args c d =
      let kept = set_value_arg-expected_args c d c.id_value_type_arg in ground arith

  pub insert_declaration-Leaves :
      (c : CommandLineArguments F) (d : ArgDeclaration) (cfg : Option (ArgValCfg F))
      (o : Option (ArgDeclExtended F))
      → AllFit c.expected_args
      → CfgFits (record { common = d; typed_ext_info = cfg })
      → find d.id c.expected_args ≡ o
      → Leaves (insert_declaration lib c d cfg o)
  unfolding insert_declaration
  insert_declaration-Leaves c d cfg (some other) fit right absent = fit
  insert_declaration-Leaves c d cfg none fit right absent = (refl, right, absent, fit)

  pub then_add-Leaves :
      (r : Effect F) (next : CommandLineArguments F → Effect F)
      → Leaves r
      → ((c : CommandLineArguments F) → AllFit c.expected_args → Leaves (next c))
      → Leaves (then_add lib r next)
  unfolding then_add
  then_add-Leaves (c, none) next fit rest = rest c fit
  then_add-Leaves (c, some e) next fit rest = fit

  pub check_then-Leaves :
      (o : Option Stop) (c : CommandLineArguments F) (next : Effect F)
      → AllFit c.expected_args
      → (o ≡ none → Leaves next)
      → Leaves (check_then lib o c next)
  unfolding check_then
  check_then-Leaves none c next fit rest = rest refl
  check_then-Leaves (some e) c next fit rest = fit

  pub labelled-Leaves :
      (c : CommandLineArguments F) (d : ArgDeclaration)
      → AllFit c.expected_args
      → Leaves (validate_arg_desc_and_labels lib c d)
  labelled-Leaves c d fit = subst AllFit (sym (validate_arg_desc_and_labels-expected_args c d)) fit

  pub add_verified-Leaves :
      (c : CommandLineArguments F) (d : ArgDeclaration) (cfg : ArgValCfg F)
      → AllFit c.expected_args
      → CfgFits (record { common = d; typed_ext_info = some cfg })
      → Leaves (add_verified_arg_spec_into_map lib c d cfg)
  unfolding add_verified_arg_spec_into_map add_declaration
  add_verified-Leaves c d cfg fit right =
      then_add-Leaves (validate_arg_desc_and_labels lib c d)
        (λ c1.
          then_add lib
            (if is_option d.type then (c1, none) else set_value_arg lib c1 d c1.id_value_type_arg)
            λ c2. add_declaration lib c2 d (some cfg))
        (labelled-Leaves c d fit)
        λ c1 fit1.
          then_add-Leaves
            (if is_option d.type then (c1, none) else set_value_arg lib c1 d c1.id_value_type_arg)
            (λ c2. add_declaration lib c2 d (some cfg))
            (subst AllFit (sym (set_if_value-expected_args c1 d)) fit1)
            λ c2 fit2.
              insert_declaration-Leaves c2 d (some cfg) (find d.id c2.expected_args) fit2 right refl
