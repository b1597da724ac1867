-- ===== src/Cmdline/Retrieval/Present.antt =====
-- The getters of 3FD/cmdline.cpp, called after `Parse` has accepted the arguments.
use fd.Base.{
  ℕ, suc, ◌≡◌, ◌≤◌, ◌⊎◌, inl, inr, refl, ap, sym, ◌∙◌, subst, ltb, Bool, true, false, Option, none,
  some, List, [], ◌∷◌, length, map, All, ok,
}
use fd.Cmdline.Types.{
  Text, ℤ, option_switch, option_with_req_value, values_list, is_values_list, ArgValType, no_value,
  string, integer, float, enum_string, enum_integer, range_integer, range_float, is_integer,
  ArgDeclExtended, ParsedValue, as_integer, ArgValCfg, counts, Library, find, CommandLineArguments,
}
use fd.Cmdline.Values.{parse_and_validate_value, parse_integer}
use fd.Cmdline.Values.Conforms.{OneOf, Conforms, parse_value-Conforms}
use fd.Cmdline.Parsing.{Progress, val_arg, parse}
use fd.Cmdline.Parsing.Steps.{ValueFits, IsParsed}
use fd.Cmdline.Parsing.Pieces.{Piece, with_text, pieces, value_texts, TakesAll}
use fd.Cmdline.Parsing.Given.{
  no_progress, parse-TakesAll, TakesAll-values, TakesAll-options, ReadFrom, ReadFrom-integers,
  parse_value_integer,
}
use fd.Cmdline.Parsing.Sound.{CountFits, Parsed, Holds, parse-Parsed}
use fd.Cmdline.Retrieval.{
  read_integer, is_value_arg, option_value, value_or_option, get_declared, get_arg_value_integer,
  read_all, list_declared, list_of, get_arg_list_of_integers,
}

module _ {F : Type 0} (lib : Library F) where
  -- A value that conforms to a declared type with the bit of integers is an integer.
  integer_member :
      (t : ArgValType) (cfg : Option (ArgValCfg F)) (pv : ParsedValue F)
      → is_integer t ≡ true
      → Conforms lib t cfg pv
      → (v : ℤ) × (pv ≡ as_integer v)
  integer_member no_value cfg pv is_one fits = absurd fits
  integer_member string cfg pv is_one fits = absurd cc
  integer_member integer cfg pv is_one fits = fits
  integer_member float cfg pv is_one fits = absurd cc
  integer_member enum_string cfg pv is_one fits = absurd cc
  integer_member enum_integer cfg pv is_one fits = (fits.0, fits.1)
  integer_member range_integer cfg pv is_one fits = (fits.0, fits.1)
  integer_member range_float cfg pv is_one fits = absurd cc

  -- The getter, when the option was given and its value is an integer.
  given_integer :
      (c : CommandLineArguments F) (id : ℕ) (e : ArgDeclExtended F) (v : ℤ) (is_present : Bool)
      → find id c.expected_args ≡ some e
      → is_integer e.common.value_type ≡ true
      → e.common.type ≡ option_with_req_value
      → is_value_arg c.id_value_type_arg id ≡ false
      → find id c.parsed_opt_vals ≡ some (as_integer v)
      → get_arg_value_integer lib c id is_present ≡ ok (v, true)
  unfolding get_arg_value_integer get_declared value_or_option option_value
  given_integer c id e v is_present declared is_one with_value not_value given =
      rw (declared, is_one, with_value, not_value, given) refl

  -- The values of a list of values, when all are integers.
  list_of_integers :
      (c : CommandLineArguments F) (id : Option ℕ) (e : ArgDeclExtended F) (l : List ℤ)
      → elim id [ none ↦ none | some i ↦ find i c.expected_args ] ≡ some e
      → is_integer e.common.value_type ≡ true
      → read_all lib c read_integer c.parsed_val_args ≡ ok l
      → list_of lib c is_integer read_integer id ≡ ok (l, ltb 0 (length c.parsed_val_args))
  unfolding list_of list_declared
  list_of_integers c none e l declared is_one read = absurd cc
  list_of_integers c (some i) e l declared is_one read = rw (declared, is_one, read) refl

  -- The integers of values that conform to a type with the bit of integers.
  read_integers :
      (c : CommandLineArguments F) (t : ArgValType) (cfg : Option (ArgValCfg F))
      (vs : List (ParsedValue F))
      → is_integer t ≡ true
      → All (Conforms lib t cfg) vs
      → (l : List ℤ) × (read_all lib c read_integer vs ≡ ok l)
        × (length l ≡ length vs)
        × (vs ≡ map as_integer l)
  unfolding read_all
  read_integers c t cfg [] is_one fits = ([], refl, refl, refl)
  read_integers c t cfg (pv ∷ vs) is_one fits =
      let (v, is_v) = integer_member t cfg pv is_one fits.0 in
      let (l, read, same, all) = read_integers c t cfg vs is_one fits.1 in
      (v ∷ l, rw (is_v, read) refl, ap suc same, rw (is_v, all) refl)

  module _ (c : CommandLineArguments F) where
    -- The text of an option that is no switch.
    text_of_option :
        (gs : List Piece) (p : Progress F) (id : ℕ) (e : ArgDeclExtended F) (pv : ParsedValue F)
        → find id c.expected_args ≡ some e
        → e.common.type ≡ option_with_req_value
        → TakesAll lib c gs no_progress p
        → find id p.parsed_opt_vals ≡ some pv
        → (e' : ArgDeclExtended F) × (t : Text) × (find id c.expected_args ≡ some e')
          × (parse_and_validate_value lib e'.common e'.typed_ext_info t ≡ ok (some pv))
          × OneOf gs (with_text id t)
    unfolding find
    text_of_option gs p id e pv declared with_value takes given =
        elim (TakesAll-options lib c gs no_progress p id pv takes given) [
          | inl nowhere ↦ absurd cc
          | inr (e', declared', inl switch) ↦
              let same : e' ≡ e = cc in
              let switch' = subst (λ d. d.common.type ≡ option_switch) same switch in absurd cc
          | inr (e', declared', inr (t, run, one)) ↦ (e', t, declared', run, one)
        ]

    accepted :
        (c' : CommandLineArguments F)
        → Parsed lib c true c'
        → (p : Progress F) × Holds lib c p c' × IsParsed lib c p × CountFits lib c p
    accepted c' (inl (refused, same)) = absurd cc
    accepted c' (inr (okay, r)) = r

    -- After `Parse` has accepted, `GetArgValueInteger` of an option with an integer value that was
    -- given sets `isPresent` and returns what `strtoll` reads of the whole of a text that the
    -- arguments have for the option, behind its label or, when blanks separate, in the argument after
    -- it; and the integer lies in the range or set of its declaration.
    pub get_arg_value_integer-Conforms :
        (arguments : List Text) (c' : CommandLineArguments F) (id : ℕ) (e : ArgDeclExtended F)
        (pv : ParsedValue F) (is_present : Bool)
        → parse lib c arguments ≡ ok (true, c')
        → find id c.expected_args ≡ some e
        → e.common.type ≡ option_with_req_value
        → is_integer e.common.value_type ≡ true
        → is_value_arg c.id_value_type_arg id ≡ false
        → find id c'.parsed_opt_vals ≡ some pv
        → (v : ℤ) × (t : Text) × (get_arg_value_integer lib c' id is_present ≡ ok (v, true))
          × OneOf (pieces lib c none arguments) (with_text id t)
          × (parse_integer lib t ≡ some v)
          × Conforms lib e.common.value_type e.typed_ext_info (as_integer v)
    unfolding parse_and_validate_value
    get_arg_value_integer-Conforms arguments c' id e pv is_present h declared with_value is_one
          not_value given =
        let (p, holds, takes) = parse-TakesAll lib c arguments c' h in
        let given' : find id p.parsed_opt_vals ≡ some pv =
          sym (ap (λ d. find id d.parsed_opt_vals) holds) ∙ given in
        let (e', t, declared', run, one) =
          text_of_option (pieces lib c none arguments) p id e pv declared with_value takes given' in
        let same : e' ≡ e = cc in
        let run' =
          subst (λ d. parse_and_validate_value lib d.common d.typed_ext_info t ≡ ok (some pv)) same
            run in
        let conforms = parse_value-Conforms lib e.common.value_type e.typed_ext_info t pv run' in
        let (v, is_v) = integer_member e.common.value_type e.typed_ext_info pv is_one conforms in
        (
          v,
          t,
          given_integer c' id e v is_present (ap (λ d. find id d.expected_args) holds ∙ declared)
              is_one with_value (ap (λ d. is_value_arg d.id_value_type_arg id) holds ∙ not_value)
              (given ∙ ap some is_v),
          one,
          parse_value_integer lib e.common.value_type e.typed_ext_info t v is_one
              (run' ∙ ap (λ v. ok (some v)) is_v),
          subst (Conforms lib e.common.value_type e.typed_ext_info) is_v conforms,
        )

    conform-All :
        (e : ArgDeclExtended F) (vs : List (ParsedValue F))
        → val_arg lib c ≡ some e
        → All (ValueFits lib c) vs
        → All (Conforms lib e.common.value_type e.typed_ext_info) vs
    conform-All e [] found fits = tt
    conform-All e (v ∷ vs) found fits =
        let (e', found', conforms) = fits.0 in
        let same : e' ≡ e = cc in
        (
          subst (λ d. Conforms lib d.common.value_type d.typed_ext_info v) same conforms,
          conform-All e vs found fits.1,
        )

    -- After `Parse` has accepted, `GetArgListOfValues` for integers returns, when integers are
    -- declared for the list of values, what `strtoll` reads of the whole of every argument that is
    -- neither an option nor the value of one, in order. The list is empty or as long as declared,
    -- and the Boolean result says whether it has any.
    pub get_arg_list_of_integers-Given :
        (arguments : List Text) (c' : CommandLineArguments F) (e : ArgDeclExtended F)
        → parse lib c arguments ≡ ok (true, c')
        → val_arg lib c ≡ some e
        → e.common.type ≡ values_list
        → is_integer e.common.value_type ≡ true
        → (l : List ℤ) × (get_arg_list_of_integers lib c' ≡ ok (l, ltb 0 (length l)))
          × (map (parse_integer lib) (value_texts (pieces lib c none arguments)) ≡ map some l)
          × ((length l ≡ 0)
              ⊎ ((min : ℕ) × (max : ℕ) × (k : List ℕ) × (e.typed_ext_info
                    ≡ some (counts (min ∷ max ∷ k)))
                  × (min ≤ length l)
                  × (length l ≤ max)))
    unfolding get_arg_list_of_integers val_arg
    get_arg_list_of_integers-Given arguments c' e h found many is_one =
        let (p, holds, fits, counted) = accepted c' (parse-Parsed lib c arguments true c' h) in
        let (l, read, same, all) =
          read_integers c' e.common.value_type e.typed_ext_info c'.parsed_val_args is_one (
            subst (λ d. All (Conforms lib e.common.value_type e.typed_ext_info) d.parsed_val_args)
              (sym holds) (conform-All e p.parsed_val_args found fits.values)) in
        let (p', holds', takes) = parse-TakesAll lib c arguments c' h in
        let (vs, collected, from) =
          TakesAll-values lib c (pieces lib c none arguments) no_progress p' e found takes in
        let vs_l : vs ≡ map as_integer l =
          sym collected ∙ sym (ap (λ d. d.parsed_val_args) holds') ∙ all in
        let texts =
          subst (ReadFrom lib c e (value_texts (pieces lib c none arguments))) vs_l from in
        let as_many : length l ≡ length p.parsed_val_args =
          same ∙ ap (λ d. length d.parsed_val_args) holds in
        let is_list : is_values_list e.common.type ≡ true = rw (many) refl in
        let Fits : ℕ → Type 0 = λ n.
          (n ≡ 0)
          ⊎ ((min : ℕ) × (max : ℕ) × (k : List ℕ) × (e.typed_ext_info
                ≡ some (counts (min ∷ max ∷ k)))
              × (min ≤ n)
              × (n ≤ max)) in
        let got =
          list_of_integers c' c'.id_value_type_arg e l
            (subst (λ d. val_arg lib d ≡ some e) (sym holds) found) is_one read in
        (
          l,
          got ∙ ap (λ n. ok (l, ltb 0 n)) (sym same),
          ReadFrom-integers lib c e (value_texts (pieces lib c none arguments)) l is_one texts,
          subst Fits (sym as_many) (counted e found is_list),
        )
