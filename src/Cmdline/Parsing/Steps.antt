-- ===== src/Cmdline/Parsing/Steps.antt =====
-- The steps of the loop of `Parse` of 3FD/cmdline.cpp.
use fd.Base.{
  ℕ, zero, suc, ◌≡◌, ◌≤◌, inl, inr, refl, ap, ◌∙◌, ltb, false, not, ◌&&◌, Option, none, some, List,
  [], ◌∷◌, ◌++◌, length, length-append, All, Run, ok, Bool-cases, bind_ok, arith,
}
use fd.Cmdline.Types.{
  Text, ArgType, option_switch, option_with_req_value, single_value, values_list, is_values_list,
  ArgDeclExtended, ParsedValue, as_integer, pos, Library, Match, Map, find, CommandLineArguments,
}
use fd.Cmdline.Values.{parse_and_validate_value}
use fd.Cmdline.Values.Conforms.{Conforms, parse_value-Conforms}
use fd.Cmdline.Parsing.{
  Progress, Looks, unknown, option, value, is_space_separator, Next, val_arg, push_value,
  parse_val_arg, put_option, parse_with_value, parse_next, parse_switch, parse_option,
  parse_unrepeated, parse_declared, parse_looking, looks_like, continue, parse_args,
}

-- An option of a type has a value that it may have.
abbrev pub FitsType :
    {F : Type 0} → Library F → ArgDeclExtended F → ArgType → ParsedValue F → Type 0
FitsType lib e option_switch v = v ≡ as_integer (pos 0)
FitsType lib e option_with_req_value v = Conforms lib e.common.value_type e.typed_ext_info v
FitsType lib e single_value v = ⊥
FitsType lib e values_list v = ⊥

module _ {F : Type 0} (lib : Library F) (c : CommandLineArguments F) where
  -- The option is declared, and the value is right for it.
  abbrev pub OptionFits : ℕ → ParsedValue F → Type 0
  OptionFits id v =
      (e : ArgDeclExtended F) × (find id c.expected_args ≡ some e) × FitsType lib e e.common.type v

  -- All the options fit, and no id appears twice.
  abbrev pub OptionsFit : Map ℕ (ParsedValue F) → Type 0
  OptionsFit [] = Unit
  OptionsFit ((id, v) ∷ m) = OptionFits id v × (find id m ≡ none) × OptionsFit m

  -- The value conforms to the declared argument for values.
  abbrev pub ValueFits : ParsedValue F → Type 0
  ValueFits v =
      (e : ArgDeclExtended F) × (val_arg lib c ≡ some e)
      × Conforms lib e.common.value_type e.typed_ext_info v

  pub record IsParsed (p : Progress F) : Type 0 where
    pub options : OptionsFit p.parsed_opt_vals
    pub values : All ValueFits p.parsed_val_args
    pub single :
        (e : ArgDeclExtended F)
        → val_arg lib c ≡ some e
        → is_values_list e.common.type ≡ false
        → length p.parsed_val_args ≤ 1

  All-append :
      (vs ws : List (ParsedValue F))
      → All ValueFits vs
      → All ValueFits ws
      → All ValueFits (vs ++ ws)
  All-append [] ws a b = b
  All-append (v ∷ vs) ws a b = (a.0, All-append vs ws a.1 b)

  -- What a step of the loop gives: the invariant, and no more arguments than there were.
  abbrev pub Keeps : List Text → Next lib c → Type 0
  Keeps rest none = Unit
  Keeps rest (some (rest', p')) = IsParsed p' × (length rest' ≤ length rest)

  put_option-Keeps :
      (id : ℕ) (rest0 rest : List Text) (p : Progress F) (v : Option (ParsedValue F))
      → IsParsed p
      → ((pv : ParsedValue F) → v ≡ some pv → OptionFits id pv)
      → find id p.parsed_opt_vals ≡ none
      → length rest ≤ length rest0
      → Keeps rest0 (put_option lib c id rest p v)
  unfolding put_option
  put_option-Keeps id rest0 rest p none inv fits fresh le = tt
  put_option-Keeps id rest0 rest p (some v) inv fits fresh le = (
    record {
      options = (fits v refl, fresh, inv.options);
      values = inv.values;
      single = inv.single;
    },
    le,
  )

  push_value-Keeps :
      (rest : List Text) (p : Progress F) (v : Option (ParsedValue F))
      → IsParsed p
      → ((pv : ParsedValue F) → v ≡ some pv → ValueFits pv)
      → ((e : ArgDeclExtended F)
          → val_arg lib c ≡ some e
          → is_values_list e.common.type ≡ false
          → length p.parsed_val_args ≡ 0)
      → Keeps rest (push_value lib c rest p v)
  unfolding push_value
  push_value-Keeps rest p none inv fits empty = tt
  push_value-Keeps rest p (some v) inv fits empty = (
    record {
      options = inv.options;
      values = All-append p.parsed_val_args (v ∷ []) inv.values (fits v refl, tt);
      single = λ e at one. omega (arith, length-append p.parsed_val_args (v ∷ []), empty e at one);
    },
    omega arith,
  )

  module _ (id : ℕ) (e : ArgDeclExtended F) (rest0 : List Text) (p : Progress F) (inv : IsParsed p)
      (found : find id c.expected_args ≡ some e) (fresh : find id p.parsed_opt_vals ≡ none) where
    parse_with_value-Keeps :
        (t : Option Text) (rest : List Text) (next : Next lib c)
        → e.common.type ≡ option_with_req_value
        → length rest ≤ length rest0
        → parse_with_value lib c id e t rest p ≡ ok next
        → Keeps rest0 next
    unfolding parse_with_value parse_and_validate_value
    parse_with_value-Keeps none rest next type le h = let n : next ≡ none = cc in rw (n) tt
    parse_with_value-Keeps (some t) rest next type le h =
        let (v, run, put) =
          bind_ok (parse_and_validate_value lib e.common e.typed_ext_info t)
            (λ v. ok (put_option lib c id rest p v)) next h in
        let n : next ≡ put_option lib c id rest p v = cc in
        let right : (pv : ParsedValue F) → v ≡ some pv → OptionFits id pv = λ pv is. (
          e,
          found,
          rw (type)
              (parse_value-Conforms lib e.common.value_type e.typed_ext_info t pv (run ∙ ap ok is)),
        ) in
        rw (n) (put_option-Keeps id rest0 rest p v inv right fresh le)

    parse_next-Keeps :
        (rest : List Text) (next : Next lib c)
        → e.common.type ≡ option_with_req_value
        → length rest ≤ length rest0
        → parse_next lib c id e rest p ≡ ok next
        → Keeps rest0 next
    unfolding parse_next
    parse_next-Keeps [] next type le h = let n : next ≡ none = cc in rw (n) tt
    parse_next-Keeps (arg ∷ rest) next type le h =
        parse_with_value-Keeps (some arg) rest next type (omega arith) h

    switched :
        e.common.type ≡ option_switch
        → Keeps rest0 (put_option lib c id rest0 p (some (as_integer (pos 0))))
    switched type =
        put_option-Keeps id rest0 rest0 p (some (as_integer (pos 0))) inv
          (λ pv is. (e, found, rw (type) (let same : pv ≡ as_integer (pos 0) = cc in same))) fresh
          (omega arith)

    parse_switch-Keeps :
        (t : Option Text) (next : Next lib c)
        → e.common.type ≡ option_switch
        → parse_switch lib c id t rest0 p ≡ ok next
        → Keeps rest0 next
    unfolding parse_switch
    parse_switch-Keeps none next type h =
        let n : next ≡ put_option lib c id rest0 p (some (as_integer (pos 0))) = cc in
        rw (n) (switched type)
    parse_switch-Keeps (some t) next type h =
        elim (Bool-cases (is_space_separator c.arg_val_separator)) [
          | inl separate ↦
              let h' = rw separate at h in
              let n : next ≡ put_option lib c id rest0 p (some (as_integer (pos 0))) = cc in
              rw (n) (switched type)
          | inr joined ↦ let h' = rw joined at h in let n : next ≡ none = cc in rw (n) tt
        ]

    parse_option-Keeps :
        (m : Match) (type : ArgType) (next : Next lib c)
        → e.common.type ≡ type
        → parse_option lib c type id e m rest0 p ≡ ok next
        → Keeps rest0 next
    unfolding parse_option
    parse_option-Keeps m option_switch next type h = parse_switch-Keeps m.value next type h
    parse_option-Keeps m option_with_req_value next type h =
        elim (Bool-cases (is_space_separator c.arg_val_separator)) [
          | inl separate ↦
              let h' = rw separate at h in parse_next-Keeps rest0 next type (omega arith) h'
          | inr joined ↦
              let h' = rw joined at h in
              parse_with_value-Keeps m.value rest0 next type (omega arith) h'
        ]
    parse_option-Keeps m single_value next type h = absurd cc
    parse_option-Keeps m values_list next type h = absurd cc

  parse_unrepeated-Keeps :
      (id : ℕ) (e : ArgDeclExtended F) (m : Match) (rest : List Text) (p : Progress F)
      (old : Option (ParsedValue F)) (next : Next lib c)
      → IsParsed p
      → find id c.expected_args ≡ some e
      → find id p.parsed_opt_vals ≡ old
      → parse_unrepeated lib c id e m rest p old ≡ ok next
      → Keeps rest next
  unfolding parse_unrepeated
  parse_unrepeated-Keeps id e m rest p (some v) next inv found old h =
      let n : next ≡ none = cc in rw (n) tt
  parse_unrepeated-Keeps id e m rest p none next inv found fresh h =
      parse_option-Keeps id e rest p inv found fresh m e.common.type next refl h

  parse_declared-Keeps :
      (id : ℕ) (m : Match) (rest : List Text) (p : Progress F) (e : Option (ArgDeclExtended F))
      (next : Next lib c)
      → IsParsed p
      → find id c.expected_args ≡ e
      → parse_declared lib c id m rest p e ≡ ok next
      → Keeps rest next
  unfolding parse_declared
  parse_declared-Keeps id m rest p none next inv found h = absurd cc
  parse_declared-Keeps id m rest p (some e) next inv found h =
      parse_unrepeated-Keeps id e m rest p (find id p.parsed_opt_vals) next inv found refl h

  parse_val_arg-Keeps :
      (arg : Text) (rest : List Text) (p : Progress F) (e : Option (ArgDeclExtended F))
      (next : Next lib c)
      → IsParsed p
      → val_arg lib c ≡ e
      → parse_val_arg lib c e arg rest p ≡ ok next
      → Keeps rest next
  unfolding parse_val_arg parse_and_validate_value
  parse_val_arg-Keeps arg rest p none next inv found h = let n : next ≡ none = cc in rw (n) tt
  parse_val_arg-Keeps arg rest p (some e) next inv found h =
      elim (Bool-cases (not (is_values_list e.common.type) && ltb 0 (length p.parsed_val_args))) [
        | inl full ↦ let h' = rw full at h in let n : next ≡ none = cc in rw (n) tt
        | inr room ↦
            let h' = rw room at h in
            let (v, run, put) =
              bind_ok (parse_and_validate_value lib e.common e.typed_ext_info arg)
                (λ v. ok (push_value lib c rest p v)) next h' in
            let n : next ≡ push_value lib c rest p v = cc in
            rw (n) (
              push_value-Keeps rest p v inv
                (λ pv is. (
                  e,
                  found,
                  parse_value-Conforms lib e.common.value_type e.typed_ext_info arg pv
                      (run ∙ ap ok is),
                ))
                (λ e' found' one.
                  let same : e' ≡ e = cc in
                  let one' : is_values_list e.common.type ≡ false = cc in
                  let room' = rw one' at room in ground arith))
      ]

  pub parse_looking-Keeps :
      (looks : Looks) (arg : Text) (rest : List Text) (p : Progress F) (next : Next lib c)
      → IsParsed p
      → parse_looking lib c looks arg rest p ≡ ok next
      → Keeps rest next
  unfolding parse_looking
  parse_looking-Keeps unknown arg rest p next inv h = let n : next ≡ none = cc in rw (n) tt
  parse_looking-Keeps (option id m) arg rest p next inv h =
      parse_declared-Keeps id m rest p (find id c.expected_args) next inv refl h
  parse_looking-Keeps value arg rest p next inv h =
      parse_val_arg-Keeps arg rest p (val_arg lib c) next inv refl h

  continue-IsParsed :
      (go : List Text → Progress F → Run (Option (Progress F)))
      → ((rest : List Text) (p q : Progress F) → IsParsed p → go rest p ≡ ok (some q) → IsParsed q)
      → (rest : List Text) (q : Progress F) (next : Next lib c) → Keeps rest next
      → continue lib c go next ≡ ok (some q)
      → IsParsed q
  continue-IsParsed go post rest q none k h = absurd cc
  continue-IsParsed go post rest q (some (rest', p')) k h = post rest' p' q k.0 h

  pub parse_args-IsParsed :
      (n : ℕ) (args : List Text) (p q : Progress F)
      → IsParsed p
      → parse_args lib c n args p ≡ ok (some q)
      → IsParsed q
  unfolding parse_args
  parse_args-IsParsed n [] p q inv h = let e : q ≡ p = cc in rw (e) inv
  parse_args-IsParsed zero (arg ∷ rest) p q inv h = absurd cc
  parse_args-IsParsed (suc n) (arg ∷ rest) p q inv h =
      let (next, run, more) =
        bind_ok (parse_looking lib c (looks_like lib c arg) arg rest p)
          (continue lib c (parse_args lib c n)) (some q) h in
      continue-IsParsed (parse_args lib c n) (parse_args-IsParsed n) rest q next
        (parse_looking-Keeps (looks_like lib c arg) arg rest p next inv run) more
