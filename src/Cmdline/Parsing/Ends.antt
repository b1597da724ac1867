-- ===== src/Cmdline/Parsing/Ends.antt =====
-- How `Parse` of 3FD/cmdline.cpp ends on an object whose declarations are consistent.
use fd.Base.{
  subst, ℕ, zero, suc, ◌≡◌, ◌≤◌, inl, inr, refl, ◌==◌, ltb, Bool, not, ◌&&◌, Option, none, some,
  List, [], ◌∷◌, length, Run, ok, ◌>>=◌, Bool-cases, arith,
}
use fd.Cmdline.Types.{
  Text, ArgType, option_switch, option_with_req_value, single_value, values_list, is_values_list,
  ArgDeclExtended, ParsedValue, as_integer, pos, Library, Match, Map, find, CommandLineArguments,
  ArgValSeparator, new_command_line_arguments,
}
use fd.Cmdline.Values.{parse_and_validate_value, parse_value, keep_if}
use fd.Cmdline.Declaration.Consistent.{CfgFits, AllFit}
use fd.Cmdline.Declaration.Kept.{Call, run_calls, run_calls-AllFit}
use fd.Cmdline.Parsing.{
  Progress, Looks, unknown, option, value, is_space_separator, Next, val_arg, push_value,
  parse_val_arg, put_option, parse_with_value, parse_next, parse_switch, parse_option,
  parse_unrepeated, parse_declared, parse_looking, looks_like, continue, parse_args, is_count_in,
  is_count_right, check_count, finish_parse, commit, parse,
}
use fd.Cmdline.Parsing.Steps.{IsParsed, Keeps, parse_looking-Keeps}
use fd.Cmdline.Values.Ends.{Ends, bind-Ends, if-Ends, parse_value-Ends}

module _ {F : Type 0} (lib : Library F) where
  declared-Fits :
      (id : ℕ) (m : Map ℕ (ArgDeclExtended F)) (e : ArgDeclExtended F)
      → AllFit lib m
      → find id m ≡ some e
      → CfgFits lib e
  unfolding find
  declared-Fits id [] e fit h = absurd cc
  declared-Fits id ((j, d) ∷ m) e fit h = elim (Bool-cases (id == j)) [
    | inl here ↦ let h' = rw here at h in let same : d ≡ e = cc in subst (CfgFits lib) same fit.1
    | inr there ↦ let h' = rw there at h in declared-Fits id m e fit.3 h'
  ]

  module _ (c : CommandLineArguments F) (fit : AllFit lib c.expected_args) where
    val_arg-Fits :
        (id : Option ℕ) (e : ArgDeclExtended F)
        → elim id [ none ↦ none | some i ↦ find i c.expected_args ] ≡ some e
        → CfgFits lib e
    val_arg-Fits none e h = absurd cc
    val_arg-Fits (some i) e h = declared-Fits i c.expected_args e fit h

    parse_with_value-Ends :
        (id : ℕ) (e : ArgDeclExtended F) (o : Option Text) (rest : List Text) (p : Progress F)
        → CfgFits lib e
        → Ends (parse_with_value lib c id e o rest p)
    unfolding parse_with_value parse_and_validate_value
    parse_with_value-Ends id e none rest p right = tt
    parse_with_value-Ends id e (some t) rest p right =
        bind-Ends (parse_value lib e.common.value_type e.typed_ext_info t)
          (λ v. ok (put_option lib c id rest p v))
          (parse_value-Ends lib e.common.value_type e.typed_ext_info t right.0) (λ a run. tt)

    parse_next-Ends :
        (id : ℕ) (e : ArgDeclExtended F) (rest : List Text) (p : Progress F)
        → CfgFits lib e
        → Ends (parse_next lib c id e rest p)
    unfolding parse_next
    parse_next-Ends id e [] p right = tt
    parse_next-Ends id e (arg ∷ rest) p right = parse_with_value-Ends id e (some arg) rest p right

    parse_switch-Ends :
        (id : ℕ) (o : Option Text) (rest : List Text) (p : Progress F)
        → Ends (parse_switch lib c id o rest p)
    unfolding parse_switch
    parse_switch-Ends id none rest p = tt
    parse_switch-Ends id (some t) rest p =
        if-Ends (is_space_separator c.arg_val_separator)
          (ok (put_option lib c id rest p (some (as_integer (pos 0))))) (ok none) tt tt

    parse_option-Ends :
        (t : ArgType) (id : ℕ) (e : ArgDeclExtended F) (m : Match) (rest : List Text)
        (p : Progress F)
        → CfgFits lib e
        → Ends (parse_option lib c t id e m rest p)
    unfolding parse_option
    parse_option-Ends option_switch id e m rest p right = parse_switch-Ends id m.value rest p
    parse_option-Ends option_with_req_value id e m rest p right =
        if-Ends (is_space_separator c.arg_val_separator) (parse_next lib c id e rest p)
          (parse_with_value lib c id e m.value rest p) (parse_next-Ends id e rest p right)
          (parse_with_value-Ends id e m.value rest p right)
    parse_option-Ends single_value id e m rest p right = tt
    parse_option-Ends values_list id e m rest p right = tt

    parse_unrepeated-Ends :
        (id : ℕ) (e : ArgDeclExtended F) (m : Match) (rest : List Text) (p : Progress F)
        (old : Option (ParsedValue F))
        → CfgFits lib e
        → Ends (parse_unrepeated lib c id e m rest p old)
    unfolding parse_unrepeated
    parse_unrepeated-Ends id e m rest p (some v) right = tt
    parse_unrepeated-Ends id e m rest p none right =
        parse_option-Ends e.common.type id e m rest p right

    parse_declared-Ends :
        (id : ℕ) (m : Match) (rest : List Text) (p : Progress F) (o : Option (ArgDeclExtended F))
        → find id c.expected_args ≡ o
        → Ends (parse_declared lib c id m rest p o)
    unfolding parse_declared
    parse_declared-Ends id m rest p none found = tt
    parse_declared-Ends id m rest p (some e) found =
        parse_unrepeated-Ends id e m rest p (find id p.parsed_opt_vals)
          (declared-Fits id c.expected_args e fit found)

    parse_val_arg-Ends :
        (o : Option (ArgDeclExtended F)) (arg : Text) (rest : List Text) (p : Progress F)
        → val_arg lib c ≡ o
        → Ends (parse_val_arg lib c o arg rest p)
    unfolding parse_val_arg parse_and_validate_value val_arg
    parse_val_arg-Ends none arg rest p found = tt
    parse_val_arg-Ends (some e) arg rest p found =
        if-Ends (not (is_values_list e.common.type) && ltb 0 (length p.parsed_val_args)) (ok none)
          (parse_value lib e.common.value_type e.typed_ext_info arg >>= λ v.
            ok (push_value lib c rest p v))
          tt
          (bind-Ends (parse_value lib e.common.value_type e.typed_ext_info arg)
            (λ v. ok (push_value lib c rest p v))
            (parse_value-Ends lib e.common.value_type e.typed_ext_info arg
              (val_arg-Fits c.id_value_type_arg e found).0)
            (λ a run. tt))

    parse_looking-Ends :
        (looks : Looks) (arg : Text) (rest : List Text) (p : Progress F)
        → Ends (parse_looking lib c looks arg rest p)
    unfolding parse_looking
    parse_looking-Ends unknown arg rest p = tt
    parse_looking-Ends (option id m) arg rest p =
        parse_declared-Ends id m rest p (find id c.expected_args) refl
    parse_looking-Ends value arg rest p = parse_val_arg-Ends (val_arg lib c) arg rest p refl

    continue-Ends :
        (go : List Text → Progress F → Run (Option (Progress F))) (n : ℕ)
        → ((rest : List Text) (p : Progress F)
            → IsParsed lib c p
            → length rest ≤ n
            → Ends (go rest p))
        → (rest : List Text) (next : Next lib c) → length rest ≤ n
        → Keeps lib c rest next
        → Ends (continue lib c go next)
    continue-Ends go n post rest none few k = tt
    continue-Ends go n post rest (some (rest', p')) few k =
        let fewer = k.1 in post rest' p' k.0 (omega arith)

    -- The fuel is enough: no argument is read twice.
    parse_args-Ends :
        (n : ℕ) (args : List Text) (p : Progress F)
        → IsParsed lib c p
        → length args ≤ n
        → Ends (parse_args lib c n args p)
    unfolding parse_args
    parse_args-Ends n [] p inv few = tt
    parse_args-Ends zero (arg ∷ rest) p inv few = ground arith
    parse_args-Ends (suc n) (arg ∷ rest) p inv few =
        bind-Ends (parse_looking lib c (looks_like lib c arg) arg rest p)
          (continue lib c (parse_args lib c n))
          (parse_looking-Ends (looks_like lib c arg) arg rest p)
          λ next run.
            continue-Ends (parse_args lib c n) n (parse_args-Ends n) rest next (omega arith)
              (parse_looking-Keeps lib c (looks_like lib c arg) arg rest p next inv run)

    is_count_right-Ends :
        (e : ArgDeclExtended F) (n : ℕ) → CfgFits lib e → Ends (is_count_right lib c e n)
    unfolding is_count_right is_count_in
    is_count_right-Ends e n right = elim (Bool-cases (is_values_list e.common.type)) [
      | inl is_list ↦
          let (min, max, cfg, some_min, in_order) = rw is_list at right.1 in rw (is_list, cfg) tt
      | inr no_list ↦ rw (no_list) tt
    ]

    check_count-Ends :
        (o : Option (ArgDeclExtended F)) (n : ℕ) → val_arg lib c ≡ o → Ends (check_count lib c o n)
    unfolding check_count is_count_right val_arg
    check_count-Ends none n found = tt
    check_count-Ends (some e) n found =
        is_count_right-Ends e n (val_arg-Fits c.id_value_type_arg e found)

    finish_parse_fitting-Ends : (o : Option (Progress F)) → Ends (finish_parse lib c o)
    unfolding finish_parse
    finish_parse_fitting-Ends none = tt
    finish_parse_fitting-Ends (some p) =
        bind-Ends (check_count lib c (val_arg lib c) (length p.parsed_val_args))
          (λ right. ok (keep_if right p))
          (check_count-Ends (val_arg lib c) (length p.parsed_val_args) refl) (λ a run. tt)

    parse_fitting-Ends : (arguments : List Text) → Ends (parse lib c arguments)
    unfolding parse
    parse_fitting-Ends arguments =
        bind-Ends
          (parse_args lib c (length arguments) arguments
            (record { parsed_opt_vals = []; parsed_val_args = [] }))
          _
          (parse_args-Ends (length arguments) arguments
            (record { parsed_opt_vals = []; parsed_val_args = [] })
            (record { options = tt; values = tt; single = λ e found one. omega arith })
            (omega arith))
          λ p run.
            bind-Ends (finish_parse lib c p) (λ q. ok (commit lib c q))
              (finish_parse_fitting-Ends p) (λ a run. tt)

  -- `Parse`, on an object with any declarations whatever, ends: it returns or it fails an assertion.
  -- It never reads a configuration of another type, or behind the end of one, and never runs out of
  -- the fuel, which is the count of the arguments.
  pub parse-Ends :
      (width : ℕ) (separator : ArgValSeparator) (slash case_sensitive : Bool)
      (calls : List (Call F)) (arguments : List Text)
      → Ends (
          parse lib
            (run_calls lib (new_command_line_arguments width separator slash case_sensitive) calls)
            arguments)
  parse-Ends width separator slash case_sensitive calls arguments =
      parse_fitting-Ends
        (run_calls lib (new_command_line_arguments width separator slash case_sensitive) calls)
        (run_calls-AllFit lib width separator slash case_sensitive calls) arguments
