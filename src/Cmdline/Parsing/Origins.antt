-- ===== src/Cmdline/Parsing/Origins.antt =====
-- The loop of `Parse` of 3FD/cmdline.cpp reads the pieces of its arguments, all and in order.
use fd.Base.{
  ℕ, zero, suc, ◌≡◌, refl, ap, sym, subst, inl, inr, not, ◌&&◌, ltb, true, false, Option, none,
  some, List, [], ◌∷◌, ◌++◌, ◌∙◌, length, Run, ok, Bool-cases, bind_ok,
}
use fd.Cmdline.Types.{
  Text, ArgType, option_switch, option_with_req_value, single_value, values_list, is_values_list,
  ArgDeclExtended, ParsedValue, as_integer, pos, Library, Match, find, CommandLineArguments,
}
use fd.Cmdline.Values.{parse_and_validate_value}
use fd.Cmdline.Parsing.{
  Progress, Looks, unknown, option, value, is_space_separator, Next, val_arg, push_value,
  parse_val_arg, put_option, parse_with_value, parse_next, parse_switch, parse_option,
  parse_unrepeated, parse_declared, parse_looking, looks_like, continue, parse_args,
}
use fd.Cmdline.Parsing.Pieces.{
  Piece, switched, with_text, plain, pieces_of_type, waiting_of_type, pieces_declared,
  waiting_declared, pieces_of, waiting_of, pieces, with_option, Takes, TakesAll, Advances,
}

module _ {F : Type 0} (lib : Library F) (c : CommandLineArguments F) where
  spaced_pieces :
      (id : ℕ) (t : Option Text)
      → is_space_separator c.arg_val_separator ≡ true
      → pieces_of_type lib c option_with_req_value id t ≡ []
  unfolding pieces_of_type
  spaced_pieces id none separate = refl
  spaced_pieces id (some t) separate = rw (separate) refl

  put_option_lem :
      (id : ℕ) (rest rest' : List Text) (p p' : Progress F) (v : Option (ParsedValue F))
      → put_option lib c id rest p v ≡ some (rest', p')
      → (pv : ParsedValue F) × (v ≡ some pv) × (rest ≡ rest') × (p' ≡ with_option lib c id pv p)
  unfolding put_option
  put_option_lem id rest rest' p p' none h = absurd cc
  put_option_lem id rest rest' p p' (some v) h =
      let e : ◌≡◌ {A = List Text × Progress F} (rest, with_option lib c id v p) (rest', p') = cc in
      (v, refl, ap (λ x. x.0) e, sym (ap (λ x. x.1) e))

  push_value_lem :
      (rest rest' : List Text) (p p' : Progress F) (v : Option (ParsedValue F))
      → push_value lib c rest p v ≡ some (rest', p')
      → (pv : ParsedValue F) × (v ≡ some pv)
        × (rest ≡ rest')
        × (p' ≡ record p { parsed_val_args = p.parsed_val_args ++ pv ∷ [] })
  unfolding push_value
  push_value_lem rest rest' p p' none h = absurd cc
  push_value_lem rest rest' p p' (some v) h =
      let e : ◌≡◌ {A = List Text × Progress F}
          (rest, record p { parsed_val_args = p.parsed_val_args ++ v ∷ [] }) (rest', p') =
        cc in
      (v, refl, ap (λ x. x.0) e, sym (ap (λ x. x.1) e))

  module _ (id : ℕ) (e : ArgDeclExtended F) (p : Progress F) (rest' : List Text) (p' : Progress F)
      (found : find id c.expected_args ≡ some e) where
    parse_with_value_lem :
        (t : Text) (rest : List Text)
        → parse_with_value lib c id e (some t) rest p ≡ ok (some (rest', p'))
        → (rest ≡ rest') × Takes lib c (with_text id t) p p'
    unfolding parse_with_value
    parse_with_value_lem t rest h =
        let (v, run, put) =
          bind_ok (parse_and_validate_value lib e.common e.typed_ext_info t)
            (λ v. ok (put_option lib c id rest p v)) (some (rest', p')) h in
        let put' : put_option lib c id rest p v ≡ some (rest', p') = cc in
        let (pv, is, same, becomes) = put_option_lem id rest rest' p p' v put' in
        (same, (e, pv, found, run ∙ ap ok is, becomes))

    parse_next-Advances :
        (rest : List Text)
        → parse_next lib c id e rest p ≡ ok (some (rest', p'))
        → Advances lib c (pieces lib c (some id) rest) p rest' p'
    unfolding parse_next pieces
    parse_next-Advances [] h = absurd cc
    parse_next-Advances (arg ∷ rest) h =
        let (same, takes) = parse_with_value_lem arg rest h in
        (
          with_text id arg,
          takes,
          ap (λ (r : List Text). with_text id arg ∷ pieces lib c none r) same,
        )

    joined-Advances :
        (t : Option Text) (rest : List Text)
        → is_space_separator c.arg_val_separator ≡ false
        → parse_with_value lib c id e t rest p ≡ ok (some (rest', p'))
        → Advances lib c
            (pieces_of_type lib c option_with_req_value id t ++ pieces lib c none rest)
            p
            rest'
            p'
    unfolding parse_with_value pieces_of_type
    joined-Advances none rest joined h = absurd cc
    joined-Advances (some t) rest joined h =
        let (same, takes) = parse_with_value_lem t rest h in
        rw (joined)
          (with_text id t, takes, ap (λ (r : List Text). with_text id t ∷ pieces lib c none r) same)

    put_switch-Advances :
        (rest : List Text)
        → e.common.type ≡ option_switch
        → put_option lib c id rest p (some (as_integer (pos 0))) ≡ some (rest', p')
        → Advances lib c (switched id ∷ pieces lib c none rest) p rest' p'
    put_switch-Advances rest type h =
        let (pv, is, same, becomes) =
          put_option_lem id rest rest' p p' (some (as_integer (pos 0))) h in
        let zero_put : pv ≡ as_integer (pos 0) = cc in
        (
          switched id,
          (e, found, type, becomes ∙ ap (λ v. with_option lib c id v p) zero_put),
          ap (λ (r : List Text). switched id ∷ pieces lib c none r) same,
        )

    parse_switch-Advances :
        (t : Option Text) (rest : List Text)
        → e.common.type ≡ option_switch
        → parse_switch lib c id t rest p ≡ ok (some (rest', p'))
        → Advances lib c (switched id ∷ pieces lib c none rest) p rest' p'
    unfolding parse_switch
    parse_switch-Advances none rest type h =
        let put : put_option lib c id rest p (some (as_integer (pos 0))) ≡ some (rest', p') = cc in
        put_switch-Advances rest type put
    parse_switch-Advances (some t) rest type h =
        elim (Bool-cases (is_space_separator c.arg_val_separator)) [
          | inl separate ↦
              let h' = rw separate at h in
              let put : put_option lib c id rest p (some (as_integer (pos 0))) ≡ some (rest', p') =
                cc in
              put_switch-Advances rest type put
          | inr joined ↦ let h' = rw joined at h in absurd cc
        ]

    parse_option-Advances :
        (m : Match) (type : ArgType) (rest : List Text)
        → e.common.type ≡ type
        → parse_option lib c type id e m rest p ≡ ok (some (rest', p'))
        → Advances lib c
            (pieces_of_type lib c type id m.value
              ++ pieces lib c (waiting_of_type lib c type id) rest)
            p
            rest'
            p'
    unfolding parse_option pieces_of_type waiting_of_type
    parse_option-Advances m option_switch rest type h = parse_switch-Advances m.value rest type h
    parse_option-Advances m option_with_req_value rest type h =
        elim (Bool-cases (is_space_separator c.arg_val_separator)) [
          | inl separate ↦
              let h' = rw separate at h in
              let no_piece : pieces_of_type lib c option_with_req_value id m.value ≡ [] =
                spaced_pieces id m.value separate in
              rw (no_piece, separate) (parse_next-Advances rest h')
          | inr joined ↦
              let h' = rw joined at h in rw (joined) (joined-Advances m.value rest joined h')
        ]
    parse_option-Advances m single_value rest type h = absurd cc
    parse_option-Advances m values_list rest type h = absurd cc

  parse_unrepeated-Advances :
      (id : ℕ) (e : ArgDeclExtended F) (m : Match) (rest rest' : List Text) (p p' : Progress F)
      (old : Option (ParsedValue F))
      → find id c.expected_args ≡ some e
      → parse_unrepeated lib c id e m rest p old ≡ ok (some (rest', p'))
      → Advances lib c
          (pieces_of_type lib c e.common.type id m.value
            ++ pieces lib c (waiting_of_type lib c e.common.type id) rest)
          p
          rest'
          p'
  unfolding parse_unrepeated
  parse_unrepeated-Advances id e m rest rest' p p' (some v) found h = absurd cc
  parse_unrepeated-Advances id e m rest rest' p p' none found h =
      parse_option-Advances id e p rest' p' found m e.common.type rest refl h

  parse_declared-Advances :
      (id : ℕ) (m : Match) (rest rest' : List Text) (p p' : Progress F)
      (e : Option (ArgDeclExtended F))
      → find id c.expected_args ≡ e
      → parse_declared lib c id m rest p e ≡ ok (some (rest', p'))
      → Advances lib c
          (pieces_declared lib c id m e ++ pieces lib c (waiting_declared lib c id e) rest)
          p
          rest'
          p'
  unfolding parse_declared pieces_declared waiting_declared
  parse_declared-Advances id m rest rest' p p' none found h = absurd cc
  parse_declared-Advances id m rest rest' p p' (some e) found h =
      parse_unrepeated-Advances id e m rest rest' p p' (find id p.parsed_opt_vals) found h

  parse_val_arg-Advances :
      (arg : Text) (rest rest' : List Text) (p p' : Progress F) (e : Option (ArgDeclExtended F))
      → val_arg lib c ≡ e
      → parse_val_arg lib c e arg rest p ≡ ok (some (rest', p'))
      → Advances lib c (plain arg ∷ pieces lib c none rest) p rest' p'
  unfolding parse_val_arg
  parse_val_arg-Advances arg rest rest' p p' none found h = absurd cc
  parse_val_arg-Advances arg rest rest' p p' (some e) found h =
      elim (Bool-cases (not (is_values_list e.common.type) && ltb 0 (length p.parsed_val_args))) [
        | inl full ↦ let h' = rw full at h in absurd cc
        | inr room ↦
            let h' = rw room at h in
            let (v, run, put) =
              bind_ok (parse_and_validate_value lib e.common e.typed_ext_info arg)
                (λ v. ok (push_value lib c rest p v)) (some (rest', p')) h' in
            let put' : push_value lib c rest p v ≡ some (rest', p') = cc in
            let (pv, is, same, becomes) = push_value_lem rest rest' p p' v put' in
            (
              plain arg,
              (e, pv, found, run ∙ ap ok is, becomes),
              ap (λ (r : List Text). plain arg ∷ pieces lib c none r) same,
            )
      ]

  parse_looking-Advances :
      (looks : Looks) (arg : Text) (rest rest' : List Text) (p p' : Progress F)
      → parse_looking lib c looks arg rest p ≡ ok (some (rest', p'))
      → Advances lib c
          (pieces_of lib c looks arg ++ pieces lib c (waiting_of lib c looks) rest)
          p
          rest'
          p'
  unfolding parse_looking pieces_of waiting_of
  parse_looking-Advances unknown arg rest rest' p p' h = absurd cc
  parse_looking-Advances (option id m) arg rest rest' p p' h =
      parse_declared-Advances id m rest rest' p p' (find id c.expected_args) refl h
  parse_looking-Advances value arg rest rest' p p' h =
      parse_val_arg-Advances arg rest rest' p p' (val_arg lib c) refl h

  continue-TakesAll :
      (go : List Text → Progress F → Run (Option (Progress F)))
      → ((rest : List Text) (p q : Progress F)
          → go rest p ≡ ok (some q)
          → TakesAll lib c (pieces lib c none rest) p q)
      → (gs : List Piece) (p q : Progress F) (next : Next lib c)
      → ((rest' : List Text) (p' : Progress F)
          → next ≡ some (rest', p')
          → Advances lib c gs p rest' p')
      → continue lib c go next ≡ ok (some q)
      → TakesAll lib c gs p q
  continue-TakesAll go all gs p q none step h = absurd cc
  continue-TakesAll go all gs p q (some (rest', p')) step h =
      let (g, takes, e) = step rest' p' refl in
      subst (λ gs. TakesAll lib c gs p q) (sym e) (p', takes, all rest' p' q h)

  -- The loop takes the pieces of the arguments, all and in order.
  pub parse_args-TakesAll :
      (n : ℕ) (args : List Text) (p q : Progress F)
      → parse_args lib c n args p ≡ ok (some q)
      → TakesAll lib c (pieces lib c none args) p q
  unfolding parse_args pieces
  parse_args-TakesAll n [] p q h = let e : q ≡ p = cc in e
  parse_args-TakesAll zero (arg ∷ rest) p q h = absurd cc
  parse_args-TakesAll (suc n) (arg ∷ rest) p q h =
      let (next, run, more) =
        bind_ok (parse_looking lib c (looks_like lib c arg) arg rest p)
          (continue lib c (parse_args lib c n)) (some q) h in
      continue-TakesAll (parse_args lib c n) (parse_args-TakesAll n)
        (pieces_of lib c (looks_like lib c arg) arg
          ++ pieces lib c (waiting_of lib c (looks_like lib c arg)) rest)
        p q next
        (λ rest' p' is.
          parse_looking-Advances (looks_like lib c arg) arg rest rest' p p' (run ∙ ap ok is))
        more
