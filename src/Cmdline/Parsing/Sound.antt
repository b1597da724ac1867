-- ===== src/Cmdline/Parsing/Sound.antt =====
-- What a successful `Parse` of 3FD/cmdline.cpp leaves in the object.
use fd.Base.{
  subst, ℕ, ◌≡◌, ◌≤◌, ◌⊎◌, inl, inr, refl, ap, sym, ◌∙◌, ◌==◌, ==_iff, ltb, Bool, true, false, not,
  ◌||◌, Option, none, some, List, [], ◌∷◌, length, ok, ◌>>=◌, Bool-cases, or_false, not-true,
  bind_ok, arith,
}
use fd.Cmdline.Types.{
  Text, is_values_list, ArgDeclExtended, ArgValCfg, integers, floats, strings, counts, Library,
  CommandLineArguments,
}
use fd.Cmdline.Values.{keep_if}
use fd.Cmdline.Values.Conforms.{keep_if_lem}
use fd.Cmdline.Parsing.{
  Progress, val_arg, parse_args, is_count_in, is_count_right, check_count, finish_parse, commit,
  parse,
}
use fd.Cmdline.Parsing.Steps.{IsParsed, parse_args-IsParsed}

module _ {F : Type 0} (lib : Library F) (c : CommandLineArguments F) where
  -- The items of a list of values are none, or as many as it was declared to have.
  abbrev pub CountFits : Progress F → Type 0
  CountFits p =
      (e : ArgDeclExtended F)
      → val_arg lib c ≡ some e
      → is_values_list e.common.type ≡ true
      → (length p.parsed_val_args ≡ 0)
        ⊎ ((min : ℕ) × (max : ℕ) × (l : List ℕ) × (e.typed_ext_info ≡ some (counts (min ∷ max ∷ l)))
            × (min ≤ length p.parsed_val_args)
            × (length p.parsed_val_args ≤ max))

  is_count_in_lem :
      (cfg : Option (ArgValCfg F)) (n : ℕ)
      → is_count_in lib c cfg n ≡ ok true
      → (n ≡ 0)
        ⊎ ((min : ℕ) × (max : ℕ) × (l : List ℕ) × (cfg ≡ some (counts (min ∷ max ∷ l)))
            × (min ≤ n)
            × (n ≤ max))
  unfolding is_count_in
  is_count_in_lem none n h = absurd cc
  is_count_in_lem (some (integers l)) n h = absurd cc
  is_count_in_lem (some (floats l)) n h = absurd cc
  is_count_in_lem (some (strings l)) n h = absurd cc
  is_count_in_lem (some (counts [])) n h = absurd cc
  is_count_in_lem (some (counts (min ∷ []))) n h = absurd cc
  is_count_in_lem (some (counts (min ∷ max ∷ l))) n h =
      let t : (n == 0 || not (ltb n min || ltb max n)) ≡ true = cc in
      elim (Bool-cases (n == 0)) [
        | inl none_came ↦ inl ((==_iff n 0).0 none_came)
        | inr some_came ↦
            let t' = rw some_came at t in
            let (low, high) = or_false (ltb n min) (ltb max n) (not-true _ t') in
            inr (min, max, l, refl, ground arith, ground arith)
      ]

  pub finish_parse-CountFits :
      (p q : Progress F) → finish_parse lib c (some p) ≡ ok (some q) → (q ≡ p) × CountFits p
  unfolding finish_parse check_count is_count_right
  finish_parse-CountFits p q h =
      let (right, run, kept) =
        bind_ok (check_count lib c (val_arg lib c) (length p.parsed_val_args))
          (λ right. ok (keep_if right p)) (some q) h in
      let k : keep_if right p ≡ some q = cc in
      let (is_right, e) = keep_if_lem right p q k in
      (
        e,
        λ d found many.
            let run' =
              subst (λ o. check_count lib c o (length p.parsed_val_args) ≡ ok true) found
                (run ∙ ap ok is_right) in
            let counted = rw many at run' in
            is_count_in_lem d.typed_ext_info (length p.parsed_val_args) counted,
      )

  -- The parsed collections of `c'` are those of `p`, and the rest is that of `c`.
  abbrev pub Holds : Progress F → CommandLineArguments F → Type 0
  Holds p c' =
      c' ≡ record c { parsed_opt_vals = p.parsed_opt_vals; parsed_val_args = p.parsed_val_args }

  -- What `Parse` may end with.
  abbrev pub Parsed : Bool → CommandLineArguments F → Type 0
  Parsed okay c' =
      ((okay ≡ false) × (c' ≡ c))
      ⊎ ((okay ≡ true) × ((p : Progress F) × Holds p c' × IsParsed lib c p × CountFits p))

  nothing : (q : Option (Progress F)) → finish_parse lib c none ≡ ok q → q ≡ none
  unfolding finish_parse
  nothing q h = cc

  commit-Parsed :
      (p : Option (Progress F)) (q : Option (Progress F))
      → ((r : Progress F) → p ≡ some r → IsParsed lib c r)
      → finish_parse lib c p ≡ ok q
      → Parsed (commit lib c q).0 (commit lib c q).1
  unfolding finish_parse
  commit-Parsed none q inv h =
      subst (λ q. Parsed (commit lib c q).0 (commit lib c q).1) (sym (nothing q h))
        (inl (refl, refl))
  commit-Parsed (some p) none inv h = inl (refl, refl)
  commit-Parsed (some p) (some q) inv h =
      let (same, counted) = finish_parse-CountFits p q h in
      inr (
        refl,
        (
          q,
          refl,
          subst (IsParsed lib c) (sym same) (inv p refl),
          subst CountFits (sym same) counted,
        ),
      )

  -- When `Parse` returns, it either refuses the arguments and leaves the object as it was, or it
  -- accepts them and changes only the parsed collections. Then every parsed option is declared and
  -- appears once, every value of it or of the argument for values has the declared type and lies in
  -- the declared range or set, a single value comes at most once, and the items of a list of values
  -- are none or as many as declared.
  pub parse-Parsed :
      (arguments : List Text) (okay : Bool) (c' : CommandLineArguments F)
      → parse lib c arguments ≡ ok (okay, c')
      → Parsed okay c'
  unfolding parse
  parse-Parsed arguments okay c' h =
      let (p, run, h') =
        bind_ok
          (parse_args lib c (length arguments) arguments
            (record { parsed_opt_vals = []; parsed_val_args = [] }))
          (λ p. do q ← finish_parse lib c p; ok (commit lib c q)) (okay, c') h in
      let (q, finished, e) =
        bind_ok (finish_parse lib c p) (λ q. ok (commit lib c q)) (okay, c') h' in
      let r =
        commit-Parsed p q
          (λ r is.
            parse_args-IsParsed lib c (length arguments) arguments
              (record { parsed_opt_vals = []; parsed_val_args = [] }) r
              (record { options = tt; values = tt; single = λ e found one. omega arith })
              (run ∙ ap ok is))
          finished in
      let same : commit lib c q ≡ (okay, c') = cc in subst (λ x. Parsed x.0 x.1) same r
