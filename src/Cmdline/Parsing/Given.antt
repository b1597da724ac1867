-- ===== src/Cmdline/Parsing/Given.antt =====
-- Where the parsed values of `Parse` of 3FD/cmdline.cpp come from.
use fd.Base.{
  ℕ, ◌≡◌, refl, ap, sym, ◌∙◌, subst, ◌==◌, ==_iff, ◌⊎◌, inl, inr, Bool, true, false, Option, none,
  some, List, [], ◌∷◌, ◌++◌, ok, Bool-cases, bind_ok, length, map, Run, ◌>>=◌,
}
use fd.Cmdline.Types.{
  Text, ℤ, ArgDeclExtended, ParsedValue, as_integer, pos, Library, Map, find, CommandLineArguments,
  option_switch, ArgValType, no_value, string, integer, float, enum_string, enum_integer,
  range_integer, range_float, is_integer, ArgValCfg, less_integer, integer_eq,
}
use fd.Cmdline.Values.{
  parse_and_validate_value, parse_value, parse_integer, checked, keep_if, integers_of,
  validate_enum_value, validate_ranged_value,
}
use fd.Cmdline.Values.Conforms.{OneOf, keep_if_lem}
use fd.Cmdline.Parsing.{Progress, val_arg, parse_args, finish_parse, commit, parse}
use fd.Cmdline.Parsing.Sound.{Holds, finish_parse-CountFits}
use fd.Cmdline.Parsing.Origins.{parse_args-TakesAll}
use fd.Cmdline.Parsing.Pieces.{Piece, switched, with_text, plain, TakesAll, value_texts, pieces}

append_nil : {A : Type 0} (l : List A) → l ≡ l ++ []
append_nil [] = refl
append_nil (x ∷ l) = ap (λ k. x ∷ k) (append_nil l)

append_one : {A : Type 0} (l k : List A) (x : A) → l ++ x ∷ [] ++ k ≡ l ++ (x ∷ k)
append_one [] k x = refl
append_one (y ∷ l) k x = ap (λ r. y ∷ r) (append_one l k x)

abbrev pub no_progress : {F : Type 0} → Progress F
no_progress = record { parsed_opt_vals = []; parsed_val_args = [] }

-- An integer that was accepted is what `strtoll` reads of the whole text.
checked_integer :
    {F : Type 0} (lib : Library F) (o : Option ℤ) (test : ℤ → Run Bool) (v : ℤ)
    → checked lib as_integer o test ≡ ok (some (as_integer v))
    → o ≡ some v
unfolding checked
checked_integer lib none test v h = absurd cc
checked_integer {F = F} lib (some w) test v h =
    let (fine, run, kept) =
      bind_ok (test w) (λ fine. ok (keep_if fine (as_integer w))) (some (as_integer v)) h in
    let one : ParsedValue F = as_integer w in
    let k : keep_if fine one ≡ some (as_integer v) = cc in
    let (yes_fine, e) = keep_if_lem fine one (as_integer v) k in cc

pub parse_value_integer :
    {F : Type 0} (lib : Library F) (type : ArgValType) (cfg : Option (ArgValCfg F)) (t : Text)
    (v : ℤ)
    → is_integer type ≡ true
    → parse_value lib type cfg t ≡ ok (some (as_integer v))
    → parse_integer lib t ≡ some v
unfolding parse_value
parse_value_integer lib no_value cfg t v is_one h = absurd cc
parse_value_integer lib string cfg t v is_one h = absurd cc
parse_value_integer lib integer cfg t v is_one h =
    checked_integer lib (parse_integer lib t) (λ v. ok true) v h
parse_value_integer lib float cfg t v is_one h = absurd cc
parse_value_integer lib enum_string cfg t v is_one h = absurd cc
parse_value_integer lib enum_integer cfg t v is_one h =
    checked_integer lib (parse_integer lib t)
      (λ v. do l ← integers_of cfg; ok (validate_enum_value integer_eq l v)) v h
parse_value_integer lib range_integer cfg t v is_one h =
    checked_integer lib (parse_integer lib t)
      (λ v. do l ← integers_of cfg; validate_ranged_value less_integer l v) v h
parse_value_integer lib range_float cfg t v is_one h = absurd cc

module _ {F : Type 0} (lib : Library F) (c : CommandLineArguments F) where
  -- The values are those of the texts, one by one.
  abbrev pub ReadFrom : ArgDeclExtended F → List Text → List (ParsedValue F) → Type 0
  ReadFrom e [] [] = Unit
  ReadFrom e (t ∷ ts) (v ∷ vs) =
      (parse_and_validate_value lib e.common e.typed_ext_info t ≡ ok (some v)) × ReadFrom e ts vs
  ReadFrom e [] (v ∷ vs) = ⊥
  ReadFrom e (t ∷ ts) [] = ⊥

  pub TakesAll-values :
      (gs : List Piece) (p q : Progress F) (e : ArgDeclExtended F)
      → val_arg lib c ≡ some e
      → TakesAll lib c gs p q
      → (vs : List (ParsedValue F)) × (q.parsed_val_args ≡ p.parsed_val_args ++ vs)
        × ReadFrom e (value_texts gs) vs
  TakesAll-values [] p q e found h =
      ([], ap (λ p. p.parsed_val_args) h ∙ append_nil p.parsed_val_args, tt)
  TakesAll-values (switched id ∷ gs) p q e found (p', (d, declared, type, becomes), rest) =
      let (vs, same, read) = TakesAll-values gs p' q e found rest in
      (vs, same ∙ ap (λ p. p.parsed_val_args ++ vs) becomes, read)
  TakesAll-values (with_text id t ∷ gs) p q e found (p', (d, pv, declared, run, becomes), rest) =
      let (vs, same, read) = TakesAll-values gs p' q e found rest in
      (vs, same ∙ ap (λ p. p.parsed_val_args ++ vs) becomes, read)
  TakesAll-values (plain t ∷ gs) p q e found (p', (d, pv, declared, run, becomes), rest) =
      let (vs, same, read) = TakesAll-values gs p' q e found rest in
      let d_e : d ≡ e = cc in
      (
        pv ∷ vs,
        same ∙ ap (λ p. p.parsed_val_args ++ vs) becomes ∙ append_one p.parsed_val_args vs pv,
        (
          subst (λ d. parse_and_validate_value lib d.common d.typed_ext_info t ≡ ok (some pv)) d_e
              run,
          read,
        ),
      )

  -- A parsed option is a declared switch, or its value is that of a text that was given for it.
  abbrev pub Origin : List Piece → ℕ → ParsedValue F → Type 0
  Origin gs id pv =
      (e : ArgDeclExtended F) × (find id c.expected_args ≡ some e)
      × ((e.common.type ≡ option_switch)
          ⊎ ((t : Text) × (parse_and_validate_value lib e.common e.typed_ext_info t ≡ ok (some pv))
              × OneOf gs (with_text id t)))

  later_Origin :
      (g : Piece) (gs : List Piece) (id : ℕ) (pv : ParsedValue F)
      → Origin gs id pv
      → Origin (g ∷ gs) id pv
  later_Origin g gs id pv (e, found, inl type) = (e, found, inl type)
  later_Origin g gs id pv (e, found, inr (t, run, one)) = (e, found, inr (t, run, inr one))

  -- The option that was put last, or one that was there before.
  put_last :
      (id j : ℕ) (m : Map ℕ (ParsedValue F)) (v pv : ParsedValue F)
      → find id ((j, v) ∷ m) ≡ some pv
      → (find id m ≡ some pv) ⊎ ((j ≡ id) × (v ≡ pv))
  unfolding find
  put_last id j m v pv h = elim (Bool-cases (id == j)) [
    | inl here ↦ let h' = rw here at h in inr (sym ((==_iff id j).0 here), cc)
    | inr there ↦ let h' = rw there at h in inl h'
  ]

  pub TakesAll-options :
      (gs : List Piece) (p q : Progress F) (id : ℕ) (pv : ParsedValue F)
      → TakesAll lib c gs p q
      → find id q.parsed_opt_vals ≡ some pv
      → (find id p.parsed_opt_vals ≡ some pv) ⊎ Origin gs id pv
  TakesAll-options [] p q id pv h given = inl (sym (ap (λ p. find id p.parsed_opt_vals) h) ∙ given)
  TakesAll-options (switched j ∷ gs) p q id pv (p', (e, declared, type, becomes), rest) given =
      elim (TakesAll-options gs p' q id pv rest given) [
        | inr later ↦ inr (later_Origin (switched j) gs id pv later)
        | inl before ↦
            let put = sym (ap (λ p. find id p.parsed_opt_vals) becomes) ∙ before in
            elim (put_last id j p.parsed_opt_vals (as_integer (pos 0)) pv put) [
              | inl old ↦ inl old
              | inr (here, same) ↦
                  inr (e, subst (λ j. find j c.expected_args ≡ some e) here declared, inl type)
            ]
      ]
  TakesAll-options (with_text j t ∷ gs) p q id pv (p', (e, v, declared, run, becomes), rest) given =
      elim (TakesAll-options gs p' q id pv rest given) [
        | inr later ↦ inr (later_Origin (with_text j t) gs id pv later)
        | inl before ↦
            let put = sym (ap (λ p. find id p.parsed_opt_vals) becomes) ∙ before in
            elim (put_last id j p.parsed_opt_vals v pv put) [
              | inl old ↦ inl old
              | inr (here, same) ↦ inr (
                e,
                subst (λ j. find j c.expected_args ≡ some e) here declared,
                inr (t, run ∙ ap (λ v. ok (some v)) same, inl (ap (λ j. with_text j t) here)),
              )
            ]
      ]
  TakesAll-options (plain t ∷ gs) p q id pv (p', (e, v, declared, run, becomes), rest) given =
      elim (TakesAll-options gs p' q id pv rest given) [
        | inr later ↦ inr (later_Origin (plain t) gs id pv later)
        | inl before ↦ inl (sym (ap (λ p. find id p.parsed_opt_vals) becomes) ∙ before)
      ]

  -- An accepted run keeps what the loop has collected.
  commit_lem :
      (p q : Option (Progress F)) (c' : CommandLineArguments F)
      → finish_parse lib c p ≡ ok q
      → commit lib c q ≡ (true, c')
      → (r : Progress F) × (p ≡ some r) × Holds lib c r c'
  unfolding finish_parse
  commit_lem p none c' h e = let no_way : false ≡ true = ap (λ x. x.0) e in absurd cc
  commit_lem none (some r) c' h e = absurd cc
  commit_lem (some p) (some r) c' h e =
      let (same, counted) = finish_parse-CountFits lib c p r h in
      (r, ap some (sym same), sym (ap (λ x. x.1) e))

  -- What an accepted `Parse` leaves comes from the pieces of the arguments.
  pub parse-TakesAll :
      (arguments : List Text) (c' : CommandLineArguments F)
      → parse lib c arguments ≡ ok (true, c')
      → (p : Progress F) × Holds lib c p c'
        × TakesAll lib c (pieces lib c none arguments) no_progress p
  unfolding parse
  parse-TakesAll arguments c' h =
      let (p, run, h') =
        bind_ok (parse_args lib c (length arguments) arguments no_progress)
          (λ p. do q ← finish_parse lib c p; ok (commit lib c q)) (true, c') h in
      let (q, finished, e) =
        bind_ok (finish_parse lib c p) (λ q. ok (commit lib c q)) (true, c') h' in
      let same : commit lib c q ≡ (true, c') = cc in
      let (r, is, holds) = commit_lem p q c' finished same in
      (
        r,
        holds,
        parse_args-TakesAll lib c (length arguments) arguments no_progress r (run ∙ ap ok is),
      )

  -- The integers that texts are read as.
  pub ReadFrom-integers :
      (e : ArgDeclExtended F) (ts : List Text) (l : List ℤ)
      → is_integer e.common.value_type ≡ true
      → ReadFrom e ts (map as_integer l)
      → map (parse_integer lib) ts ≡ map some l
  unfolding parse_and_validate_value
  ReadFrom-integers e [] [] is_one read = refl
  ReadFrom-integers e [] (v ∷ l) is_one read = absurd read
  ReadFrom-integers e (t ∷ ts) [] is_one read = absurd read
  ReadFrom-integers e (t ∷ ts) (v ∷ l) is_one (run, read) =
      let first = parse_value_integer lib e.common.value_type e.typed_ext_info t v is_one run in
      let rest = ReadFrom-integers e ts l is_one read in rw (first) (ap (λ k. some v ∷ k) rest)
