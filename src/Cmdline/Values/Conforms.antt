-- ===== src/Cmdline/Values/Conforms.antt =====
-- What a parsed value of 3FD/cmdline.cpp satisfies, by its declaration.
use fd.Base.{
  ◌≡◌, ◌⊎◌, inl, inr, refl, ap, ◌==◌, ==_iff, Bool, true, false, Option, none, some, List, [], ◌∷◌,
  ◌++◌, Run, ok, ◌>>=◌, Bool-cases, and_true, bind_ok,
}
use fd.Cmdline.Types.{
  Text, text_eq, ℤ, pos, negsuc, less_integer, integer_eq, ArgValType, no_value, string, integer,
  float, enum_string, enum_integer, range_integer, range_float, ParsedValue, as_integer, as_float,
  as_string, ArgValCfg, integers, floats, strings, counts, Library,
}
use fd.Cmdline.Values.{
  validate_enum_value, validate_ranged_value, keep_if, integers_of, floats_of, strings_of,
  parse_integer, parse_float, checked, parse_value,
}

pub text_eq_sound : (s t : Text) → text_eq s t ≡ true → s ≡ t
unfolding text_eq
text_eq_sound [] [] h = refl
text_eq_sound [] (d ∷ t) h = absurd cc
text_eq_sound (c ∷ s) [] h = absurd cc
text_eq_sound (c ∷ s) (d ∷ t) h =
    let (same, rest) = and_true (c == d) (text_eq s t) h in
    let e : c ≡ d = (==_iff c d).0 same in let e' = text_eq_sound s t rest in cc

pub integer_eq_sound : (a b : ℤ) → integer_eq a b ≡ true → a ≡ b
unfolding integer_eq
integer_eq_sound (pos a) (pos b) h = ap pos ((==_iff a b).0 h)
integer_eq_sound (pos a) (negsuc b) h = absurd cc
integer_eq_sound (negsuc a) (pos b) h = absurd cc
integer_eq_sound (negsuc a) (negsuc b) h = ap negsuc ((==_iff a b).0 h)

-- The value is one of the list.
abbrev pub OneOf : {V : Type 0} → List V → V → Type 0
OneOf [] v = ⊥
OneOf (e ∷ l) v = (e ≡ v) ⊎ OneOf l v

-- The value lies between the last two items of the list.
abbrev pub Between : {V : Type 0} → (V → V → Bool) → List V → V → Type 0
Between {V} less l v =
    (front : List V) × (min : V) × (max : V) × (l ≡ front ++ min ∷ max ∷ [])
    × (less v min ≡ false)
    × (less max v ≡ false)

validate_enum_value-OneOf :
    {V : Type 0} (eq : V → V → Bool) (sound : (a b : V) → eq a b ≡ true → a ≡ b) (l : List V)
    (v : V)
    → validate_enum_value eq l v ≡ true
    → OneOf l v
unfolding validate_enum_value
validate_enum_value-OneOf eq sound [] v h = absurd cc
validate_enum_value-OneOf eq sound (e ∷ l) v h = elim (Bool-cases (eq e v)) [
  | inl same ↦ inl (sound e v same)
  | inr other ↦ let h' = rw other at h in inr (validate_enum_value-OneOf eq sound l v h')
]

validate_ranged_value-Between :
    {V : Type 0} (less : V → V → Bool) (l : List V) (v : V)
    → validate_ranged_value less l v ≡ ok true
    → Between less l v
unfolding validate_ranged_value
validate_ranged_value-Between less [] v h = absurd cc
validate_ranged_value-Between less (x ∷ []) v h = absurd cc
validate_ranged_value-Between less (min ∷ max ∷ []) v h = elim (Bool-cases (less v min)) [
  | inl low ↦ absurd (let h' = rw low at h in cc)
  | inr not_low ↦ elim (Bool-cases (less max v)) [
    | inl high ↦ absurd (let h' = rw (not_low, high) at h in cc)
    | inr not_high ↦ ([], min, max, refl, not_low, not_high)
  ]
]
validate_ranged_value-Between less (x ∷ min ∷ max ∷ l) v h =
    let (front, low, high, e, a, b) = validate_ranged_value-Between less (min ∷ max ∷ l) v h in
    (x ∷ front, low, high, ap (λ t. x ∷ t) e, a, b)

-- What the declaration of a value promises, by its type and its configuration.
abbrev pub Conforms :
    {F : Type 0} → Library F → ArgValType → Option (ArgValCfg F) → ParsedValue F → Type 0
Conforms lib no_value cfg pv = ⊥
Conforms lib string cfg pv = (t : Text) × (pv ≡ as_string t)
Conforms lib integer cfg pv = (v : ℤ) × (pv ≡ as_integer v)
Conforms {F} lib float cfg pv = (v : F) × (pv ≡ as_float v)
Conforms lib enum_string cfg pv =
    (t : Text) × (pv ≡ as_string t) × ((l : List Text) × (cfg ≡ some (strings l)) × OneOf l t)
Conforms lib enum_integer cfg pv =
    (v : ℤ) × (pv ≡ as_integer v) × ((l : List ℤ) × (cfg ≡ some (integers l)) × OneOf l v)
Conforms lib range_integer cfg pv =
    (v : ℤ) × (pv ≡ as_integer v)
    × ((l : List ℤ) × (cfg ≡ some (integers l)) × Between less_integer l v)
Conforms {F} lib range_float cfg pv =
    (v : F) × (pv ≡ as_float v)
    × ((l : List F) × (cfg ≡ some (floats l)) × Between lib.less_float l v)

pub keep_if_lem : {A : Type 0} (b : Bool) (a x : A) → keep_if b a ≡ some x → (b ≡ true) × (x ≡ a)
keep_if_lem true a x h = (refl, cc)
keep_if_lem false a x h = absurd cc

checked_lem :
    {F V : Type 0} (lib : Library F) (member : V → ParsedValue F) (o : Option V)
    (test : V → Run Bool) (pv : ParsedValue F)
    → checked lib member o test ≡ ok (some pv)
    → (v : V) × (pv ≡ member v) × (test v ≡ ok true)
unfolding checked
checked_lem lib member none test pv h = absurd cc
checked_lem lib member (some v) test pv h =
    let (fine, run, kept) = bind_ok (test v) (λ fine. ok (keep_if fine (member v))) (some pv) h in
    let k : keep_if fine (member v) ≡ some pv = cc in
    let (yes_fine, e) = keep_if_lem fine (member v) pv k in (v, e, cc)

integers_of_lem :
    {F : Type 0} (cfg : Option (ArgValCfg F)) (l : List ℤ)
    → integers_of cfg ≡ ok l
    → cfg ≡ some (integers l)
unfolding integers_of
integers_of_lem none l h = absurd cc
integers_of_lem (some (integers k)) l h = cc
integers_of_lem (some (floats k)) l h = absurd cc
integers_of_lem (some (strings k)) l h = absurd cc
integers_of_lem (some (counts k)) l h = absurd cc

floats_of_lem :
    {F : Type 0} (cfg : Option (ArgValCfg F)) (l : List F)
    → floats_of cfg ≡ ok l
    → cfg ≡ some (floats l)
unfolding floats_of
floats_of_lem none l h = absurd cc
floats_of_lem (some (integers k)) l h = absurd cc
floats_of_lem (some (floats k)) l h = cc
floats_of_lem (some (strings k)) l h = absurd cc
floats_of_lem (some (counts k)) l h = absurd cc

strings_of_lem :
    {F : Type 0} (cfg : Option (ArgValCfg F)) (l : List Text)
    → strings_of cfg ≡ ok l
    → cfg ≡ some (strings l)
unfolding strings_of
strings_of_lem none l h = absurd cc
strings_of_lem (some (integers k)) l h = absurd cc
strings_of_lem (some (floats k)) l h = absurd cc
strings_of_lem (some (strings k)) l h = cc
strings_of_lem (some (counts k)) l h = absurd cc

-- A value that is accepted conforms to its declaration.
pub parse_value-Conforms :
    {F : Type 0} (lib : Library F) (type : ArgValType) (cfg : Option (ArgValCfg F)) (t : Text)
    (pv : ParsedValue F)
    → parse_value lib type cfg t ≡ ok (some pv)
    → Conforms lib type cfg pv
unfolding parse_value
parse_value-Conforms lib no_value cfg t pv h = absurd cc
parse_value-Conforms lib string cfg t pv h = (t, cc)
parse_value-Conforms lib integer cfg t pv h =
    let (v, e, test) = checked_lem lib as_integer (parse_integer lib t) (λ v. ok true) pv h in
    (v, e)
parse_value-Conforms lib float cfg t pv h =
    let (v, e, test) = checked_lem lib as_float (parse_float lib t) (λ v. ok true) pv h in (v, e)
parse_value-Conforms lib enum_string cfg t pv h =
    let (v, e, test) =
      checked_lem lib as_string (some t)
        (λ v. strings_of cfg >>= λ l. ok (validate_enum_value text_eq l v)) pv h in
    let (l, cast, one) =
      bind_ok (strings_of cfg) (λ l. ok (validate_enum_value text_eq l v)) true test in
    let found : validate_enum_value text_eq l v ≡ true = cc in
    (
      v,
      e,
      (l, strings_of_lem cfg l cast, validate_enum_value-OneOf text_eq text_eq_sound l v found),
    )
parse_value-Conforms lib enum_integer cfg t pv h =
    let (v, e, test) =
      checked_lem lib as_integer (parse_integer lib t)
        (λ v. integers_of cfg >>= λ l. ok (validate_enum_value integer_eq l v)) pv h in
    let (l, cast, one) =
      bind_ok (integers_of cfg) (λ l. ok (validate_enum_value integer_eq l v)) true test in
    let found : validate_enum_value integer_eq l v ≡ true = cc in
    (
      v,
      e,
      (
        l,
        integers_of_lem cfg l cast,
        validate_enum_value-OneOf integer_eq integer_eq_sound l v found,
      ),
    )
parse_value-Conforms lib range_integer cfg t pv h =
    let (v, e, test) =
      checked_lem lib as_integer (parse_integer lib t)
        (λ v. integers_of cfg >>= λ l. validate_ranged_value less_integer l v) pv h in
    let (l, cast, in_range) =
      bind_ok (integers_of cfg) (λ l. validate_ranged_value less_integer l v) true test in
    (v, e, (l, integers_of_lem cfg l cast, validate_ranged_value-Between less_integer l v in_range))
parse_value-Conforms lib range_float cfg t pv h =
    let (v, e, test) =
      checked_lem lib as_float (parse_float lib t)
        (λ v. floats_of cfg >>= λ l. validate_ranged_value lib.less_float l v) pv h in
    let (l, cast, in_range) =
      bind_ok (floats_of cfg) (λ l. validate_ranged_value lib.less_float l v) true test in
    (v, e, (l, floats_of_lem cfg l cast, validate_ranged_value-Between lib.less_float l v in_range))
