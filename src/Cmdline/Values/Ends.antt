-- ===== src/Cmdline/Values/Ends.antt =====
-- How the parsing of a value in 3FD/cmdline.cpp ends.
use fd.Base.{
  ◌+◌, ◌≡◌, ◌≤◌, refl, ap, ◌∙◌, Bool, true, false, Option, none, some, List, [], ◌∷◌, if◌then◌else◌,
  length, length-append, Run, ok, stop, Stop, assertion, ◌>>=◌, arith,
}
use fd.Cmdline.Types.{
  Text, less_integer, integer_eq, ArgValType, no_value, string, integer, float, enum_string,
  enum_integer, range_integer, range_float, ParsedValue, as_integer, as_float, ArgValCfg, Library,
}
use fd.Cmdline.Values.{
  parse_value, parse_integer, parse_float, checked, integers_of, floats_of, strings_of,
  validate_enum_value, validate_ranged_value, keep_if,
}
use fd.Cmdline.Declaration.Consistent.{IsRange, TypeFits}

abbrev pub IsAssertion : Stop → Type 0
IsAssertion assertion = Unit
IsAssertion _ = ⊥

-- A run that returns, or that stops at an assertion.
abbrev pub Ends : {A : Type 0} → Run A → Type 0
Ends (ok a) = Unit
Ends (stop s) = IsAssertion s

pub bind-Ends :
    {A B : Type 0} (r : Run A) (f : A → Run B)
    → Ends r
    → ((a : A) → r ≡ ok a → Ends (f a))
    → Ends (r >>= f)
bind-Ends (ok a) f ends rest = rest a refl
bind-Ends (stop s) f ends rest = ends

pub if-Ends : {A : Type 0} (b : Bool) (x y : Run A) → Ends x → Ends y → Ends (if b then x else y)
if-Ends true x y at_x at_y = at_x
if-Ends false x y at_x at_y = at_y

checked-Ends :
    {F V : Type 0} (lib : Library F) (member : V → ParsedValue F) (o : Option V)
    (test : V → Run Bool)
    → ((v : V) → Ends (test v))
    → Ends (checked lib member o test)
unfolding checked
checked-Ends lib member none test ends = tt
checked-Ends lib member (some v) test ends =
    bind-Ends (test v) (λ fine. ok (keep_if fine (member v))) (ends v) (λ a run. tt)

validate_ranged_value-Ends :
    {V : Type 0} (less : V → V → Bool) (l : List V) (v : V)
    → 2 ≤ length l
    → Ends (validate_ranged_value less l v)
unfolding validate_ranged_value
validate_ranged_value-Ends less [] v long = ground arith
validate_ranged_value-Ends less (x ∷ []) v long = ground arith
validate_ranged_value-Ends less (min ∷ max ∷ []) v long = tt
validate_ranged_value-Ends less (x ∷ min ∷ max ∷ l) v long =
    validate_ranged_value-Ends less (min ∷ max ∷ l) v (omega arith)

pub IsRange-length :
    {V : Type 0} (less at_least : V → V → Bool) (l : List V)
    → IsRange less at_least l
    → 2 ≤ length l
IsRange-length less at_least l (front, min, max, e, in_order, few, inside) =
    let n : length l ≡ length front + 2 = ap length e ∙ length-append front (min ∷ max ∷ []) in
    omega arith

-- The parsing of a value whose type has the configuration that it needs.
pub parse_value-Ends :
    {F : Type 0} (lib : Library F) (t : ArgValType) (cfg : Option (ArgValCfg F)) (s : Text)
    → TypeFits lib t cfg
    → Ends (parse_value lib t cfg s)
unfolding parse_value integers_of floats_of strings_of
parse_value-Ends lib no_value cfg s fit = tt
parse_value-Ends lib string cfg s fit = tt
parse_value-Ends lib integer cfg s fit =
    checked-Ends lib as_integer (parse_integer lib s) (λ v. ok true) (λ v. tt)
parse_value-Ends lib float cfg s fit =
    checked-Ends lib as_float (parse_float lib s) (λ v. ok true) (λ v. tt)
parse_value-Ends lib enum_string cfg s (x, l, e) = rw (e) tt
parse_value-Ends lib enum_integer cfg s (x, l, e) =
    checked-Ends lib as_integer (parse_integer lib s)
      (λ v. integers_of cfg >>= λ l. ok (validate_enum_value integer_eq l v)) (λ v. rw (e) tt)
parse_value-Ends lib range_integer cfg s (l, e, range) =
    checked-Ends lib as_integer (parse_integer lib s)
      (λ v. integers_of cfg >>= λ l. validate_ranged_value less_integer l v)
      (λ v. rw (e) (validate_ranged_value-Ends less_integer l v (IsRange-length _ _ l range)))
parse_value-Ends lib range_float cfg s (l, e, range) =
    checked-Ends lib as_float (parse_float lib s)
      (λ v. floats_of cfg >>= λ l. validate_ranged_value lib.less_float l v)
      (λ v. rw (e) (validate_ranged_value-Ends lib.less_float l v (IsRange-length _ _ l range)))
