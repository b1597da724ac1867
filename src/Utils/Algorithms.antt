-- ===== src/Utils/Algorithms.antt =====
-- 3FD/utils_algorithms.h: the binary searches, over the keys of the entries. An iterator is an
-- index, and `lessThan` the order of the numbers.
pub mod Halving
pub mod Range
mod Examples
use fd.Base.{
  ℕ, zero, suc, ◌+◌, ◌-◌, ◌/◌, Bool, true, false, List, Run, ok, stop, no_return, ◌>>=◌, ltb, ◌==◌,
  if◌then◌else◌, get_or,
}

-- What a search returns, and what it leaves in its parameters `begin` and `end`.
pub record Found : Type 0 where
  pub result : ℕ
  pub begin : ℕ
  pub end : ℕ

abbrev pub found_at : ℕ → ℕ → ℕ → Found
found_at result begin end = record { result = result; begin = begin; end = end }

abbrev pub middle_of : ℕ → ℕ → ℕ
middle_of begin end = begin + (end - begin) / 2

-- The loop by halves. The fuel bounds the length of the range.
unfoldable pub bisect : ℕ → List ℕ → ℕ → ℕ → ℕ → Run Found
bisect zero keys search_key begin end =
    if begin == end then ok (found_at begin begin end) else stop no_return
bisect (suc n) keys search_key begin end = elim (begin == end) [
  | true ↦ ok (found_at begin begin end)
  | false ↦ elim (ltb (get_or keys (middle_of begin end) 0) search_key) [
    | true ↦ bisect n keys search_key (middle_of begin end + 1) end
    | false ↦ elim (ltb search_key (get_or keys (middle_of begin end) 0)) [
      | true ↦ bisect n keys search_key begin (middle_of begin end)
      | false ↦ ok (found_at (middle_of begin end) begin end)
    ]
  ]
]

-- The loop over a small range.
unfoldable pub scan : ℕ → List ℕ → ℕ → ℕ → ℕ → Run Found
scan zero keys search_key begin end =
    if begin == end then ok (found_at begin begin end) else stop no_return
scan (suc n) keys search_key begin end = elim (begin == end) [
  | true ↦ ok (found_at begin begin end)
  | false ↦ elim (ltb (get_or keys begin 0) search_key) [
    | true ↦ scan n keys search_key (begin + 1) end
    | false ↦
        if ltb search_key (get_or keys begin 0)
        then ok (found_at begin begin begin)
        else ok (found_at begin begin end)
  ]
]

unfoldable pub binary_search : List ℕ → ℕ → ℕ → ℕ → Run Found
unfolding bisect scan
binary_search keys search_key begin end =
    if ltb 7 (end - begin)
    then bisect (end - begin) keys search_key begin end
    else scan (end - begin) keys search_key begin end

-- The loops that find the bounds of the range of matches.
unfoldable pub lower : ℕ → List ℕ → ℕ → ℕ → ℕ → Run ℕ
lower zero keys search_key begin end = stop no_return
lower (suc n) keys search_key begin end = do
  f ← binary_search keys search_key begin end
  let rest : Run ℕ = lower n keys search_key f.begin f.result
  if f.begin == f.result then ok f.result else rest

unfoldable pub upper : ℕ → List ℕ → ℕ → ℕ → ℕ → Run ℕ
upper zero keys search_key begin end = stop no_return
upper (suc n) keys search_key begin end = do
  f ← binary_search keys search_key (begin + 1) end
  let rest : Run ℕ = upper n keys search_key f.result f.end
  if f.result == f.end then ok f.end else rest

-- Whether there is a match, and what is left in the two parameters.
unfoldable pub bin_search_sub_range : List ℕ → ℕ → ℕ → ℕ → Run (Bool × (ℕ × ℕ))
unfolding lower upper
bin_search_sub_range keys search_key begin end = do
  f ← binary_search keys search_key begin end
  if f.begin == f.end then ok (false, (f.begin, f.end)) else (do
    lo ← lower (f.result + 1) keys search_key f.begin f.result
    hi ← upper (f.end + 1) keys search_key f.result f.end
    ok (true, (lo, hi)))
