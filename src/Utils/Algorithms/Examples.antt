-- ===== src/Utils/Algorithms/Examples.antt =====
-- Runs of the searches of 3FD/utils_algorithms.h.
use fd.Base.{ℕ, ◌≡◌, refl, true, false, List, [], ◌∷◌, ok, Returns, arith, ◌<◌, ◌≤◌, get_or, ltb}
use fd.Utils.Algorithms.{binary_search, bin_search_sub_range, bisect, scan, lower, upper}
use fd.Utils.Algorithms.Halving.{Narrows, Cuts, binary_search-Narrows}
use fd.Utils.Algorithms.Range.{bin_search_sub_range-finds}

abbrev keys : List ℕ
keys = 1 ∷ 3 ∷ 3 ∷ 3 ∷ 5 ∷ 5 ∷ 7 ∷ 9 ∷ 9 ∷ []

sub_range_run : bin_search_sub_range keys 3 0 9 ≡ ok (true, (1, 4))
unfolding bin_search_sub_range lower upper binary_search bisect scan
sub_range_run = refl

no_range_run : bin_search_sub_range keys 4 0 9 ≡ ok (false, (4, 4))
unfolding bin_search_sub_range lower upper binary_search bisect scan
no_range_run = refl

binary_search-Narrows_example : Returns (binary_search keys 5 0 9) (Narrows keys 5 0 9)
binary_search-Narrows_example =
    binary_search-Narrows keys 5 (omega arith) 0 9 (omega arith) (omega arith)

bin_search_sub_range-finds_example : Returns (bin_search_sub_range keys 3 0 9) λ (found, (lo, hi)).
    Cuts keys 3 0 9 lo hi × ((j : ℕ) → lo ≤ j → j < hi → get_or keys j 0 ≡ 3) × (found ≡ ltb lo hi)
bin_search_sub_range-finds_example =
    bin_search_sub_range-finds keys 3 (omega arith) 0 9 (omega arith) (omega arith)
