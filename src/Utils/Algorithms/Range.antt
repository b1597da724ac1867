-- ===== src/Utils/Algorithms/Range.antt =====
-- `BinSearchSubRange` of 3FD/utils_algorithms.h on sorted keys.
use fd.Base.{
  ℕ, zero, suc, ◌+◌, ◌-◌, ◌≡◌, inl, inr, refl, true, false, List, Returns, ltb, ◌==◌, ==_iff,
  get_or, get_or_mono, length, IsSorted, arith, ◌<◌, ◌≤◌, Bool-cases,
}
use fd.Utils.Algorithms.{lower, upper, bin_search_sub_range}
use fd.Utils.Algorithms.Halving.{Cuts, binary_search-Narrows}

module _ (keys : List ℕ) (key : ℕ) (sorted : IsSorted keys) where
  -- From a match at `end`, where the matches start.
  lower_lem :
      (n begin end : ℕ)
      → begin ≤ end
      → end < length keys
      → get_or keys end 0 ≡ key
      → end - begin < n
      → Returns (lower n keys key begin end) λ lo.
        (begin ≤ lo)
        × (lo ≤ end)
        × ((j : ℕ) → begin ≤ j → j < lo → get_or keys j 0 < key)
        × ((j : ℕ) → lo ≤ j → j ≤ end → get_or keys j 0 ≡ key)
  unfolding lower
  lower_lem zero begin end le fits match small = absurd (omega arith)
  lower_lem (suc n) begin end le fits match small =
      let (f, run, ((a, b, c, front, back), r)) =
        binary_search-Narrows keys key sorted begin end le (omega arith) in
      elim r [
        | inl (met, here) ↦
            let same : f.begin == f.result ≡ true = ground arith in
            (
              f.result,
              rw (run, same, lower) refl,
              (
                omega arith,
                omega arith,
                (λ j from to. front j from (omega arith)),
                λ j from to. elim (Bool-cases (ltb j end)) [
                  | inl within ↦
                      let le' = get_or_mono keys j end sorted to fits in
                      absurd (omega (arith, back j (omega arith) (ground arith)))
                  | inr at_end ↦ let e : j ≡ end = ground arith in rw (e) match
                ],
              ),
            )
        | inr (low, high, found) ↦ elim (Bool-cases (f.begin == f.result)) [
          | inl same ↦
              let e : f.begin ≡ f.result = (==_iff f.begin f.result).0 same in
              (
                f.result,
                rw (run, same, lower) refl,
                (
                  omega arith,
                  omega arith,
                  (λ j from to. front j from (omega arith)),
                  λ j from to.
                      let le1 = get_or_mono keys f.result j sorted from (omega arith) in
                      let le2 = get_or_mono keys j end sorted to fits in omega arith,
                ),
              )
          | inr differ ↦
              let (lo, run', (a', b', front', inside')) =
                lower_lem n f.begin f.result (omega arith) (omega arith) found (ground arith) in
              (
                lo,
                rw (run, differ, lower) run',
                (
                  omega arith,
                  omega arith,
                  (λ j from to. elim (Bool-cases (ltb j f.begin)) [
                    | inl before ↦ front j from (ground arith)
                    | inr after ↦ front' j (ground arith) to
                  ]),
                  λ j from to. elim (Bool-cases (ltb f.result j)) [
                    | inl after ↦
                        let le1 = get_or_mono keys f.result j sorted (ground arith) (omega arith) in
                        let le2 = get_or_mono keys j end sorted to fits in omega arith
                    | inr before ↦ inside' j from (ground arith)
                  ],
                ),
              )
        ]
      ]

  -- From a match at `begin`, where the matches end.
  upper_lem :
      (n begin end : ℕ)
      → begin < end
      → end ≤ length keys
      → get_or keys begin 0 ≡ key
      → end - begin < n
      → Returns (upper n keys key begin end) λ hi.
        (begin < hi)
        × (hi ≤ end)
        × ((j : ℕ) → begin ≤ j → j < hi → get_or keys j 0 ≡ key)
        × ((j : ℕ) → hi ≤ j → j < end → key < get_or keys j 0)
  unfolding upper
  upper_lem zero begin end lt fits match small = absurd (omega arith)
  upper_lem (suc n) begin end lt fits match small =
      let (f, run, ((a, b, c, front, back), r)) =
        binary_search-Narrows keys key sorted (begin + 1) end (omega arith) fits in
      elim r [
        | inl (met, here) ↦
            let same : f.result == f.end ≡ true = ground arith in
            (
              f.end,
              rw (run, same, upper) refl,
              (
                omega arith,
                c,
                (λ j from to. elim (Bool-cases (ltb begin j)) [
                  | inl after ↦
                      let le' = get_or_mono keys begin j sorted from (omega arith) in
                      absurd (omega (arith, front j (ground arith) (omega arith)))
                  | inr at_begin ↦ let e : j ≡ begin = ground arith in rw (e) match
                ]),
                back,
              ),
            )
        | inr (low, high, found) ↦
            let differ : f.result == f.end ≡ false = ground arith in
            let (hi, run', (a', b', inside', behind')) =
              upper_lem n f.result f.end high (omega arith) found (omega arith) in
            (
              hi,
              rw (run, differ, upper) run',
              (
                omega arith,
                omega arith,
                (λ j from to. elim (Bool-cases (ltb j f.result)) [
                  | inl before ↦
                      let le1 = get_or_mono keys begin j sorted from (omega arith) in
                      let le2 = get_or_mono keys j f.result sorted (ground arith) (omega arith) in
                      omega arith
                  | inr after ↦ inside' j (ground arith) to
                ]),
                λ j from to. elim (Bool-cases (ltb j f.end)) [
                  | inl before ↦ behind' j from (ground arith)
                  | inr after ↦ back j (ground arith) to
                ],
              ),
            )
      ]

  -- `BinSearchSubRange` in a range of sorted keys ends with the range of all the matches: what is in
  -- front of it is less than the key, what is behind it is greater, and the answer tells whether
  -- it has any entries.
  pub bin_search_sub_range-finds :
      (begin end : ℕ)
      → begin ≤ end
      → end ≤ length keys
      → Returns (bin_search_sub_range keys key begin end) λ (found, (lo, hi)).
        Cuts keys key begin end lo hi
        × ((j : ℕ) → lo ≤ j → j < hi → get_or keys j 0 ≡ key)
        × (found ≡ ltb lo hi)
  unfolding bin_search_sub_range
  bin_search_sub_range-finds begin end le fits =
      let (f, run, (cuts, r)) = binary_search-Narrows keys key sorted begin end le fits in
      let (a, b, c, front, back) = cuts in
      elim r [
        | inl (met, here) ↦
            let same : f.begin == f.end ≡ true = ground arith in
            (
              (false, (f.begin, f.end)),
              rw (run, same) refl,
              (cuts, (λ j from to. absurd (omega arith)), ground arith),
            )
        | inr (low, high, match) ↦
            let differ : f.begin == f.end ≡ false = ground arith in
            let (lo, run1, (a1, b1, front1, inside1)) =
              lower_lem (f.result + 1) f.begin f.result low (omega arith) match (omega arith) in
            let (hi, run2, (a2, b2, inside2, back2)) =
              upper_lem (f.end + 1) f.result f.end high (omega arith) match (omega arith) in
            (
              (true, (lo, hi)),
              rw (run, differ, run1, run2) refl,
              (
                (
                  omega arith,
                  omega arith,
                  omega arith,
                  (λ j from to. elim (Bool-cases (ltb j f.begin)) [
                    | inl before ↦ front j from (ground arith)
                    | inr after ↦ front1 j (ground arith) to
                  ]),
                  λ j from to. elim (Bool-cases (ltb j f.end)) [
                    | inl before ↦ back2 j from (ground arith)
                    | inr after ↦ back j (ground arith) to
                  ],
                ),
                (λ j from to. elim (Bool-cases (ltb f.result j)) [
                  | inl after ↦ inside2 j (ground arith) to
                  | inr before ↦ inside1 j from (ground arith)
                ]),
                ground arith,
              ),
            )
      ]
