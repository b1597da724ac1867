-- ===== src/Utils/Algorithms/Halving.antt =====
-- `BinarySearch` of 3FD/utils_algorithms.h on sorted keys.
use fd.Base.{
  ℕ, zero, suc, ◌+◌, ◌-◌, ◌≡◌, ◌⊎◌, inl, inr, refl, List, Returns, ltb, ◌==◌, ==_iff, ==_self,
  get_or, get_or_mono, length, IsSorted, arith, ◌<◌, ◌≤◌, Bool-cases,
}
use fd.Utils.Algorithms.{Found, found_at, middle_of, bisect, scan, binary_search}

-- The entries that are cut off in front are less than the key, and those behind are greater.
abbrev pub Cuts : List ℕ → ℕ → ℕ → ℕ → ℕ → ℕ → Type 0
Cuts keys key begin end lo hi =
    (begin ≤ lo)
    × (lo ≤ hi)
    × (hi ≤ end)
    × ((j : ℕ) → begin ≤ j → j < lo → get_or keys j 0 < key)
    × ((j : ℕ) → hi ≤ j → j < end → key < get_or keys j 0)

-- The result is a match, in what is left, or nothing is left.
abbrev pub Narrows : List ℕ → ℕ → ℕ → ℕ → Found → Type 0
Narrows keys key begin end f =
    Cuts keys key begin end f.begin f.end
    × (((f.begin ≡ f.end) × (f.result ≡ f.begin))
        ⊎ ((f.begin ≤ f.result) × (f.result < f.end) × (get_or keys f.result 0 ≡ key)))

module _ (keys : List ℕ) (key : ℕ) (sorted : IsSorted keys) where
  -- A search that goes on behind `m`, or in front of it.
  behind_lem :
      (begin m end : ℕ) (f : Found)
      → begin ≤ m
      → m < end
      → end ≤ length keys
      → get_or keys m 0 < key
      → Narrows keys key (m + 1) end f
      → Narrows keys key begin end f
  behind_lem begin m end f low lt fits less ((a, b, c, front, back), r) = (
    (
      omega arith,
      b,
      c,
      (λ j from to. elim (Bool-cases (ltb m j)) [
        | inl beyond ↦ front j (ground arith) to
        | inr within ↦
            let le = get_or_mono keys j m sorted (ground arith) (omega arith) in omega arith
      ]),
      back,
    ),
    r,
  )

  front_lem :
      (begin m end : ℕ) (f : Found)
      → begin ≤ m
      → m < end
      → end ≤ length keys
      → key < get_or keys m 0
      → Narrows keys key begin m f
      → Narrows keys key begin end f
  front_lem begin m end f low lt fits greater ((a, b, c, front, back), r) = (
    (
      a,
      b,
      omega arith,
      front,
      (λ j from to. elim (Bool-cases (ltb j m)) [
        | inl within ↦ back j from (ground arith)
        | inr beyond ↦
            let le = get_or_mono keys m j sorted (ground arith) (omega arith) in omega arith
      ]),
    ),
    r,
  )

  stays : (begin end : ℕ) → begin ≤ end → Cuts keys key begin end begin end
  stays begin end le =
      (omega arith, le, omega arith, (λ j a b. absurd (omega arith)), λ j a b. absurd (omega arith))

  bisect-Narrows :
      (n begin end : ℕ)
      → begin ≤ end
      → end ≤ length keys
      → end - begin ≤ n
      → Returns (bisect n keys key begin end) (Narrows keys key begin end)
  unfolding bisect
  bisect-Narrows zero begin end le fits small =
      let e : begin ≡ end = omega arith in
      (found_at begin begin end, rw (e, ==_self end) refl, (stays begin end le, inl (e, refl)))
  bisect-Narrows (suc n) begin end le fits small = elim (Bool-cases (begin == end)) [
    | inl same ↦
        let e : begin ≡ end = (==_iff begin end).0 same in
        (found_at begin begin end, rw (same, bisect) refl, (stays begin end le, inl (e, refl)))
    | inr differ ↦
        let lt : begin < end = ground arith in
        let m : ℕ = middle_of begin end in
        let high : m < end = omega arith in
        elim (Bool-cases (ltb (get_or keys m 0) key)) [
          | inl less ↦
              let (f, run, post) = bisect-Narrows n (m + 1) end (omega arith) fits (omega arith) in
              (
                f,
                rw (differ, less, bisect) run,
                behind_lem begin m end f (omega arith) high fits (ground arith) post,
              )
          | inr not_less ↦ elim (Bool-cases (ltb key (get_or keys m 0))) [
            | inl greater ↦
                let (f, run, post) =
                  bisect-Narrows n begin m (omega arith) (omega arith) (omega arith) in
                (
                  f,
                  rw (differ, not_less, greater, bisect) run,
                  front_lem begin m end f (omega arith) high fits (ground arith) post,
                )
            | inr not_greater ↦ (
              found_at m begin end,
              rw (differ, not_less, not_greater, bisect) refl,
              (stays begin end le, inr (omega arith, high, ground arith)),
            )
          ]
        ]
  ]

  scan-Narrows :
      (n begin end : ℕ)
      → begin ≤ end
      → end ≤ length keys
      → end - begin ≤ n
      → Returns (scan n keys key begin end) (Narrows keys key begin end)
  unfolding scan
  scan-Narrows zero begin end le fits small =
      let e : begin ≡ end = omega arith in
      (found_at begin begin end, rw (e, ==_self end) refl, (stays begin end le, inl (e, refl)))
  scan-Narrows (suc n) begin end le fits small = elim (Bool-cases (begin == end)) [
    | inl same ↦
        let e : begin ≡ end = (==_iff begin end).0 same in
        (found_at begin begin end, rw (same, scan) refl, (stays begin end le, inl (e, refl)))
    | inr differ ↦
        let lt : begin < end = ground arith in
        elim (Bool-cases (ltb (get_or keys begin 0) key)) [
          | inl less ↦
              let (f, run, post) =
                scan-Narrows n (begin + 1) end (omega arith) fits (omega arith) in
              (
                f,
                rw (differ, less, scan) run,
                behind_lem begin begin end f (omega arith) lt fits (ground arith) post,
              )
          | inr not_less ↦ elim (Bool-cases (ltb key (get_or keys begin 0))) [
            | inl greater ↦
                let f : Found = found_at begin begin begin in
                (
                  f,
                  rw (differ, not_less, greater, scan) refl,
                  front_lem begin begin end f (omega arith) lt fits (ground arith)
                      (stays begin begin (omega arith), inl (refl, refl)),
                )
            | inr not_greater ↦ (
              found_at begin begin end,
              rw (differ, not_less, not_greater, scan) refl,
              (stays begin end le, inr (omega arith, lt, ground arith)),
            )
          ]
        ]
  ]

  -- `BinarySearch` in a range of sorted keys ends: what it cuts off in front of `begin` is less than
  -- the key, what it cuts off behind `end` is greater, and it returns a match in what is left, or
  -- `begin` and `end` meet where it returns.
  pub binary_search-Narrows :
      (begin end : ℕ)
      → begin ≤ end
      → end ≤ length keys
      → Returns (binary_search keys key begin end) (Narrows keys key begin end)
  unfolding binary_search
  binary_search-Narrows begin end le fits = elim (Bool-cases (ltb 7 (end - begin))) [
    | inl long ↦
        let (f, run, post) = bisect-Narrows (end - begin) begin end le fits (omega arith) in
        (f, rw (long) run, post)
    | inr short ↦
        let (f, run, post) = scan-Narrows (end - begin) begin end le fits (omega arith) in
        (f, rw (short) run, post)
  ]
