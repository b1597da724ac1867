-- ===== src/Cmdline/Usage/Sorted.antt =====
-- The order in which `PrintArgsInfo` of 3FD/cmdline.cpp goes through the declared arguments.
use fd.Base.{
  ℕ, ◌≡◌, ◌<◌, refl, ap, ◌∙◌, ◌==◌, ltb, false, Option, none, some, [], ◌∷◌, if◌then◌else◌,
  Bool-cases, inl, inr, arith,
}
use fd.Cmdline.Types.{ArgDeclExtended, Library, Map, find, CommandLineArguments}
use fd.Cmdline.Declaration.Consistent.{AllFit}
use fd.Cmdline.Usage.{Stream, insert_by_id, by_id}

module _ {F : Type 0} (lib : Library F) (stream : Stream F) (c : CommandLineArguments F) where
  -- All ids are above `i`.
  abbrev pub AllAbove : ℕ → Map ℕ (ArgDeclExtended F) → Type 0
  AllAbove i [] = Unit
  AllAbove i ((j, e) ∷ m) = (i < j) × AllAbove i m

  abbrev pub Ascending : Map ℕ (ArgDeclExtended F) → Type 0
  Ascending [] = Unit
  Ascending ((i, e) ∷ m) = AllAbove i m × Ascending m

  AllAbove-lt : (i j : ℕ) (m : Map ℕ (ArgDeclExtended F)) → i < j → AllAbove j m → AllAbove i m
  AllAbove-lt i j [] lt h = tt
  AllAbove-lt i j ((k, e) ∷ m) lt h = (omega (arith, h.0), AllAbove-lt i j m lt h.1)

  absent_lem :
      (id j : ℕ) (d : ArgDeclExtended F) (m : Map ℕ (ArgDeclExtended F))
      → find id ((j, d) ∷ m) ≡ none
      → (id == j ≡ false) × (find id m ≡ none)
  unfolding find
  absent_lem id j d m h = elim (Bool-cases (id == j)) [
    | inl here ↦ let h' = rw here at h in absurd cc
    | inr there ↦ let h' = rw there at h in (there, h')
  ]

  find-insert_by_id :
      (k id : ℕ) (e : ArgDeclExtended F) (m : Map ℕ (ArgDeclExtended F))
      → find id m ≡ none
      → find k (insert_by_id lib stream c id e m) ≡ (if k == id then some e else find k m)
  unfolding find insert_by_id
  find-insert_by_id k id e [] absent = refl
  find-insert_by_id k id e ((j, d) ∷ m) absent =
      let (apart, absent') = absent_lem id j d m absent in
      let rest = find-insert_by_id k id e m absent' in
      elim (Bool-cases (ltb id j)) [
        | inl front ↦ rw (front) refl
        | inr behind ↦ elim (Bool-cases (k == j)) [
          | inl here ↦ let other : k == id ≡ false = ground arith in rw (behind, here, other) refl
          | inr there ↦ rw (behind, there) rest
        ]
      ]

  AllAbove-insert_by_id :
      (i id : ℕ) (e : ArgDeclExtended F) (m : Map ℕ (ArgDeclExtended F))
      → i < id
      → AllAbove i m
      → AllAbove i (insert_by_id lib stream c id e m)
  unfolding insert_by_id
  AllAbove-insert_by_id i id e [] lt h = (lt, tt)
  AllAbove-insert_by_id i id e ((j, d) ∷ m) lt h = elim (Bool-cases (ltb id j)) [
    | inl front ↦ rw (front) (lt, h)
    | inr behind ↦ rw (behind) (h.0, AllAbove-insert_by_id i id e m lt h.1)
  ]

  insert_by_id-Ascending :
      (id : ℕ) (e : ArgDeclExtended F) (m : Map ℕ (ArgDeclExtended F))
      → find id m ≡ none
      → Ascending m
      → Ascending (insert_by_id lib stream c id e m)
  unfolding insert_by_id
  insert_by_id-Ascending id e [] absent h = (tt, tt)
  insert_by_id-Ascending id e ((j, d) ∷ m) absent h =
      let (apart, absent') = absent_lem id j d m absent in
      elim (Bool-cases (ltb id j)) [
        | inl front ↦
            let lt : id < j = ground arith in rw (front) ((lt, AllAbove-lt id j m lt h.0), h)
        | inr behind ↦
            let lt : j < id = ground arith in
            rw (behind)
              (AllAbove-insert_by_id j id e m lt h.0, insert_by_id-Ascending id e m absent' h.1)
      ]

  -- The entries are those of the map.
  pub find-by_id :
      (k : ℕ) (m : Map ℕ (ArgDeclExtended F))
      → AllFit lib m
      → find k (by_id lib stream c m) ≡ find k m
  unfolding find by_id
  find-by_id k [] fit = refl
  find-by_id k ((id, e) ∷ m) fit =
      let absent = find-by_id id m fit.3 ∙ fit.2 in
      find-insert_by_id k id e (by_id lib stream c m) absent
      ∙ ap (λ (o : Option (ArgDeclExtended F)). if k == id then some e else o)
          (find-by_id k m fit.3)

  pub by_id-Ascending :
      (m : Map ℕ (ArgDeclExtended F)) → AllFit lib m → Ascending (by_id lib stream c m)
  unfolding by_id
  by_id-Ascending [] fit = tt
  by_id-Ascending ((id, e) ∷ m) fit =
      insert_by_id-Ascending id e (by_id lib stream c m) (find-by_id id m fit.3 ∙ fit.2)
        (by_id-Ascending m fit.3)
