-- ===== src/Utils/LockFreeQueue/Calls.antt =====
-- Calls of `Remove` and `IsEmpty` of 3FD/utils_lockfreequeue.h that no other thread interrupts.
use fd.Base.{
  ℕ, zero, suc, ◌≡◌, ◌≤◌, ◌<◌, ◌⊎◌, inl, inr, refl, ap, sym, ◌∙◌, subst, ◌==◌, ==_iff, and_true,
  ◌&&◌, true, Option, none, some, List, [], ◌∷◌, ◌++◌, length, get_elem?, arith, ok, Returns,
}
use fd.Utils.LockFreeQueue.{
  Element, System, Step, read_next, take_value, steps, remove, listed, remove_locked, is_empty,
  is_null, new_lock_free_queue,
}
use fd.Utils.LockFreeQueue.Invariant.{
  take, get_elem?-exists, put-other, FrontFits, IsQueue, new-IsQueue,
}
use fd.Utils.LockFreeQueue.Removing.{moved, emptied, moved-IsQueue, append_nil}
use fd.Utils.LockFreeQueue.Order.{steps-IsQueue}

module _ {A : Type 0} where
  length-take : (n : ℕ) (l : List A) → n ≤ length l → length (take n l) ≡ n
  length-take zero l h = refl
  length-take (suc n) [] h = ground arith
  length-take (suc n) (x ∷ l) h = ap suc (length-take n l (omega arith))

  get_elem?-end : (l : List A) → get_elem? l (length l) ≡ none
  get_elem?-end [] = refl
  get_elem?-end (x ∷ l) = get_elem?-end l

  -- A round that finds a value ends the loop.
  round-finds :
      (n : ℕ) (s : System A) (e : Element A) (v : A)
      → IsQueue s
      → s.heap s.tail ≡ some e
      → e.value ≡ some v
      → (o : Option ℕ) → e.next ≡ o
      → (s' : System A) × (remove (suc n) s ≡ ok (some v, s'))
        × (s'.added ≡ s.added)
        × (s'.removed ≡ s.removed ++ listed e.value)
  unfolding remove read_next take_value
  round-finds n s e v inv live value none next =
      (emptied s e, rw (live, next, live, value, next) refl, refl, refl)
  round-finds n s e v inv live value (some k) next =
      (moved s k e, rw (live, next, live, value) refl, refl, refl)

  -- What was removed, by whether the tail still has its value.
  front-count :
      (s : System A) (value : Option A)
      → IsQueue s
      → FrontFits s value
      → ((value ≡ none) × (length s.removed ≡ s.tail))
        ⊎ ((v : A) × (value ≡ some v) × (some v ≡ get_elem? s.added (length s.removed)))
  front-count s none inv (inl (gone, so_far)) =
      let m = inv.as_many in
      let o = inv.in_order in
      inl (refl, ap length so_far ∙ length-take s.tail s.added (omega arith))
  front-count s none inv (inr (j, is, there, so_far)) =
      let m = inv.as_many in
      let o = inv.in_order in let (v, at_j) = get_elem?-exists s.added j (omega arith) in absurd cc
  front-count s (some v) inv (inl (gone, so_far)) = absurd cc
  front-count s (some v) inv (inr (j, is, there, so_far)) =
      let m = inv.as_many in
      let o = inv.in_order in
      let n : length s.removed ≡ j = ap length so_far ∙ length-take j s.added (omega arith) in
      inr (v, refl, there ∙ ap (get_elem? s.added) (sym n))

  -- A round that finds no value, and a successor.
  round-goes_on :
      (m n : ℕ) (s : System A) (e : Element A)
      → s.heap s.tail ≡ some e
      → e.value ≡ none
      → e.next ≡ some n
      → remove (suc m) s ≡ remove m (moved s n e)
  unfolding remove read_next take_value
  round-goes_on m n s e live value next = rw (live, next, live, value) refl

  round-ends :
      (m : ℕ) (s : System A) (e : Element A)
      → s.heap s.tail ≡ some e
      → e.value ≡ none
      → e.next ≡ none
      → (s' : System A) × (remove (suc m) s ≡ ok (none, s'))
        × (s'.added ≡ s.added)
        × (s'.removed ≡ s.removed ++ listed e.value)
  unfolding remove read_next take_value
  round-ends m s e live value next =
      (emptied s e, rw (live, next, live, value, next) refl, refl, refl)

  -- The element behind an empty tail has the next value.
  behind-value :
      (s : System A) (e : Element A) (n : ℕ)
      → IsQueue s
      → s.heap s.tail ≡ some e
      → n ≡ suc s.tail
      → s.tail < s.head
      → (d : Element A) × (v : A) × ((moved s n e).heap n ≡ some d)
        × (d.value ≡ some v)
        × (some v ≡ get_elem? s.added s.tail)
  behind-value s e n inv live is below =
      let m = inv.as_many in
      let (d, live_d, next, value) = inv.nodes n (omega arith) (omega arith) in
      let (v, at_tail) = get_elem?-exists s.added s.tail (omega arith) in
      let there = value s.tail is (omega arith) in
      (
        d,
        v,
        put-other s.heap s.tail n none (λ same. ground arith) ∙ live_d,
        there ∙ at_tail,
        sym at_tail,
      )

  -- What a call of `Remove` gives, and leaves.
  abbrev Gives : System A → Option A × System A → Type 0
  Gives s (v, s') =
      (v ≡ get_elem? s.added (length s.removed))
      × (s'.added ≡ s.added)
      × (s'.removed ≡ s.removed ++ listed v)

  remove-Gives :
      (s : System A) → IsQueue s → ((t : ℕ) → s.adding t ≡ none) → Returns (remove 2 s) (Gives s)
  remove-Gives s inv quiet =
      let (e, live, next, value) = inv.nodes s.tail (omega arith) inv.in_order in
      elim (front-count s e.value inv (inv.front e live)) [
        | inr (v, has_v, at_v) ↦
            let (s', run, kept, gone) = round-finds 1 s e v inv live has_v e.next refl in
            ((some v, s'), run, (at_v, kept, gone ∙ ap (λ o. s.removed ++ listed o) has_v))
        | inl (empty, count) ↦ elim next [
          | inr (alone, last) ↦ elim last [
            | inl at_head ↦
                let (s', run, kept, gone) = round-ends 1 s e live empty alone in
                (
                  (none, s'),
                  run,
                  (
                    sym (
                        ap (get_elem? s.added) (count ∙ at_head ∙ sym inv.as_many)
                        ∙ get_elem?-end s.added),
                    kept,
                    gone ∙ ap (λ o. s.removed ++ listed o) empty,
                  ),
                )
            | inr (t, busy) ↦ absurd (let idle = quiet t in cc)
          ]
          | inl (linked, below) ↦
              let (d, v, live_d, has_v, at_v) = behind-value s e (suc s.tail) inv live refl below in
              let inv' = moved-IsQueue s inv (suc s.tail) (refl, below, (e, live, linked)) e live in
              let (s', run, kept, gone) =
                round-finds 0 (moved s (suc s.tail) e) d v inv' live_d has_v d.next refl in
              (
                (some v, s'),
                round-goes_on 1 (suc s.tail) s e live empty linked ∙ run,
                (
                  at_v ∙ ap (get_elem? s.added) (sym count),
                  kept,
                  gone
                      ∙ ap (λ o. s.removed ++ listed o ++ listed d.value) empty
                      ∙ ap (λ l. l ++ listed d.value) (append_nil s.removed)
                      ∙ ap (λ o. s.removed ++ listed o) has_v,
                ),
              )
        ]
      ]

  append_assoc : (l m n : List A) → (l ++ m) ++ n ≡ l ++ (m ++ n)
  append_assoc [] m n = refl
  append_assoc (x ∷ l) m n = ap (λ t. x ∷ t) (append_assoc l m n)

  get_elem?-first : (l m : List A) → get_elem? (l ++ m) (length l) ≡ (remove_locked m).0
  unfolding remove_locked
  get_elem?-first [] [] = refl
  get_elem?-first [] (x ∷ m) = refl
  get_elem?-first (y ∷ l) m = get_elem?-first l m

  listed-first : (m : List A) → m ≡ listed (remove_locked m).0 ++ (remove_locked m).1
  unfolding remove_locked
  listed-first [] = refl
  listed-first (x ∷ m) = refl

  -- In a state that the threads can reach, without a thread in the middle of `Add`, `Remove` returns
  -- after two rounds of its loop at most. It gives what the `Remove` of the locked queue gives when
  -- that queue holds the entries that were added and not removed, and leaves what that one leaves.
  pub remove-Locked :
      (xs : List (Step A)) (s : System A) (queue : List A)
      → steps xs new_lock_free_queue ≡ ok s
      → ((t : ℕ) → s.adding t ≡ none)
      → s.added ≡ s.removed ++ queue
      → Returns (remove 2 s) λ r.
        (r.0 ≡ (remove_locked queue).0) × (r.1.added ≡ r.1.removed ++ (remove_locked queue).1)
  remove-Locked xs s queue run quiet holds =
      let (s', run', inv) = steps-IsQueue xs new_lock_free_queue new-IsQueue in
      let same : s' ≡ s = let r = sym run' ∙ run in cc in
      let ((v, s2), gave, (is, kept, gone)) = remove-Gives s (subst IsQueue same inv) quiet in
      let first =
        is ∙ ap (λ l. get_elem? l (length s.removed)) holds ∙ get_elem?-first s.removed queue in
      (
        (v, s2),
        gave,
        (
          first,
          kept
              ∙ holds
              ∙ ap (λ l. s.removed ++ l) (listed-first queue)
              ∙ sym
                  (append_assoc s.removed (listed (remove_locked queue).0) (remove_locked queue).1)
              ∙ ap (λ o. s.removed ++ listed o ++ (remove_locked queue).1) (sym first)
              ∙ ap (λ l. l ++ (remove_locked queue).1) (sym gone),
        ),
      )

  take-all : (l : List A) → take (length l) l ≡ l
  take-all [] = refl
  take-all (x ∷ l) = ap (λ t. x ∷ t) (take-all l)

  empty-cases :
      (s : System A) (value : Option A)
      → IsQueue s
      → FrontFits s value
      → (((s.tail == s.head && is_null value) ≡ true) → s.removed ≡ s.added)
        × (s.removed ≡ s.added → (s.tail == s.head && is_null value) ≡ true)
  empty-cases s value inv (inl (gone, so_far)) =
      let m = inv.as_many in
      let o = inv.in_order in
      let count = ap length so_far ∙ length-take s.tail s.added (omega arith) in
      (
        λ h.
            let n = (==_iff s.tail s.head).0 (and_true (s.tail == s.head) (is_null value) h).0 in
            so_far ∙ ap (λ k. take k s.added) (n ∙ sym m) ∙ take-all s.added,
        λ h.
            let n : (s.tail == s.head) ≡ true =
              (==_iff s.tail s.head).1 (sym count ∙ ap length h ∙ m) in
            rw (n, gone) refl,
      )
  empty-cases s value inv (inr (j, is, there, so_far)) =
      let m = inv.as_many in
      let o = inv.in_order in
      let count = ap length so_far ∙ length-take j s.added (omega arith) in
      let (v, at_j) = get_elem?-exists s.added j (omega arith) in
      let has_v : value ≡ some v = there ∙ at_j in
      (
        λ h.
            let full = (and_true (s.tail == s.head) (is_null value) h).1 in
            absurd (let r = rw has_v at full in cc),
        λ h. absurd (let n = sym count ∙ ap length h ∙ m in omega arith),
      )

  -- `IsEmpty`, in a state that the threads can reach, is true exactly when every entry that was added
  -- was removed.
  pub is_empty_iff_removed :
      (xs : List (Step A)) (s : System A)
      → steps xs new_lock_free_queue ≡ ok s
      → Returns
          (is_empty s)
          λ b. ((b ≡ true) → s.removed ≡ s.added) × (s.removed ≡ s.added → b ≡ true)
  unfolding is_empty
  is_empty_iff_removed xs s run =
      let (s', run', inv') = steps-IsQueue xs new_lock_free_queue new-IsQueue in
      let same : s' ≡ s = let r = sym run' ∙ run in cc in
      let inv = subst IsQueue same inv' in
      let (e, live, next, value) = inv.nodes s.tail (omega arith) inv.in_order in
      (
        s.tail == s.head && is_null e.value,
        rw (live) refl,
        empty-cases s e.value inv (inv.front e live),
      )
