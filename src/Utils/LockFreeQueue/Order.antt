-- ===== src/Utils/LockFreeQueue/Order.antt =====
-- The order in which the lock-free queue of 3FD/utils_lockfreequeue.h gives back its entries.
use fd.Base.{
  ℕ, zero, suc, ◌≡◌, ◌≤◌, inl, inr, refl, ap, sym, ◌∙◌, none, some, List, [], ◌∷◌, ◌++◌, length,
  arith, Returns,
}
use fd.Utils.LockFreeQueue.{
  System, Consumer, reading, has_read, Step, exchange, link, read, take_next, exchange_head,
  read_if, take_value, consume, step, steps, new_lock_free_queue,
}
use fd.Utils.LockFreeQueue.Invariant.{take, ConsumerFits, IsQueue, new-IsQueue}
use fd.Utils.LockFreeQueue.Adding.{exchange_head-IsQueue, link_next-IsQueue}
use fd.Utils.LockFreeQueue.Removing.{
  read_next-IsQueue, moved, emptied, moved-IsQueue, emptied-IsQueue,
}

module _ {A : Type 0} where
  read_if-IsQueue : (s : System A) (o : Consumer) → IsQueue s → Returns (read_if s o) IsQueue
  unfolding read_if
  read_if-IsQueue s reading inv =
      let (s', run, (inv', why)) = read_next-IsQueue s inv in (s', run, inv')
  read_if-IsQueue s (has_read n) inv = (s, refl, inv)

  consume-IsQueue :
      (s : System A) (o : Consumer) → IsQueue s → ConsumerFits s o → Returns (consume s o) IsQueue
  unfolding consume take_value
  consume-IsQueue s reading inv fits = (s, refl, inv)
  consume-IsQueue s (has_read none) inv fits =
      let (e, live, next, value) = inv.nodes s.tail (omega arith) inv.in_order in
      (emptied s e, rw (live) refl, emptied-IsQueue s inv e live)
  consume-IsQueue s (has_read (some n)) inv fits =
      let (is, below, (e, live, next)) = fits in
      (moved s n e, rw (live) refl, moved-IsQueue s inv n fits e live)

  step-IsQueue : (x : Step A) (s : System A) → IsQueue s → Returns (step x s) IsQueue
  unfolding step
  step-IsQueue (exchange t entry) s inv = (
    exchange_head s t entry (s.adding t),
    refl,
    exchange_head-IsQueue s inv t entry (s.adding t) refl,
  )
  step-IsQueue (link t) s inv = link_next-IsQueue s inv t (s.adding t) refl
  step-IsQueue read s inv = read_if-IsQueue s s.consumer inv
  step-IsQueue take_next s inv = consume-IsQueue s s.consumer inv inv.at_consumer

  pub steps-IsQueue : (xs : List (Step A)) (s : System A) → IsQueue s → Returns (steps xs s) IsQueue
  unfolding steps
  steps-IsQueue [] s inv = (s, refl, inv)
  steps-IsQueue (x ∷ xs) s inv =
      let (s', run, inv') = step-IsQueue x s inv in
      let (s2, run2, inv2) = steps-IsQueue xs s' inv' in (s2, rw (run) run2, inv2)

  take_prefix : (n : ℕ) (l : List A) → (rest : List A) × (l ≡ take n l ++ rest)
  take_prefix zero l = (l, refl)
  take_prefix (suc n) [] = ([], refl)
  take_prefix (suc n) (x ∷ l) = let (rest, e) = take_prefix n l in (rest, ap (λ t. x ∷ t) e)

  -- How many of the entries were removed.
  removed_count :
      (s : System A) → IsQueue s → (n : ℕ) × (n ≤ length s.added) × (s.removed ≡ take n s.added)
  removed_count s inv =
      let (e, live, next, value) = inv.nodes s.tail (omega arith) inv.in_order in
      let m = inv.as_many in
      let o = inv.in_order in
      elim (inv.front e live) [
        | inl (gone, so_far) ↦ (s.tail, omega arith, so_far)
        | inr (j, is, there, so_far) ↦ (j, omega arith, so_far)
      ]

  -- Whatever steps the threads take, and in whatever order, no step follows a pointer to an element
  -- that was deleted, and the removed entries are the first of the added ones, in the order in which
  -- the calls of `Add` exchanged the head: none is lost, repeated or overtaken.
  pub steps-Fifo :
      (xs : List (Step A))
      → Returns (steps xs new_lock_free_queue) λ s. (rest : List A) × (s.added ≡ s.removed ++ rest)
  steps-Fifo xs =
      let (s, run, inv) = steps-IsQueue xs new_lock_free_queue new-IsQueue in
      let (n, few, so_far) = removed_count s inv in
      let (rest, e) = take_prefix n s.added in
      (s, run, (rest, e ∙ ap (λ l. l ++ rest) (sym so_far)))
