-- ===== src/Utils/LockFreeQueue/Examples.antt =====
-- Runs of the lock-free queue of 3FD/utils_lockfreequeue.h.
use fd.Base.{ℕ, ◌≡◌, refl, true, none, some, List, [], ◌∷◌, ◌++◌, arith, ok, Returns}
use fd.Utils.LockFreeQueue.{
  System, Step, exchange, link, read, take_next, exchange_head, link_next, read_next, read_if,
  take_value, consume, step, steps, remove, remove_locked, is_empty, new_lock_free_queue, put,
  reading,
}
use fd.Utils.LockFreeQueue.Order.{steps-Fifo}
use fd.Utils.LockFreeQueue.Calls.{remove-Locked, is_empty_iff_removed}

-- Two threads add 5 and 6; the later one is done first, and the consumer finds nothing behind the
-- first element until the other is done too.
abbrev overlapping : List (Step ℕ)
overlapping =
    exchange 1 5
    ∷ exchange 2 6
    ∷ link 2
    ∷ read
    ∷ take_next
    ∷ link 1
    ∷ read
    ∷ take_next
    ∷ read
    ∷ take_next
    ∷ []

abbrev after_overlap : System ℕ
after_overlap = record {
  heap =
      put
        (put
          (put
            (put
              (put
                (put
                  (put (put (λ k. none) 0 (some (record { value = none; next = none }))) 1
                    (some (record { value = some 5; next = none })))
                  2 (some (record { value = some 6; next = none })))
                1 (some (record { value = some 5; next = some 2 })))
              0 (some (record { value = none; next = none })))
            0 (some (record { value = none; next = some 1 })))
          0 none)
        1 none;
  head = 2;
  tail = 2;
  fresh = 3;
  adding = put (put (put (put (λ t. none) 1 (some (0, 1))) 2 (some (1, 2))) 2 none) 1 none;
  consumer = reading;
  added = 5 ∷ 6 ∷ [];
  removed = 5 ∷ [];
}

overlap : steps overlapping new_lock_free_queue ≡ ok after_overlap
unfolding steps step exchange_head link_next read_next read_if take_value consume
overlap = refl

all_idle : (t : ℕ) → after_overlap.adding t ≡ none
all_idle t = ground arith

steps-Fifo_example :
    Returns
      (steps overlapping new_lock_free_queue)
      λ s. (rest : List ℕ) × (s.added ≡ s.removed ++ rest)
steps-Fifo_example = steps-Fifo overlapping

remove-Locked_example : Returns (remove 2 after_overlap) λ r.
    (r.0 ≡ (remove_locked (6 ∷ [])).0) × (r.1.added ≡ r.1.removed ++ (remove_locked (6 ∷ [])).1)
remove-Locked_example = remove-Locked overlapping after_overlap (6 ∷ []) overlap all_idle refl

is_empty_iff_removed_example : Returns (is_empty after_overlap) λ b.
    ((b ≡ true) → after_overlap.removed ≡ after_overlap.added)
    × (after_overlap.removed ≡ after_overlap.added → b ≡ true)
is_empty_iff_removed_example = is_empty_iff_removed overlapping after_overlap overlap
