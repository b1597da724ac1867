-- ===== src/Utils/LockFreeQueue.antt =====
-- `LockFreeQueue` of 3FD/utils_lockfreequeue.h: many threads add, and one removes. Each atomic
-- operation on what the threads share is a step of its own, and the steps of the threads interleave.
pub mod Invariant
pub mod Adding
pub mod Removing
pub mod Order
pub mod Calls
mod Examples
use fd.Base.{
  ℕ, zero, suc, ◌+◌, ◌==◌, Bool, true, false, ◌&&◌, Option, none, some, List, [], ◌∷◌, ◌++◌,
  if◌then◌else◌, Run, ok, stop, use_after_free, no_return, ◌>>=◌,
}

pub record Element (A : Type 0) : Type 0 where
  pub value : Option A
  pub next : Option ℕ

-- A map from addresses, or from threads.
abbrev pub put : {V : Type 0} → (ℕ → V) → ℕ → V → ℕ → V
put m a v k = if k == a then v else m k

-- Where the consumer is in `Remove`: it reads the tail and its next element, or has done so.
pub data Consumer : Type 0 where
  reading : Consumer
  has_read : Option ℕ → Consumer

-- The queue; the threads that are between the two statements of `Add`, each with `headBefore` and
-- `newElem`; and a history, of the entries in the order of the exchanges, and of those removed. The
-- address `fresh` is the next that `new` returns.
pub record System (A : Type 0) : Type 0 where
  pub heap : ℕ → Option (Element A)
  pub head : ℕ
  pub tail : ℕ
  pub fresh : ℕ
  pub adding : ℕ → Option (ℕ × ℕ)
  pub consumer : Consumer
  pub added : List A
  pub removed : List A

-- The constructor: one element, without a value.
abbrev pub new_lock_free_queue : {A : Type 0} → System A
new_lock_free_queue = record {
  heap = put (λ k. none) 0 (some (record { value = none; next = none }));
  head = 0;
  tail = 0;
  fresh = 1;
  adding = λ t. none;
  consumer = reading;
  added = [];
  removed = [];
}

-- A step of some thread; a step that its thread cannot take changes nothing.
pub data Step (A : Type 0) : Type 0 where
  exchange : ℕ → A → Step A
  link : ℕ → Step A
  read : Step A
  take_next : Step A

abbrev pub what_was_read : Consumer → Option ℕ
what_was_read reading = none
what_was_read (has_read next) = next

module _ {A : Type 0} where
  -- A pointer to an element is followed.
  abbrev pub follow : Option (Element A) → Run (Element A)
  follow none = stop use_after_free
  follow (some e) = ok e

  -- `Add` until the exchange of the head. A thread does one call at a time.
  unfoldable pub exchange_head : System A → ℕ → A → Option (ℕ × ℕ) → System A
  exchange_head s t entry (some busy) = s
  exchange_head s t entry none = record s {
    heap = put s.heap s.fresh (some (record { value = some entry; next = none }));
    head = s.fresh;
    fresh = suc s.fresh;
    adding = put s.adding t (some (s.head, s.fresh));
    added = s.added ++ entry ∷ [];
  }

  -- `headBefore->next.store(newElem)`
  unfoldable pub link_next : System A → ℕ → Option (ℕ × ℕ) → Run (System A)
  link_next s t none = ok s
  link_next s t (some (head_before, new_elem)) = do
    e ← follow (s.heap head_before)
    ok (record s {
      heap = put s.heap head_before (some (record { value = e.value; next = some new_elem }));
      adding = put s.adding t none;
    })

  abbrev pub listed : Option A → List A
  listed none = []
  listed (some v) = v ∷ []

  -- A null value makes the loop go on.
  abbrev pub found : Option A → Option (Option A)
  found none = none
  found (some v) = some (some v)

  -- The loads of `Remove`.
  unfoldable pub read_next : System A → Run (System A)
  read_next s = do e ← follow (s.heap s.tail); ok (record s { consumer = has_read e.next })

  -- What `Remove` does next: it moves the tail and takes the value of the element that it deletes,
  -- or takes the value of the element that stays. `none` as the result is another round of the loop.
  unfoldable pub take_value : System A → Option ℕ → Run (Option (Option A) × System A)
  take_value s (some next) = do
    e ← follow (s.heap s.tail)
    ok (
      found e.value,
      record s {
        heap = put s.heap s.tail none;
        tail = next;
        consumer = reading;
        removed = s.removed ++ listed e.value;
      },
    )
  take_value s none = do
    e ← follow (s.heap s.tail)
    ok (
      some e.value,
      record s {
        heap = put s.heap s.tail (some (record { value = none; next = e.next }));
        consumer = reading;
        removed = s.removed ++ listed e.value;
      },
    )

  unfoldable pub read_if : System A → Consumer → Run (System A)
  unfolding read_next
  read_if s reading = read_next s
  read_if s (has_read next) = ok s

  unfoldable pub consume : System A → Consumer → Run (System A)
  unfolding take_value
  consume s reading = ok s
  consume s (has_read next) = do r ← take_value s next; ok r.1

  unfoldable pub step : Step A → System A → Run (System A)
  unfolding exchange_head link_next read_if consume
  step (exchange t entry) s = ok (exchange_head s t entry (s.adding t))
  step (link t) s = link_next s t (s.adding t)
  step read s = read_if s s.consumer
  step take_next s = consume s s.consumer

  unfoldable pub steps : List (Step A) → System A → Run (System A)
  unfolding step
  steps [] s = ok s
  steps (e ∷ es) s = do s' ← step e s; steps es s'

  -- `Remove` while no other thread takes a step; the fuel bounds the rounds.
  abbrev pub go_on :
      (System A → Run (Option A × System A))
      → Option (Option A) × System A
      → Run (Option A × System A)
  go_on again (none, s) = again s
  go_on again (some v, s) = ok (v, s)

  unfoldable pub remove : ℕ → System A → Run (Option A × System A)
  unfolding read_next take_value
  remove zero s = stop no_return
  remove (suc n) s = do
    s' ← read_next s
    r ← take_value s' (what_was_read s'.consumer)
    go_on (remove n) r

  -- `IsEmpty`, while no other thread takes a step.
  abbrev pub is_null : Option A → Bool
  is_null none = true
  is_null (some v) = false

  unfoldable pub is_empty : System A → Run Bool
  is_empty s = do e ← follow (s.heap s.tail); ok (s.tail == s.head && is_null e.value)

-- `LockedQueue`, which the tests compare with: the entries, the next one to be removed first. `Add`
-- and `Remove` hold the lock.
unfoldable pub add_locked : {A : Type 0} → List A → A → List A
add_locked queue entry = queue ++ entry ∷ []

unfoldable pub remove_locked : {A : Type 0} → List A → Option A × List A
remove_locked [] = (none, [])
remove_locked (value ∷ queue) = (some value, queue)
