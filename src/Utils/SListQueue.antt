-- ===== src/Utils/SListQueue.antt =====
-- The other queue of 3FD/utils_lockfreequeue.h, `Win32ApiWrappers::LockFreeQueue`, on an `SLIST` of
-- Windows: a stack that is pushed on, and is flushed as a whole.
pub mod Order
mod Examples
use fd.Base.{
  ℕ, suc, ◌+◌, ltb, Bool, true, false, List, [], ◌∷◌, ◌++◌, if◌then◌else◌, Run, ok, stop,
  null_pointer, ◌>>=◌, length,
}

-- `m_front`, the last item pushed first, and `m_itemsCount`.
pub record SListQueue (A : Type 0) : Type 0 where
  pub front : List A
  pub items_count : ℕ

abbrev pub new_slist_queue : {A : Type 0} → SListQueue A
new_slist_queue = record { front = []; items_count = 0 }

module _ {A : Type 0} where
  -- `Push` in its two steps: the item is pushed, and then the count is raised.
  unfoldable pub push_entry : List A → A → List A
  push_entry front item = item ∷ front

  unfoldable pub push : SListQueue A → A → SListQueue A
  unfolding push_entry
  push q item = record { front = push_entry q.front item; items_count = q.items_count + 1 }

  unfoldable pub push_entries : List A → List A → List A
  unfolding push_entry
  push_entries front [] = front
  push_entries front (item ∷ items) = push_entries (push_entry front item) items

  unfoldable pub push_all : SListQueue A → List A → SListQueue A
  unfolding push
  push_all q [] = q
  push_all q (item ∷ items) = push_all (push q item) items

  -- The vector that serves as a stack: it is filled from the front, which must not be null.
  unfoldable pub fill_stack : List A → List A → Run (List A)
  fill_stack stack [] = stop null_pointer
  fill_stack stack (item ∷ []) = ok (item ∷ stack)
  fill_stack stack (item ∷ more ∷ next) = fill_stack (item ∷ stack) (more ∷ next)

-- `S` is what the callback changes.
module _ {A S : Type 0} (callback : S → A → S) where
  -- `IterateRecursiveForEach`: the items behind the front come first.
  unfoldable pub iterate_recursive_for_each : List A → S → S × ℕ
  iterate_recursive_for_each [] state = (state, 0)
  iterate_recursive_for_each (item ∷ next) state =
      let rest = iterate_recursive_for_each next state in (callback rest.0 item, 1 + rest.1)

  -- `std::for_each` over the stack, from its top: the head of the list.
  unfoldable pub call_each : List A → S → S
  call_each [] state = state
  call_each (item ∷ stack) state = call_each stack (callback state item)

  unfoldable pub iterate_flushed : List A → ℕ → S → Run (S × ℕ)
  unfolding iterate_recursive_for_each fill_stack call_each
  iterate_flushed front size state =
      if ltb size 128
      then ok (iterate_recursive_for_each front state)
      else (do stack ← fill_stack [] front; ok (call_each stack state, length stack))

  -- `ForEach`: the list is flushed, and then the count is read and reset. Between the two, other
  -- threads push the items `pushed`, and raise the count by `raised`. The result is what the callback
  -- changed, the count of the items that were flushed, and the queue.
  unfoldable pub for_each : SListQueue A → List A → ℕ → S → Run ((S × ℕ) × SListQueue A)
  unfolding iterate_flushed push_entries
  for_each q pushed raised state = do
    r ← iterate_flushed q.front (q.items_count + raised) state
    ok (r, record { front = push_entries [] pushed; items_count = 0 })
