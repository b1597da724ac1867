-- ===== src/Utils/SListQueue/Order.antt =====
-- In what order `ForEach` of 3FD/utils_lockfreequeue.h gives the items to the callback.
use fd.Base.{
  ℕ, ◌+◌, ◌≡◌, ◌≤◌, inl, inr, refl, ap, sym, ◌∙◌, ltb, false, List, [], ◌∷◌, ◌++◌, length,
  Bool-cases, ok, stop, null_pointer, arith,
}
use fd.Utils.SListQueue.{
  SListQueue, new_slist_queue, push_entry, push_entries, push, push_all, fill_stack,
  iterate_recursive_for_each, call_each, iterate_flushed, for_each,
}

module _ {A : Type 0} where
  push_entries-front :
      (front items : List A) (n : ℕ)
      → (push_all (record { front = front; items_count = n }) items).front
        ≡ push_entries front items
  unfolding push_all push push_entries push_entry
  push_entries-front front [] n = refl
  push_entries-front front (item ∷ items) n = push_entries-front (item ∷ front) items (n + 1)

  -- Reading a flushed list backwards gives the items in the order in which they were pushed.
  -- Reading a flushed list backwards gives the items in the order in which they were pushed.
  push_entries-twice :
      (l stack front : List A)
      → push_entries stack (push_entries front l) ≡ push_entries (l ++ stack) front
  unfolding push_entries push_entry
  push_entries-twice [] stack front = refl
  push_entries-twice (x ∷ l) stack front = push_entries-twice l stack (x ∷ front)

  append_nil : (l : List A) → l ++ [] ≡ l
  append_nil [] = refl
  append_nil (x ∷ l) = ap (λ t. x ∷ t) (append_nil l)

  push_entries-back : (items : List A) → push_entries [] (push_entries [] items) ≡ items
  unfolding push_entries
  push_entries-back items = push_entries-twice items [] [] ∙ append_nil items

  length-push_entries :
      (front items : List A) → length (push_entries front items) ≡ length front + length items
  unfolding push_entries push_entry
  length-push_entries front [] = omega arith
  length-push_entries front (x ∷ items) =
      let e = length-push_entries (x ∷ front) items in omega arith

  length-reversed : (items : List A) → length (push_entries [] items) ≡ length items
  length-reversed items = let e = length-push_entries [] items in omega arith

  fill_stack-push_entries :
      (stack front : List A)
      → 1 ≤ length front
      → fill_stack stack front ≡ ok (push_entries stack front)
  unfolding fill_stack push_entries push_entry
  fill_stack-push_entries stack [] h = ground arith
  fill_stack-push_entries stack (item ∷ []) h = refl
  fill_stack-push_entries stack (item ∷ more ∷ next) h =
      fill_stack-push_entries (item ∷ stack) (more ∷ next) (omega arith)

module _ {A S : Type 0} (callback : S → A → S) where
  call_each-iterate :
      (front stack : List A) (state : S)
      → call_each callback (push_entries stack front) state
        ≡ call_each callback stack (iterate_recursive_for_each callback front state).0
  unfolding call_each push_entries push_entry iterate_recursive_for_each
  call_each-iterate [] stack state = refl
  call_each-iterate (x ∷ front) stack state = call_each-iterate front (x ∷ stack) state

  iterate-length :
      (front : List A) (state : S)
      → (iterate_recursive_for_each callback front state).1 ≡ length front
  unfolding iterate_recursive_for_each
  iterate-length [] state = refl
  iterate-length (x ∷ front) state = let e = iterate-length front state in omega arith

  iterate_lem :
      (front : List A) (state : S)
      → iterate_recursive_for_each callback front state
        ≡ (call_each callback (push_entries [] front) state, length front)
  unfolding call_each
  iterate_lem front state =
      let e = call_each-iterate front [] state in
      let n = iterate-length front state in λ i. (sym e i, n i)

  iterate_flushed_lem :
      (front : List A) (size : ℕ) (state : S)
      → 1 ≤ length front
      → iterate_flushed callback front size state
        ≡ ok (call_each callback (push_entries [] front) state, length front)
  unfolding iterate_flushed
  iterate_flushed_lem front size state some_item = elim (Bool-cases (ltb size 128)) [
    | inl few ↦ rw (few) (ap ok (iterate_lem front state))
    | inr many ↦
        rw (many, fill_stack-push_entries [] front some_item)
          (ap (λ n. ok (call_each callback (push_entries [] front) state, n))
            (length-reversed front))
  ]

  -- `ForEach`, when at least one item was pushed, gives the items that were pushed before it to the
  -- callback in the order in which they were pushed, and returns how many there were, whichever of
  -- its two loops it takes. What is pushed meanwhile stays in the queue, but is not counted any more.
  pub for_each-Chronological :
      (items pushed : List A) (raised : ℕ) (state : S)
      → 1 ≤ length items
      → for_each callback (push_all new_slist_queue items) pushed raised state
        ≡ ok (
          (call_each callback items state, length items),
          record { front = push_entries [] pushed; items_count = 0 },
        )
  unfolding for_each
  for_each-Chronological items pushed raised state some_item =
      let q : SListQueue A = push_all new_slist_queue items in
      let front : q.front ≡ push_entries [] items = push_entries-front [] items 0 in
      let many : length q.front ≡ length items = ap length front ∙ length-reversed items in
      let run = iterate_flushed_lem q.front (q.items_count + raised) state (omega arith) in
      let back : push_entries [] q.front ≡ items =
        ap (push_entries []) front ∙ push_entries-back items in
      rw (run, back, many) refl

  -- When the queue is empty, and other threads push as many as 128 items after `ForEach` has flushed
  -- it and before it reads the count, `ForEach` follows a null pointer.
  pub for_each-overtaken :
      (pushed : List A) (state : S)
      → 128 ≤ length pushed
      → for_each callback new_slist_queue pushed (length pushed) state ≡ stop null_pointer
  unfolding for_each iterate_flushed fill_stack
  for_each-overtaken pushed state many =
      let big : ltb (0 + length pushed) 128 ≡ false = ground arith in rw (big) refl
