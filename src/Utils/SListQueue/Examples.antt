-- ===== src/Utils/SListQueue/Examples.antt =====
-- Runs of `ForEach` of 3FD/utils_lockfreequeue.h.
use fd.Base.{ℕ, ◌+◌, ◌*◌, ◌≡◌, List, [], ◌∷◌, replicate, length, ok, stop, null_pointer, arith}
use fd.Utils.SListQueue.{new_slist_queue, push_all, push_entries, call_each, for_each}
use fd.Utils.SListQueue.Order.{for_each-Chronological, for_each-overtaken}

-- The callback reads the items as digits.
abbrev digits : ℕ → ℕ → ℕ
digits n d = n * 10 + d

for_each-Chronological_example :
    for_each digits (push_all new_slist_queue (1 ∷ 2 ∷ 3 ∷ [])) (4 ∷ 5 ∷ []) 1 0
    ≡ ok (
      (call_each digits (1 ∷ 2 ∷ 3 ∷ []) 0, 3),
      record { front = push_entries [] (4 ∷ 5 ∷ []); items_count = 0 },
    )
for_each-Chronological_example =
    for_each-Chronological digits (1 ∷ 2 ∷ 3 ∷ []) (4 ∷ 5 ∷ []) 1 0 (omega arith)

abbrev many_items : List ℕ
many_items = replicate 200 7

for_each-overtaken_example :
    for_each digits new_slist_queue many_items (length many_items) 0 ≡ stop null_pointer
for_each-overtaken_example = for_each-overtaken digits many_items 0 (omega arith)
