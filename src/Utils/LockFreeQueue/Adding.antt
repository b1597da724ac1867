-- ===== src/Utils/LockFreeQueue/Adding.antt =====
-- The two steps of `Add` of 3FD/utils_lockfreequeue.h keep the invariant.
use fd.Base.{
  ℕ, suc, ◌≡◌, ◌≤◌, ◌<◌, inl, inr, refl, ap, sym, ◌∙◌, subst, Option, none, some, [], ◌∷◌, ◌++◌,
  length, length-append, get_elem?, arith, Returns,
}
use fd.Utils.LockFreeQueue.{
  Element, System, put, Consumer, reading, has_read, exchange_head, link_next,
}
use fd.Utils.LockFreeQueue.Invariant.{
  get_elem?-append, get_elem?-last, take-append, put-same, put-other, put-cases, NextFits,
  ValueFits, FrontFits, IsNode, ConsumerFits, IsQueue,
}

module _ {A : Type 0} (s : System A) (inv : IsQueue s) where
  -- The element at the head has no successor.
  pub at_head : (e : Element A) × (s.heap s.head ≡ some e) × (e.next ≡ none)
  at_head =
      let (e, live, next, value) = inv.nodes s.head inv.in_order (omega arith) in
      (e, live, elim next [ inl (linked, below) ↦ ground arith | inr (alone, why) ↦ alone ])

  module _ (t : ℕ) (entry : A) (idle : s.adding t ≡ none) where
    abbrev after : System A
    after = record s {
      heap = put s.heap s.fresh (some (record { value = some entry; next = none }));
      head = s.fresh;
      fresh = suc s.fresh;
      adding = put s.adding t (some (s.head, s.fresh));
      added = s.added ++ entry ∷ [];
    }

    older : (k : ℕ) → k ≤ s.head → after.heap k ≡ s.heap k
    older k h =
        put-other s.heap s.fresh k (some (record { value = some entry; next = none }))
          (λ e. let f = inv.fresh_is in ground arith)

    busy : (u a b : ℕ) → s.adding u ≡ some (a, b) → after.adding u ≡ some (a, b)
    busy u a b h = elim (put-cases s.adding t u (some (s.head, s.fresh))) [
      | inl (same, e) ↦ absurd cc
      | inr (other, e) ↦ e ∙ h
    ]

    older-NextFits : (k : ℕ) (next : Option ℕ) → NextFits s k next → NextFits after k next
    older-NextFits k next (inl (linked, below)) = let f = inv.fresh_is in inl (linked, omega arith)
    older-NextFits k next (inr (alone, inl last)) = inr (
      alone,
      inr (
        t,
        put-same s.adding t (some (s.head, s.fresh))
            ∙ ap (λ n. some (n, s.fresh)) (sym last)
            ∙ ap (λ n. some (k, n)) (inv.fresh_is ∙ ap suc (sym last)),
      ),
    )
    older-NextFits k next (inr (alone, inr (u, h))) = inr (alone, inr (u, busy u k (suc k) h))

    exchange-IsNode : (k : ℕ) → s.tail ≤ k → k ≤ s.fresh → IsNode after k
    exchange-IsNode k low high =
        elim (put-cases s.heap s.fresh k (some (record { value = some entry; next = none }))) [
          | inl (same, e) ↦ (
            record { value = some entry; next = none },
            e,
            inr (refl, inl same),
            λ j is above.
                let n : j ≡ length s.added =
                  let f = inv.fresh_is in let m = inv.as_many in omega arith in
                sym (get_elem?-last s.added entry) ∙ ap (get_elem? (s.added ++ entry ∷ [])) (sym n),
          )
          | inr (other, e) ↦
              let f = inv.fresh_is in
              let few : k ≤ s.head = ground arith in
              let (old, live, next, value) = inv.nodes k low few in
              (
                old,
                e ∙ live,
                older-NextFits k old.next next,
                λ j is above.
                    let m = inv.as_many in
                    value j is above ∙ sym (get_elem?-append s.added entry j (omega arith)),
              )
        ]

    exchange-FrontFits : (e : Element A) → FrontFits s e.value → FrontFits after e.value
    exchange-FrontFits e (inl (gone, so_far)) =
        let m = inv.as_many in
        let o = inv.in_order in
        inl (gone, so_far ∙ sym (take-append s.added entry s.tail (omega arith)))
    exchange-FrontFits e (inr (j, is, value, so_far)) =
        let m = inv.as_many in
        let o = inv.in_order in
        inr (
          j,
          is,
          value ∙ sym (get_elem?-append s.added entry j (omega arith)),
          so_far ∙ sym (take-append s.added entry j (omega arith)),
        )

    exchange_writers :
        (u a b : ℕ)
        → after.adding u ≡ some (a, b)
        → (b ≡ suc a)
          × (s.tail ≤ a)
          × (b ≤ s.fresh)
          × ((e : Element A) × (after.heap a ≡ some e) × (e.next ≡ none))
    exchange_writers u a b h = elim (put-cases s.adding t u (some (s.head, s.fresh))) [
      | inl (same, e) ↦
          let (node, live, alone) = at_head in
          let at_a : s.head ≡ a = cc in
          let at_b : s.fresh ≡ b = cc in
          let f = inv.fresh_is in
          let o = inv.in_order in
          (
            omega arith,
            omega arith,
            omega arith,
            (
              node,
              subst (λ n. after.heap n ≡ some node) at_a (older s.head (omega arith) ∙ live),
              alone,
            ),
          )
      | inr (other, e) ↦
          let (is, low, high, (node, live, alone)) = inv.writers u a b (sym e ∙ h) in
          let f = inv.fresh_is in
          (is, low, omega arith, (node, older a (omega arith) ∙ live, alone))
    ]

    -- The threads that were there are behind the head.
    behind : (u a b : ℕ) → s.adding u ≡ some (a, b) → a < s.head
    behind u a b h = let (is, low, high, node) = inv.writers u a b h in omega arith

    exchange_unique :
        (u v a b c : ℕ) → after.adding u ≡ some (a, b) → after.adding v ≡ some (a, c) → u ≡ v
    exchange_unique u v a b c h k = elim (put-cases s.adding t u (some (s.head, s.fresh))) [
      | inl (same, e) ↦ elim (put-cases s.adding t v (some (s.head, s.fresh))) [
        | inl (same', e') ↦ same ∙ sym same'
        | inr (other', e') ↦
            let at_a : s.head ≡ a = cc in let below = behind v a c (sym e' ∙ k) in ground arith
      ]
      | inr (other, e) ↦ elim (put-cases s.adding t v (some (s.head, s.fresh))) [
        | inl (same', e') ↦
            let at_a : s.head ≡ a = cc in let below = behind u a b (sym e ∙ h) in ground arith
        | inr (other', e') ↦ inv.unique u v a b c (sym e ∙ h) (sym e' ∙ k)
      ]
    ]

    exchange-ConsumerFits : (o : Consumer) → ConsumerFits s o → ConsumerFits after o
    exchange-ConsumerFits reading h = tt
    exchange-ConsumerFits (has_read none) h = tt
    exchange-ConsumerFits (has_read (some n)) (is, below, (e, live, next)) =
        let f = inv.fresh_is in (is, omega arith, (e, older s.tail (omega arith) ∙ live, next))

    after-IsQueue : IsQueue after
    after-IsQueue = record {
      fresh_is = refl;
      in_order = let f = inv.fresh_is in let o = inv.in_order in omega arith;
      as_many =
          length-append s.added (entry ∷ [])
          ∙ (let m = inv.as_many in let f = inv.fresh_is in omega arith);
      nodes = exchange-IsNode;
      front = λ e h. exchange-FrontFits e (inv.front e (sym (older s.tail inv.in_order) ∙ h));
      writers = exchange_writers;
      unique = exchange_unique;
      at_consumer = exchange-ConsumerFits s.consumer inv.at_consumer;
    }

  pub exchange_head-IsQueue :
      (t : ℕ) (entry : A) (o : Option (ℕ × ℕ))
      → s.adding t ≡ o
      → IsQueue (exchange_head s t entry o)
  unfolding exchange_head
  exchange_head-IsQueue t entry none idle = after-IsQueue t entry idle
  exchange_head-IsQueue t entry (some busy) h = inv

  module _ (t a b : ℕ) (at_t : s.adding t ≡ some (a, b)) (e : Element A) (live : s.heap a ≡ some e)
      (alone : e.next ≡ none) where
    abbrev linked : Element A
    linked = record { value = e.value; next = some b }

    abbrev then_linked : System A
    then_linked = record s { heap = put s.heap a (some linked); adding = put s.adding t none }

    others :
        (u k : ℕ)
        → ¬ (k ≡ a)
        → s.adding u ≡ some (k, suc k)
        → then_linked.adding u ≡ some (k, suc k)
    others u k other h = elim (put-cases s.adding t u none) [
      | inl (same, put_none) ↦ absurd (other (let r = sym h ∙ ap s.adding same ∙ at_t in cc))
      | inr (differs, kept) ↦ kept ∙ h
    ]

    link-NextFits :
        (k : ℕ) (next : Option ℕ) → ¬ (k ≡ a) → NextFits s k next → NextFits then_linked k next
    link-NextFits k next other (inl fits) = inl fits
    link-NextFits k next other (inr (none_yet, inl last)) = inr (none_yet, inl last)
    link-NextFits k next other (inr (none_yet, inr (u, h))) =
        inr (none_yet, inr (u, others u k other h))

    link-IsNode : (k : ℕ) → s.tail ≤ k → k ≤ s.head → IsNode then_linked k
    link-IsNode k low high = elim (put-cases s.heap a k (some linked)) [
      | inl (same, here) ↦
          let (is, above, below, node) = inv.writers t a b at_t in
          let (old, live', next, value) = inv.nodes k low high in
          let same_node : old ≡ e = cc in
          let n : b ≡ suc k = omega arith in
          (
            linked,
            here,
            inl (ap some n, omega arith),
            subst (λ d. ValueFits s k d.value) same_node value,
          )
      | inr (other, kept) ↦
          let (old, live', next, value) = inv.nodes k low high in
          (old, kept ∙ live', link-NextFits k old.next other next, value)
    ]

    link-FrontFits : (d : Element A) → then_linked.heap s.tail ≡ some d → FrontFits s d.value
    link-FrontFits d h = elim (put-cases s.heap a s.tail (some linked)) [
      | inl (same, here) ↦
          let is : linked ≡ d = cc in
          subst (λ d. FrontFits s d.value) is (inv.front e (ap s.heap same ∙ live))
      | inr (other, kept) ↦ inv.front d (sym kept ∙ h)
    ]

    still_adding : (u : ℕ) (o : ℕ × ℕ) → then_linked.adding u ≡ some o → s.adding u ≡ some o
    still_adding u o h = elim (put-cases s.adding t u none) [
      | inl (same, put_none) ↦ absurd cc
      | inr (differs, kept) ↦ sym kept ∙ h
    ]

    -- No other thread follows the same element.
    twice : (u c d : ℕ) → then_linked.adding u ≡ some (c, d) → c ≡ a → ⊥
    twice u c d h same = elim (put-cases s.adding t u none) [
      | inl (same_thread, put_none) ↦ absurd cc
      | inr (differs, kept) ↦
          differs (inv.unique u t a d b (sym kept ∙ h ∙ ap (λ n. some (n, d)) same) at_t)
    ]

    link_writers :
        (u c d : ℕ)
        → then_linked.adding u ≡ some (c, d)
        → (d ≡ suc c)
          × (s.tail ≤ c)
          × (d ≤ s.head)
          × ((k : Element A) × (then_linked.heap c ≡ some k) × (k.next ≡ none))
    link_writers u c d h =
        let (is, low, high, (node, live', alone')) = inv.writers u c d (still_adding u (c, d) h) in
        (
          is,
          low,
          high,
          (node, put-other s.heap a c (some linked) (λ same. twice u c d h same) ∙ live', alone'),
        )

    link-ConsumerFits : (o : Consumer) → ConsumerFits s o → ConsumerFits then_linked o
    link-ConsumerFits reading h = tt
    link-ConsumerFits (has_read none) h = tt
    link-ConsumerFits (has_read (some n)) (is, below, (d, live', next)) = (
      is,
      below,
      (
        d,
        put-other s.heap a s.tail (some linked)
              (λ same. absurd (let at_a = ap s.heap same in let r : d ≡ e = cc in cc))
            ∙ live',
        next,
      ),
    )

    linked-IsQueue : IsQueue then_linked
    linked-IsQueue = record {
      fresh_is = inv.fresh_is;
      in_order = inv.in_order;
      as_many = inv.as_many;
      nodes = link-IsNode;
      front = link-FrontFits;
      writers = link_writers;
      unique =
          λ u v c d f h k. inv.unique u v c d f (still_adding u (c, d) h) (still_adding v (c, f) k);
      at_consumer = link-ConsumerFits s.consumer inv.at_consumer;
    }

  pub link_next-IsQueue :
      (t : ℕ) (o : Option (ℕ × ℕ)) → s.adding t ≡ o → Returns (link_next s t o) IsQueue
  unfolding link_next
  link_next-IsQueue t none h = (s, refl, inv)
  link_next-IsQueue t (some (a, b)) h =
      let (is, low, high, (e, live, alone)) = inv.writers t a b h in
      (
        record s {
          heap = put s.heap a (some (record { value = e.value; next = some b }));
          adding = put s.adding t none;
        },
        rw (live) refl,
        linked-IsQueue t a b h e live alone,
      )
