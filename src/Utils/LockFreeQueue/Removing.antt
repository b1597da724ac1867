-- ===== src/Utils/LockFreeQueue/Removing.antt =====
-- The steps of `Remove` of 3FD/utils_lockfreequeue.h keep the invariant.
use fd.Base.{
  ℕ, ◌≡◌, ◌≤◌, inl, inr, refl, ap, sym, ◌∙◌, subst, Option, none, some, List, [], ◌∷◌, ◌++◌,
  get_elem?, arith, Returns,
}
use fd.Utils.LockFreeQueue.{Element, System, put, reading, has_read, listed, read_next}
use fd.Utils.LockFreeQueue.Invariant.{
  take, take-suc, get_elem?-exists, put-same, put-other, put-cases, NextFits, FrontFits,
  ConsumerFits, IsQueue,
}

pub append_nil : {A : Type 0} (l : List A) → l ++ [] ≡ l
append_nil [] = refl
append_nil (x ∷ l) = ap (λ t. x ∷ t) (append_nil l)

module _ {A : Type 0} (s : System A) where
  -- The tail is deleted, and its value taken.
  abbrev pub moved : ℕ → Element A → System A
  moved n e = record s {
    heap = put s.heap s.tail none;
    tail = n;
    consumer = reading;
    removed = s.removed ++ listed e.value;
  }

  -- The tail stays, and its value is taken.
  abbrev pub emptied : Element A → System A
  emptied e = record s {
    heap = put s.heap s.tail (some (record { value = none; next = e.next }));
    consumer = reading;
    removed = s.removed ++ listed e.value;
  }

module _ {A : Type 0} (s : System A) (inv : IsQueue s) where
  -- After the value of the tail was taken, all the entries up to the tail were.
  taken_all :
      (value : Option A) → FrontFits s value → s.removed ++ listed value ≡ take s.tail s.added
  taken_all none (inl (gone, so_far)) = append_nil s.removed ∙ so_far
  taken_all none (inr (j, is, there, so_far)) =
      let m = inv.as_many in
      let o = inv.in_order in let (v, at_j) = get_elem?-exists s.added j (omega arith) in absurd cc
  taken_all (some v) (inl (gone, so_far)) = absurd cc
  taken_all (some v) (inr (j, is, there, so_far)) =
      ap (λ l. l ++ v ∷ []) so_far
      ∙ sym (take-suc s.added j v (sym there))
      ∙ ap (λ n. take n s.added) (sym is)

  has_read-Fits :
      (e : Element A) (o : Option ℕ)
      → s.heap s.tail ≡ some e
      → e.next ≡ o
      → NextFits s s.tail o
      → ConsumerFits s (has_read o)
  has_read-Fits e none live is fits = tt
  has_read-Fits e (some n) live is (inl (linked, below)) = (cc, below, (e, live, is))
  has_read-Fits e (some n) live is (inr (alone, why)) = absurd cc

  pub read_next-IsQueue : Returns (read_next s) λ s'.
      IsQueue s'
      × ((o : Option ℕ) × (s' ≡ record s { consumer = has_read o }) × NextFits s s.tail o)
  unfolding read_next
  read_next-IsQueue =
      let (e, live, next, value) = inv.nodes s.tail (omega arith) inv.in_order in
      (
        record s { consumer = has_read e.next },
        rw (live) refl,
        (
          record {
            fresh_is = inv.fresh_is;
            in_order = inv.in_order;
            as_many = inv.as_many;
            nodes = inv.nodes;
            front = inv.front;
            writers = inv.writers;
            unique = inv.unique;
            at_consumer = has_read-Fits e e.next live refl next;
          },
          (e.next, refl, next),
        ),
      )

  module _ (n : ℕ) (fits : ConsumerFits s (has_read (some n))) where
    kept_node : (e : Element A) (k : ℕ) → n ≤ k → (moved s n e).heap k ≡ s.heap k
    kept_node e k h =
        let (is, below, node) = fits in put-other s.heap s.tail k none (λ same. ground arith)

    pub moved-IsQueue : (e : Element A) → s.heap s.tail ≡ some e → IsQueue (moved s n e)
    moved-IsQueue e live =
        let (is, below, (d, live_d, next)) = fits in
        record {
          fresh_is = inv.fresh_is;
          in_order = omega arith;
          as_many = inv.as_many;
          nodes = λ k low high.
              let (old, live', next', value) = inv.nodes k (omega arith) high in
              (old, kept_node e k low ∙ live', next', λ j suc_j above. value j suc_j (omega arith));
          front = λ f h.
              let (old, live', next', value) = inv.nodes n (omega arith) (omega arith) in
              let same : old ≡ f =
                let r = sym live' ∙ sym (kept_node e n (omega arith)) ∙ h in cc in
              inr (
                s.tail,
                is,
                subst (λ d. d.value ≡ get_elem? s.added s.tail) same
                    (value s.tail is (omega arith)),
                taken_all e.value (inv.front e live),
              );
          writers = λ t a b h.
              let (is_b, low, high, (node, live', alone)) = inv.writers t a b h in
              let behind : ¬ (a ≡ s.tail) = λ same. absurd (
                let r = sym live' ∙ ap s.heap same ∙ live_d in
                let same_node : node ≡ d = cc in cc) in
              let low' : n ≤ a = ground arith in
              (is_b, low', high, (node, kept_node e a low' ∙ live', alone));
          unique = inv.unique;
          at_consumer = tt;
        }

  pub emptied-IsQueue : (e : Element A) → s.heap s.tail ≡ some e → IsQueue (emptied s e)
  emptied-IsQueue e live =
      let hollow : Element A = record { value = none; next = e.next } in
      record {
        fresh_is = inv.fresh_is;
        in_order = inv.in_order;
        as_many = inv.as_many;
        nodes = λ k low high.
            let (old, live', next', value) = inv.nodes k low high in
            elim (put-cases s.heap s.tail k (some hollow)) [
              | inl (same, here) ↦
                  let same_node : old ≡ e = let r = sym live' ∙ ap s.heap same ∙ live in cc in
                  (
                    hollow,
                    here,
                    subst (λ d. NextFits s k d.next) same_node next',
                    λ j suc_j above. ground arith,
                  )
              | inr (other, kept) ↦ (old, kept ∙ live', next', value)
            ];
        front = λ f h.
            let same : hollow ≡ f = let r = sym (put-same s.heap s.tail (some hollow)) ∙ h in cc in
            inl (sym (ap (λ d. d.value) same), taken_all e.value (inv.front e live));
        writers = λ t a b h.
            let (is_b, low, high, (node, live', alone)) = inv.writers t a b h in
            elim (put-cases s.heap s.tail a (some hollow)) [
              | inl (same, here) ↦
                  let same_node : node ≡ e = let r = sym live' ∙ ap s.heap same ∙ live in cc in
                  (is_b, low, high, (hollow, here, subst (λ d. d.next ≡ none) same_node alone))
              | inr (other, kept) ↦ (is_b, low, high, (node, kept ∙ live', alone))
            ];
        unique = inv.unique;
        at_consumer = tt;
      }
