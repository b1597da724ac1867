-- ===== src/Utils/LockFreeQueue/Invariant.antt =====
-- The invariant of the lock-free queue of 3FD/utils_lockfreequeue.h. The elements from the tail to
-- the head have addresses in a row, for an address is not used again.
use fd.Base.{
  ℕ, zero, suc, ◌≡◌, ◌≤◌, ◌<◌, ◌⊎◌, inl, inr, refl, ap, subst, ◌==◌, ==_iff, true, Option, none,
  some, List, [], ◌∷◌, ◌++◌, length, get_elem?, Bool-cases, arith,
}
use fd.Utils.LockFreeQueue.{Element, System, put, Consumer, has_read, new_lock_free_queue}

abbrev pub take : {A : Type 0} → ℕ → List A → List A
take zero l = []
take (suc n) [] = []
take (suc n) (x ∷ l) = x ∷ take n l

module _ {A : Type 0} where
  pub get_elem?-append :
      (l : List A) (x : A) (i : ℕ) → i < length l → get_elem? (l ++ x ∷ []) i ≡ get_elem? l i
  get_elem?-append [] x i h = ground arith
  get_elem?-append (y ∷ l) x zero h = refl
  get_elem?-append (y ∷ l) x (suc i) h = get_elem?-append l x i (omega arith)

  pub get_elem?-last : (l : List A) (x : A) → get_elem? (l ++ x ∷ []) (length l) ≡ some x
  get_elem?-last [] x = refl
  get_elem?-last (y ∷ l) x = get_elem?-last l x

  pub take-append : (l : List A) (x : A) (n : ℕ) → n ≤ length l → take n (l ++ x ∷ []) ≡ take n l
  take-append l x zero h = refl
  take-append [] x (suc n) h = ground arith
  take-append (y ∷ l) x (suc n) h = ap (λ t. y ∷ t) (take-append l x n (omega arith))

  pub take-suc :
      (l : List A) (n : ℕ) (v : A) → get_elem? l n ≡ some v → take (suc n) l ≡ take n l ++ v ∷ []
  take-suc [] n v h = absurd cc
  take-suc (y ∷ l) zero v h = let e : y ≡ v = cc in rw (e) refl
  take-suc (y ∷ l) (suc n) v h = ap (λ t. y ∷ t) (take-suc l n v h)

  pub get_elem?-exists : (l : List A) (n : ℕ) → n < length l → (v : A) × (get_elem? l n ≡ some v)
  get_elem?-exists [] n h = ground arith
  get_elem?-exists (y ∷ l) zero h = (y, refl)
  get_elem?-exists (y ∷ l) (suc n) h = get_elem?-exists l n (omega arith)

pub put-same : {V : Type 0} (m : ℕ → V) (a : ℕ) (v : V) → put m a v a ≡ v
put-same m a v = let t : (a == a) ≡ true = (==_iff a a).1 refl in rw (t) refl

pub put-other : {V : Type 0} (m : ℕ → V) (a k : ℕ) (v : V) → ¬ (k ≡ a) → put m a v k ≡ m k
put-other m a k v other = elim (Bool-cases (k == a)) [
  | inl same ↦ absurd (other ((==_iff k a).0 same))
  | inr differs ↦ rw (differs) refl
]

pub put-cases :
    {V : Type 0} (m : ℕ → V) (a k : ℕ) (v : V)
    → ((k ≡ a) × (put m a v k ≡ v)) ⊎ ((¬ (k ≡ a)) × (put m a v k ≡ m k))
put-cases m a k v = elim (Bool-cases (k == a)) [
  | inl same ↦ inl ((==_iff k a).0 same, rw (same) refl)
  | inr differs ↦
      inr (λ e. absurd (let t : (k == a) ≡ true = (==_iff k a).1 e in cc), rw (differs) refl)
]

module _ {A : Type 0} where
  -- The successor is linked, or its thread is about to link it, or there is none.
  abbrev pub NextFits : System A → ℕ → Option ℕ → Type 0
  NextFits s k next =
      ((next ≡ some (suc k)) × (k < s.head))
      ⊎ ((next ≡ none) × ((k ≡ s.head) ⊎ ((t : ℕ) × (s.adding t ≡ some (k, suc k)))))

  -- The value of an element behind the tail is the entry that was added.
  abbrev pub ValueFits : System A → ℕ → Option A → Type 0
  ValueFits s k value = (j : ℕ) → k ≡ suc j → s.tail ≤ j → value ≡ get_elem? s.added j

  -- The value of the tail was removed, or it is the next to be removed.
  abbrev pub FrontFits : System A → Option A → Type 0
  FrontFits s value =
      ((value ≡ none) × (s.removed ≡ take s.tail s.added))
      ⊎ ((j : ℕ) × (s.tail ≡ suc j) × (value ≡ get_elem? s.added j) × (s.removed ≡ take j s.added))

  abbrev pub IsNode : System A → ℕ → Type 0
  IsNode s k = (e : Element A) × (s.heap k ≡ some e) × NextFits s k e.next × ValueFits s k e.value

  abbrev pub ConsumerFits : System A → Consumer → Type 0
  ConsumerFits s (has_read (some n)) =
      (n ≡ suc s.tail)
      × (s.tail < s.head)
      × ((e : Element A) × (s.heap s.tail ≡ some e) × (e.next ≡ some n))
  ConsumerFits s _ = Unit

  pub record IsQueue (s : System A) : Type 0 where
    pub fresh_is : s.fresh ≡ suc s.head
    pub in_order : s.tail ≤ s.head
    pub as_many : length s.added ≡ s.head
    pub nodes : (k : ℕ) → s.tail ≤ k → k ≤ s.head → IsNode s k
    pub front : (e : Element A) → s.heap s.tail ≡ some e → FrontFits s e.value
    pub writers :
        (t a b : ℕ)
        → s.adding t ≡ some (a, b)
        → (b ≡ suc a)
          × (s.tail ≤ a)
          × (b ≤ s.head)
          × ((e : Element A) × (s.heap a ≡ some e) × (e.next ≡ none))
    pub unique : (t u a b c : ℕ) → s.adding t ≡ some (a, b) → s.adding u ≡ some (a, c) → t ≡ u
    pub at_consumer : ConsumerFits s s.consumer

  pub new-IsQueue : IsQueue new_lock_free_queue
  new-IsQueue = record {
    fresh_is = refl;
    in_order = omega arith;
    as_many = refl;
    nodes = λ k low high.
        let e : 0 ≡ k = omega arith in
        subst (IsNode new_lock_free_queue) e (
          record { value = none; next = none },
          refl,
          inr (refl, inl refl),
          λ j is above. ground arith,
        );
    front = λ e h. inl (cc, refl);
    writers = λ t a b h. absurd cc;
    unique = λ t u a b c h k. absurd cc;
    at_consumer = tt;
  }
