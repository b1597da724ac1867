-- ===== src/Utils/MemoryPool/Blocks.antt =====
-- The blocks of a `MemoryPool` (3FD/utils_memorypool.cpp): each is free or lent, never twice.
use fd.Base.{
  ℕ, ◌+◌, ◌-◌, ◌*◌, ◌/◌, ◌%◌, ◌^◌, ◌≡◌, refl, true, false, Option, none, some, List, [], ◌∷◌,
  Returns, ltb, leb, ◌==◌, if◌then◌else◌, length, count, arith, ap, ◌<◌, ◌≤◌, ◌↔◌, Bool-cases, inl,
  inr, ◌⊎◌,
}
use fd.Utils.MemoryPool.{
  MemoryPool, int_product, new_memory_pool, get_num_blocks, contains, is_full, is_empty,
  get_free_block, return_block, is_nil, take_block,
}

-- `n` blocks, of which the first `used` were given out before; of these each is on the stack or
-- among `lent`, exactly once.
pub record IsValid (p : MemoryPool) (n used : ℕ) (lent : List ℕ) : Type 0 where
  pub sized : 0 < p.block_size
  pub small : n < 2 ^ 16
  pub reached : p.next ≡ p.base + used * p.block_size
  pub bounded : p.end ≡ p.base + n * p.block_size
  pub within : used ≤ n
  pub once : (i : ℕ) → count i p.available + count i lent ≡ (if ltb i used then 1 else 0)
  pub all : length p.available + length lent ≡ used

-- The constructor gives a valid pool with nothing lent, when the allocation succeeds, the size of
-- the pool in bytes is positive and fits into an `int`, and its count of blocks has 16 bits.
pub new_memory_pool-IsValid :
    (chunk n block_size : ℕ)
    → 0 < n * block_size
    → n < 2 ^ 16
    → n * block_size < 2 ^ 31
    → Returns (new_memory_pool (some chunk) n block_size) λ p. IsValid p n 0 []
unfolding new_memory_pool int_product
new_memory_pool-IsValid chunk n block_size pos small sized_int =
    let int : leb (2 ^ 31) (n * block_size) ≡ false = ground arith in
    let test : ltb 0 (n * block_size) ≡ true = ground arith in
    (
      record {
        base = chunk;
        next = chunk;
        end = chunk + n * block_size;
        block_size = block_size;
        available = [];
      },
      rw (int, test),
      record {
        sized = grind arith;
        small = small;
        reached = omega arith;
        bounded = refl;
        within = omega arith;
        once = λ i. ground arith;
        all = refl;
      },
    )

-- What a call of `GetFreeBlock` did: it lent a block that was not lent, or nothing was free.
abbrev pub Lends : MemoryPool → ℕ → ℕ → List ℕ → Option ℕ × MemoryPool → Type 0
Lends p n used lent (some addr, q) =
    (i : ℕ) × (used' : ℕ) × (addr ≡ p.base + i * p.block_size)
    × (i < n)
    × (count i lent ≡ 0)
    × (q.base ≡ p.base)
    × (q.block_size ≡ p.block_size)
    × IsValid q n used' (i ∷ lent)
Lends p n used lent (none, q) = (q ≡ p) × (length lent ≡ n) × (is_empty p ≡ true)

lt_of_mul : (a b s : ℕ) → a * s < b * s → a < b
lt_of_mul a b s h = grind arith

le_of_mul : (a b s : ℕ) → 0 < s → a * s ≤ b * s → a ≤ b
le_of_mul a b s pos h = grind arith

take_block-Lends :
    (p : MemoryPool) (n used : ℕ) (lent xs : List ℕ)
    → p.available ≡ xs
    → IsValid p n used lent
    → Lends p n used lent (take_block p xs)
unfolding take_block is_empty
take_block-Lends p n used lent (top ∷ rest) e v =
    let once = rw e at v.once in
    let all = rw e at v.all in
    let lent_once : count top lent ≡ 0 = ground (arith, once top) in
    let below : top < used = ground (arith, once top) in
    (
      top,
      used,
      refl,
      omega (arith, v.within),
      lent_once,
      refl,
      refl,
      record {
        sized = v.sized;
        small = v.small;
        reached = v.reached;
        bounded = v.bounded;
        within = v.within;
        once = λ i. omega (arith, once i);
        all = omega (arith, all);
      },
    )
take_block-Lends p n used lent [] e v = elim (Bool-cases (ltb p.next p.end)) [
  | inl more ↦
      let once = rw e at v.once in
      let all = rw e at v.all in
      let room : used < n = lt_of_mul used n p.block_size (ground (arith, v.reached, v.bounded)) in
      let fresh : count used lent ≡ 0 = ground (arith, once used) in
      rw more (
        used,
        used + 1,
        v.reached,
        room,
        fresh,
        refl,
        refl,
        record {
          sized = v.sized;
          small = v.small;
          reached = omega (arith, v.reached);
          bounded = v.bounded;
          within = omega arith;
          once = λ i. rw e (ground (arith, once i));
          all = rw e (omega (arith, all));
        },
      )
  | inr done ↦
      let all = rw e at v.all in
      let whole : n ≤ used =
        le_of_mul n used p.block_size v.sized (ground (arith, v.reached, v.bounded)) in
      let level : used ≡ n = omega (arith, v.within) in
      let met : p.next ≡ p.end = rw (v.reached, v.bounded, level) refl in
      rw done (refl, omega (arith, all), rw e (ground (arith, met)))
]

-- `GetFreeBlock` of a valid pool gives a block that is not lent and keeps the pool valid, with that
-- block lent, and fails only when all of them are lent.
pub get_free_block-Lends :
    (p : MemoryPool) (n used : ℕ) (lent : List ℕ)
    → IsValid p n used lent
    → Lends p n used lent (get_free_block p)
unfolding get_free_block
get_free_block-Lends p n used lent v = take_block-Lends p n used lent p.available refl v

div_block : (i s : ℕ) → 0 < s → i * s / s ≡ i
div_block i s h = grind arith

mul_lt : (i n s : ℕ) → i < n → 0 < s → i * s < n * s
mul_lt i n s h pos = grind arith

pub contains_lent :
    (p : MemoryPool) (n used i : ℕ) (lent : List ℕ)
    → IsValid p n used (i ∷ lent)
    → contains p (p.base + i * p.block_size) ≡ true
unfolding contains
contains_lent p n used i lent v =
    let below : i < used = ground (arith, v.once i) in
    let inside : i * p.block_size < n * p.block_size =
      mul_lt i n p.block_size (omega (arith, v.within)) v.sized in
    let low : leb p.base (p.base + i * p.block_size) ≡ true = ground arith in
    let high : ltb (p.base + i * p.block_size) p.end ≡ true = ground (arith, v.bounded) in
    rw (low, high)

-- `ReturnBlock` of a lent block to a valid pool does not assert, and keeps the pool valid, with
-- that block no longer lent.
pub return_block-IsValid :
    (p : MemoryPool) (n used i : ℕ) (lent : List ℕ)
    → IsValid p n used (i ∷ lent)
    → Returns (return_block p (p.base + i * p.block_size)) λ q. IsValid q n used lent
unfolding return_block
return_block-IsValid p n used i lent v =
    let below : i < used = ground (arith, v.once i) in
    let offset : p.base + i * p.block_size - p.base ≡ i * p.block_size = omega arith in
    let index : i % 2 ^ 16 ≡ i = omega (arith, v.small, v.within) in
    (
      record p { available = i ∷ p.available },
      rw (contains_lent p n used i lent v, offset, div_block i p.block_size v.sized, index),
      record {
        sized = v.sized;
        small = v.small;
        reached = v.reached;
        bounded = v.bounded;
        within = v.within;
        once = λ j. omega (arith, v.once j);
        all = omega (arith, v.all);
      },
    )

num_blocks_lem :
    (p : MemoryPool) (n used : ℕ) (lent : List ℕ) → IsValid p n used lent → get_num_blocks p ≡ n
unfolding get_num_blocks
num_blocks_lem p n used lent v =
    let size : p.end - p.base ≡ n * p.block_size = omega (arith, v.bounded) in
    rw (size, div_block n p.block_size v.sized)

next_at_base :
    (p : MemoryPool) (n used : ℕ) (lent : List ℕ)
    → IsValid p n used lent
    → ((p.next == p.base) ≡ true) ↔ (used ≡ 0)
next_at_base p n used lent v = (
  (λ e.
      let z : used * p.block_size ≤ 0 * p.block_size = ground (arith, v.reached) in
      let le = le_of_mul used 0 p.block_size v.sized z in omega arith),
  (λ e. ground (arith, v.reached, ap (λ (k : ℕ). k * p.block_size) e)),
)

-- `IsFull` of a valid pool answers true exactly when nothing is lent and either no block was given out so far or
-- every block was.
pub is_full_iff :
    (p : MemoryPool) (n used : ℕ) (lent : List ℕ)
    → IsValid p n used lent
    → (is_full p ≡ true) ↔ ((length lent ≡ 0) × ((used ≡ 0) ⊎ (used ≡ n)))
unfolding is_full
is_full_iff p n used lent v =
    let start = next_at_base p n used lent v in
    rw (num_blocks_lem p n used lent v) (
      (λ h. elim (Bool-cases (p.next == p.base)) [
        | inl e ↦ let z = start.0 e in (omega (arith, v.all), inl z)
        | inr e ↦
            let whole : length p.available ≡ n = ground arith in
            (omega (arith, v.all, v.within), inr (omega (arith, v.all, v.within)))
      ]),
      (λ h. elim h.1 [ inl z ↦ let e = start.1 z in ground arith | inr z ↦ ground (arith, v.all) ]),
    )

next_at_end :
    (p : MemoryPool) (n used : ℕ) (lent : List ℕ)
    → IsValid p n used lent
    → ((p.next == p.end) ≡ true) ↔ (used ≡ n)
next_at_end p n used lent v = (
  (λ e.
      let h : n * p.block_size ≤ used * p.block_size = ground (arith, v.reached, v.bounded) in
      let le = le_of_mul n used p.block_size v.sized h in omega (arith, v.within)),
  (λ e. ground (arith, v.reached, v.bounded, ap (λ (k : ℕ). k * p.block_size) e)),
)

is_nil_iff : (xs : List ℕ) → (is_nil xs ≡ true) ↔ (length xs ≡ 0)
is_nil_iff [] = ((λ e. refl), (λ e. refl))
is_nil_iff (x ∷ xs) = ((λ e. cc), (λ e. absurd (omega arith)))

-- `IsEmpty` of a valid pool answers true exactly when every block is lent.
pub is_empty_iff :
    (p : MemoryPool) (n used : ℕ) (lent : List ℕ)
    → IsValid p n used lent
    → (is_empty p ≡ true) ↔ (length lent ≡ n)
unfolding is_empty
is_empty_iff p n used lent v =
    let reached = next_at_end p n used lent v in
    let stack = is_nil_iff p.available in
    (
      (λ h.
          let e = reached.0 (ground arith) in
          let z = stack.0 (ground arith) in omega (arith, v.all)),
      (λ h.
          let e = reached.1 (omega (arith, v.all, v.within)) in
          let z = stack.1 (omega (arith, v.all, v.within)) in rw (e, z) refl),
    )
