-- ===== src/Gc/MemAddress/Flags.antt =====
-- The two flags of `MemAddress` (3FD/gc_memaddress.h) and the address do not disturb one another.
use fd.Base.{ℕ, ◌%◌, ◌≡◌, Bool, true, false, arith}
use fd.Gc.MemAddress.{get, set_bit0, get_bit0, set_bit1, get_bit1}

-- A write of the first flag is read back, and changes neither the second flag nor the address.
pub set_bit0_lem :
    (on : Bool) (address : ℕ)
    → (get_bit0 (set_bit0 on address) ≡ on)
      × (get_bit1 (set_bit0 on address) ≡ get_bit1 address)
      × (get (set_bit0 on address) ≡ get address)
unfolding get set_bit0 get_bit0 get_bit1
set_bit0_lem true a = (ground arith, ground arith, omega arith)
set_bit0_lem false a = (ground arith, ground arith, omega arith)

-- A write of the second flag is read back, and changes neither the first flag nor the address.
pub set_bit1_lem :
    (on : Bool) (address : ℕ)
    → (get_bit1 (set_bit1 on address) ≡ on)
      × (get_bit0 (set_bit1 on address) ≡ get_bit0 address)
      × (get (set_bit1 on address) ≡ get address)
unfolding get set_bit1 get_bit0 get_bit1
set_bit1_lem true a = (ground arith, ground arith, omega arith)
set_bit1_lem false a = (ground arith, ground arith, omega arith)

-- Setting and clearing the first flag of an address that has it clear gives the address back.
pub set_bit0-set_bit0 :
    (address : ℕ) → get_bit0 address ≡ false → set_bit0 false (set_bit0 true address) ≡ address
unfolding set_bit0 get_bit0
set_bit0-set_bit0 a h = ground arith

-- `get` gives back exactly the addresses that are multiples of four.
pub get_aligned : (address : ℕ) → address % 4 ≡ 0 → get address ≡ address
unfolding get
get_aligned a h = omega arith
