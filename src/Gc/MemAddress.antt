-- ===== src/Gc/MemAddress.antt =====
-- 3FD/gc_memaddress.h: a memory address that carries two flags in its least significant bits.
-- An address is a number below 2 ^ 64 (the mask of the 64 bit build), and the bitwise operations
-- by `mask`, `1` and `2` are written as the quotients and remainders that they are.
pub mod Flags
mod Examples
use fd.Base.{ℕ, ◌+◌, ◌-◌, ◌*◌, ◌/◌, ◌%◌, Bool, true, false, not, ◌==◌}

-- `m_address & mask`
unfoldable pub get : ℕ → ℕ
get address = address / 4 * 4

-- `GetEncoded`
unfoldable pub get_encoded : ℕ → ℕ
get_encoded address = address

-- `m_address | 1`, and `m_address & (2 | mask)`
unfoldable pub set_bit0 : Bool → ℕ → ℕ
set_bit0 true address = address / 2 * 2 + 1
set_bit0 false address = address / 2 * 2

-- `(m_address & 1) != 0`
unfoldable pub get_bit0 : ℕ → Bool
get_bit0 address = not (address % 2 == 0)

-- `m_address | 2`, and `m_address & (1 | mask)`
unfoldable pub set_bit1 : Bool → ℕ → ℕ
set_bit1 true address = address / 4 * 4 + 2 + address % 2
set_bit1 false address = address / 4 * 4 + address % 2

-- `(m_address & 2) != 0`
unfoldable pub get_bit1 : ℕ → Bool
get_bit1 address = not (address / 2 % 2 == 0)
