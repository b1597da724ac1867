-- ===== src/Gc/MemAddress/Examples.antt =====
-- Tests of `MemAddress` (3FD/gc_memaddress.h), and its theorems at concrete addresses.
use fd.Base.{◌≡◌, refl, true}
use fd.Gc.MemAddress.{get, set_bit0, set_bit1}

-- The steps of the unit test on the two flags.
flags_run : get (set_bit0 true (set_bit1 true 0x7f10)) ≡ 0x7f10
unfolding get set_bit0 set_bit1
flags_run = refl
