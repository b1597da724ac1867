-- ===== src/Base/Runs.antt =====
-- Runs of code that can stop: on a failed assertion, on undefined behaviour, or on an exception.
use mathlib.Core.Path.{◌≡◌, refl}
use mathlib.Core.Bool.{Bool, true, false}

-- `assertion`: an `_ASSERTE` fails. `out_of_bounds`, `use_after_free`, `null_pointer`: undefined
-- behaviour, and so is `overflow`, of a product of type `int`. `bad_alloc`: `std::bad_alloc` is
-- thrown. `no_return`: a loop does not end. `bad_cast`: memory is read as another type. The others
-- are the exceptions of that name.
pub data Stop : Type 0 where
  assertion out_of_bounds use_after_free null_pointer bad_alloc no_return bad_cast : Stop
  overflow invalid_argument length_error logic_error runtime_error : Stop

pub data Run {ℓ} (S : Type ℓ) : Type ℓ where
  stop : Stop → Run S
  ok : S → Run S

infixl 5 ◌>>=◌ ◌>>◌
abbrev pub ◌>>=◌ {ℓ κ} : {S : Type ℓ} {T : Type κ} → Run S → (S → Run T) → Run T
ok s >>= next = next s
stop why >>= next = stop why

abbrev pub ◌>>◌ {ℓ} : {B : Type ℓ} → Run (Unit {0}) → Run B → Run B
m >> k = m >>= λ _. k

-- `_ASSERTE(b)`
abbrev pub assert : Bool → Run (Unit {0})
assert true = ok tt
assert false = stop assertion

-- The run ends normally, in a value that satisfies `P`.
abbrev pub Returns {ℓ κ} : {S : Type ℓ} → Run S → (S → Type κ) → Type (ℓ ⊔ κ)
Returns {S} run Post = (s : S) × (run ≡ ok s) × Post s

pub bind_ok {ℓ κ} :
    {S : Type ℓ} {T : Type κ} (m : Run S) (f : S → Run T) (t : T)
    → (m >>= f) ≡ ok t
    → (s : S) × (m ≡ ok s) × (f s ≡ ok t)
bind_ok (ok s) f t h = (s, refl, h)
bind_ok (stop e) f t h = absurd cc
