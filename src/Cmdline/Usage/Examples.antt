-- ===== src/Cmdline/Usage/Examples.antt =====
-- The printed usage of a command line (3FD/cmdline.cpp).
use fd.Base.{ℕ, List, [], ◌∷◌, ◌+◌}
use fd.Cmdline.Types.{ℤ, pos, negsuc}
use fd.Cmdline.Usage.{Stream}

-- A stream for numbers of one digit.
abbrev digit : ℤ → List ℕ
digit (pos n) = (b'0' + n) ∷ []
digit (negsuc n) = b'-' ∷ (b'1' + n) ∷ []

abbrev sample_stream : Stream ℕ
sample_stream = record {
  show_integer = digit;
  show_float = λ n. (b'0' + n) ∷ [];
  show_count = λ n. (b'0' + n) ∷ [];
}
