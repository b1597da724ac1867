-- ===== src/Cmdline/Paragraph/Examples.antt =====
-- A paragraph of 3FD/cmdline.cpp.
use fd.Base.{ℕ, ◌≡◌, refl, ◌==◌, Bool, true, ◌||◌, [], ◌∷◌, ok, arith}
use fd.Cmdline.Types.{Text}
use fd.Cmdline.Paragraph.{
  format_paragraph, break_lines, break_line, last_line, advance_line, line_break,
  white_space_before, take, drop, out_buf_size,
}
use fd.Cmdline.Paragraph.Bounds.{Formats, format_paragraph-Fits}

abbrev is_white : ℕ → Bool
is_white c = c == b' ' || c == b'\n'

-- "one two three"
abbrev words : Text
words =
    b'o' ∷ b'n' ∷ b'e' ∷ b' ' ∷ b't' ∷ b'w' ∷ b'o' ∷ b' ' ∷ b't' ∷ b'h' ∷ b'r' ∷ b'e' ∷ b'e' ∷ []

two_lines :
    format_paragraph (λ size. true) is_white words 8 1
    ≡ ok (
        b'o' ∷ b'n' ∷ b'e' ∷ b' ' ∷ b't' ∷ b'w' ∷ b'o' ∷ b'\n' ∷ b' ' ∷ b't' ∷ b'h' ∷ b'r' ∷ b'e'
        ∷ b'e' ∷ [])
unfolding format_paragraph break_lines break_line last_line advance_line line_break
    white_space_before take drop out_buf_size
two_lines = refl

format_paragraph-Fits_example : Formats (λ size. true) is_white words 8 1
format_paragraph-Fits_example =
    format_paragraph-Fits (λ size. true) is_white words 8 1 refl refl (omega arith)
