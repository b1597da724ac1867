-- ===== src/Cmdline/Paragraph.antt =====
-- `FormatParagraph` of 3FD/cmdline.cpp, which breaks a text into lines.
pub mod Bounds
mod Examples
use fd.Base.{
  ℕ, zero, suc, ◌+◌, ◌-◌, ◌*◌, ◌/◌, ◌==◌, ltb, leb, Bool, true, false, Option, none, some, List, [],
  ◌∷◌, ◌++◌, if◌then◌else◌, length, get_or, replicate, Run, ok, stop, logic_error, out_of_bounds,
  no_return, runtime_error,
}
use fd.Cmdline.Types.{Text}

unfoldable pub take : ℕ → Text → Text
take zero t = []
take (suc n) [] = []
take (suc n) (c ∷ t) = c ∷ take n t

unfoldable pub drop : ℕ → Text → Text
drop zero t = t
drop (suc n) [] = []
drop (suc n) (c ∷ t) = drop n t

-- The search for a white space, from the end of the line back to its middle: the indices from
-- `middle + n` down to `middle + 1`.
unfoldable pub white_space_before : (ℕ → Bool) → Text → ℕ → ℕ → Option ℕ
white_space_before is_space t middle zero = none
white_space_before is_space t middle (suc n) =
    if is_space (get_or t (middle + suc n) 0)
    then some (middle + suc n)
    else white_space_before is_space t middle n

-- `outBufSize`
unfoldable pub out_buf_size : ℕ → ℕ → ℕ → ℕ
out_buf_size len width advance = 2 * (1 + len / width) * (advance + width)

-- How much of the text goes into the next line, and how much of it is used up, which is one more
-- when the line ends at a white space.
unfoldable pub line_break : ℕ → Option ℕ → ℕ × ℕ
line_break width (some idx) = (idx, suc idx)
line_break width none = (width, width)

-- The line break after a line, and the spaces in front of the next one if there is one.
unfoldable pub advance_line : Text → Text → ℕ → Text
advance_line out rest advance =
    if ltb 0 (length rest) then out ++ b'\n' ∷ replicate advance b' ' else out ++ b'\n' ∷ []

module _ (is_space : ℕ → Bool) (width advance size : ℕ) where
  -- What follows on the loop: `out` is what was written, `t` what is left of the text.
  unfoldable pub last_line : Text → Text → Run Text
  last_line out t =
      if ltb 0 (length t)
      then (if ltb size (length out + length t) then stop logic_error else ok (out ++ t))
      else ok out

  -- A round of the loop, with what comes after it as an argument.
  unfoldable pub break_line : ℕ × ℕ → (Text → Text → Run Text) → Text → Text → Run Text
  unfolding advance_line
  break_line (idx, used) next out t =
      if leb size (length out + idx)
      then stop logic_error
      else if ltb size (length out + idx + 1 + advance)
      then stop logic_error
      else next (advance_line (out ++ take idx t) (drop used t) advance) (drop used t)

  -- The loop; the fuel bounds the length of the text.
  unfoldable pub break_lines : ℕ → Text → Text → Run Text
  unfolding break_line last_line line_break white_space_before
  break_lines zero out t = stop no_return
  break_lines (suc n) out t =
      break_line
        (line_break width (white_space_before is_space t (width / 2) (width - 1 - width / 2)))
        (λ out' t'. if ltb width (length t') then break_lines n out' t' else last_line out' t') out
        t

-- A text that fits into a line stays as it is. The width is a divisor otherwise. `alloc` tells whether
-- `calloc` gives a buffer of a size.
unfoldable pub format_paragraph : (ℕ → Bool) → (ℕ → Bool) → Text → ℕ → ℕ → Run Text
unfolding break_lines
format_paragraph alloc is_space input width advance =
    if leb (length input) width
    then ok input
    else if width == 0
    then stop out_of_bounds
    else if alloc (out_buf_size (length input) width advance)
    then break_lines is_space width advance (out_buf_size (length input) width advance)
        (length input) [] input
    else stop runtime_error
