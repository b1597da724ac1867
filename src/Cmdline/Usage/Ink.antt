-- ===== src/Cmdline/Usage/Ink.antt =====
-- The text of an entry that `PrintArgsInfo` of 3FD/cmdline.cpp prints, but for its white space.
use fd.Base.{ℕ, ◌≡◌, refl, ap, ◌∙◌, Bool, true, [], ◌∷◌, ◌++◌, replicate}
use fd.Cmdline.Types.{Text}
use fd.Cmdline.Paragraph.Bounds.{ink, ink-append, ink-replicate, append_nil}

-- Blanks and line breaks around a text add no ink.
pub ink-framed :
    (is_space : ℕ → Bool)
    → is_space b'\n' ≡ true
    → is_space b' ' ≡ true
    → (n : ℕ) (labels paragraph : Text)
    → ink is_space
        (replicate n b' ' ++ labels ++ replicate 3 b' ' ++ paragraph ++ b'\n' ∷ b'\n' ∷ [])
      ≡ ink is_space labels ++ ink is_space paragraph
ink-framed is_space newline blank n labels paragraph =
    let margin : Text = replicate n b' ' in
    let gap : Text = replicate 3 b' ' in
    let left : ink is_space (margin ++ labels) ≡ ink is_space labels =
      ink-append is_space margin labels
      ∙ ap (λ (u : Text). u ++ ink is_space labels) (ink-replicate is_space n b' ' blank) in
    let spaced : ink is_space (margin ++ labels ++ gap) ≡ ink is_space labels =
      ink-append is_space (margin ++ labels) gap
      ∙ ap (λ (u : Text). ink is_space (margin ++ labels) ++ u)
          (ink-replicate is_space 3 b' ' blank)
      ∙ append_nil (ink is_space (margin ++ labels))
      ∙ left in
    let ended : ink is_space (b'\n' ∷ b'\n' ∷ []) ≡ [] = rw (newline) refl in
    ink-append is_space (margin ++ labels ++ gap ++ paragraph) (b'\n' ∷ b'\n' ∷ [])
    ∙ ap (λ (u : Text). ink is_space (margin ++ labels ++ gap ++ paragraph) ++ u) ended
    ∙ append_nil (ink is_space (margin ++ labels ++ gap ++ paragraph))
    ∙ ink-append is_space (margin ++ labels ++ gap) paragraph
    ∙ ap (λ (u : Text). u ++ ink is_space paragraph) spaced
