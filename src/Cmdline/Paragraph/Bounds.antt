-- ===== src/Cmdline/Paragraph/Bounds.antt =====
-- `FormatParagraph` of 3FD/cmdline.cpp stays inside its buffer, and keeps the text.
use native.Mathlib.Nat.{mul-le-mul_right, mul-le-mul_left, lt_of_mul-lt-mul_right, lt-mul-div-succ}
use fd.Base.{
  ℕ, zero, suc, ◌+◌, ◌-◌, ◌*◌, ◌/◌, ◌≡◌, ◌<◌, ◌≤◌, refl, sym, ◌∙◌, ap, ◌==◌, ltb, leb, Bool, true,
  false, [], ◌∷◌, ◌++◌, if◌then◌else◌, length, length-append, length-replicate, get_or, replicate,
  arith, Bool-cases, inl, inr, ◌⊎◌, Returns, ok, stop, runtime_error,
}
use fd.Cmdline.Types.{Text}
use fd.Cmdline.Paragraph.{
  take, drop, white_space_before, out_buf_size, line_break, advance_line, last_line, break_line,
  break_lines, format_paragraph,
}

-- `k` lines of more than half of the width, of a text of `len` characters, and what is written
-- besides the text after each of them.
room :
    (width len k advance used : ℕ)
    → 2 ≤ width
    → k * width ≤ 2 * used
    → used ≤ len
    → len + k * (1 + advance) < out_buf_size len width advance
unfolding out_buf_size
room width len k advance used wide lines le =
    let q : ℕ = len / width in
    let above : len < width * (q + 1) = lt-mul-div-succ len (omega arith) in
    let few : k < 2 * (q + 1) = lt_of_mul-lt-mul_right width (grind arith) in
    let padded : k * advance ≤ (2 * q + 1) * advance = mul-le-mul_right advance (omega arith) in
    let twice : (q + 1) * 2 ≤ (q + 1) * width = mul-le-mul_left (q + 1) wide in
    grind (arith, above, few, padded, twice)

-- What of a text is no white space.
abbrev pub ink : (ℕ → Bool) → Text → Text
ink is_space [] = []
ink is_space (c ∷ t) = if is_space c then ink is_space t else c ∷ ink is_space t

pub ink-append :
    (is_space : ℕ → Bool) (s t : Text) → ink is_space (s ++ t) ≡ ink is_space s ++ ink is_space t
ink-append is_space [] t = refl
ink-append is_space (c ∷ s) t = elim (Bool-cases (is_space c)) [
  | inl e ↦ rw (e) (ink-append is_space s t)
  | inr e ↦ rw (e) (ap (λ u. c ∷ u) (ink-append is_space s t))
]

pub append_nil : (s : Text) → s ++ [] ≡ s
append_nil [] = refl
append_nil (c ∷ s) = ap (λ t. c ∷ t) (append_nil s)

pub append_assoc : (r s t : Text) → (r ++ s) ++ t ≡ r ++ (s ++ t)
append_assoc [] s t = refl
append_assoc (c ∷ r) s t = ap (λ u. c ∷ u) (append_assoc r s t)

pub ink-replicate :
    (is_space : ℕ → Bool) (n c : ℕ) → is_space c ≡ true → ink is_space (replicate n c) ≡ []
ink-replicate is_space zero c e = refl
ink-replicate is_space (suc n) c e = rw (e) (ink-replicate is_space n c e)

ink_split :
    (is_space : ℕ → Bool) (n : ℕ) (t : Text)
    → ink is_space (take n t) ++ ink is_space (drop n t) ≡ ink is_space t
unfolding take drop
ink_split is_space zero t = refl
ink_split is_space (suc n) [] = refl
ink_split is_space (suc n) (c ∷ t) = elim (Bool-cases (is_space c)) [
  | inl e ↦ rw (e) (ink_split is_space n t)
  | inr e ↦ rw (e) (ap (λ u. c ∷ u) (ink_split is_space n t))
]

-- A white space at `n` may be dropped with what is in front of it.
ink_skip :
    (is_space : ℕ → Bool) (n : ℕ) (t : Text)
    → n < length t
    → is_space (get_or t n 0) ≡ true
    → ink is_space (drop (suc n) t) ≡ ink is_space (drop n t)
unfolding drop
ink_skip is_space n [] lt e = absurd (omega arith)
ink_skip is_space zero (c ∷ t) lt e = rw (e) refl
ink_skip is_space (suc n) (c ∷ t) lt e = ink_skip is_space n t (omega arith) e

length-take : (n : ℕ) (t : Text) → n ≤ length t → length (take n t) ≡ n
unfolding take
length-take zero t le = refl
length-take (suc n) [] le = absurd (omega arith)
length-take (suc n) (c ∷ t) le = ap suc (length-take n t (omega arith))

length-drop : (n : ℕ) (t : Text) → length (drop n t) ≡ length t - n
unfolding drop
length-drop zero t = omega arith
length-drop (suc n) [] = omega arith
length-drop (suc n) (c ∷ t) = omega (arith, length-drop n t)

-- Where a line of a text that is longer than the width may be broken.
record Breaks (is_space : ℕ → Bool) (width : ℕ) (t : Text) (at : ℕ × ℕ) : Type 0 where
  within : at.1 ≤ width
  half : width < 2 * at.1
  before : at.0 ≤ at.1
  keeps : ink is_space (drop at.1 t) ≡ ink is_space (drop at.0 t)

white_space_before-Breaks :
    (is_space : ℕ → Bool) (width : ℕ) (t : Text) (n : ℕ)
    → width < length t
    → width / 2 + n < width
    → 2 ≤ width
    → Breaks is_space width t (line_break width (white_space_before is_space t (width / 2) n))
unfolding white_space_before line_break
white_space_before-Breaks is_space width t zero long lt wide = record {
  within = omega arith;
  half = omega arith;
  before = omega arith;
  keeps = refl;
}
white_space_before-Breaks is_space width t (suc n) long lt wide =
    elim (Bool-cases (is_space (get_or t (width / 2 + suc n) 0))) [
      | inl e ↦ rw (e) (record {
        within = omega arith;
        half = omega arith;
        before = omega arith;
        keeps = ink_skip is_space (width / 2 + suc n) t (omega arith) e;
      })
      | inr e ↦ rw (e) (white_space_before-Breaks is_space width t n long (omega arith) wide)
    ]

module _ (is_space : ℕ → Bool) (newline : is_space b'\n' ≡ true) (blank : is_space b' ' ≡ true)
    (width advance : ℕ) (wide : 2 ≤ width) where
  ink-advance_line :
      (out rest : Text) → ink is_space (advance_line out rest advance) ≡ ink is_space out
  unfolding advance_line
  ink-advance_line out rest = elim (Bool-cases (ltb 0 (length rest))) [
    | inl e ↦
        rw
          (
            e,
            ink-append is_space out (b'\n' ∷ replicate advance b' '),
            newline,
            ink-replicate is_space advance b' ' blank,
          )
          (append_nil (ink is_space out))
    | inr e ↦ rw (e, ink-append is_space out (b'\n' ∷ []), newline) (append_nil (ink is_space out))
  ]

  length-advance_line :
      (out rest : Text) → length (advance_line out rest advance) ≤ length out + 1 + advance
  unfolding advance_line
  length-advance_line out rest = elim (Bool-cases (ltb 0 (length rest))) [
    | inl e ↦ rw (e) (
        omega (
          arith,
          length-append out (b'\n' ∷ replicate advance b' '),
          length-replicate {A = ℕ} advance b' ',
        ))
    | inr e ↦ rw (e) (omega (arith, length-append out (b'\n' ∷ [])))
  ]

  -- The text that comes out, when `ink` was to be kept.
  abbrev Fits : ℕ → Text → Text → Type 0
  Fits size kept r = (length r < size) × (ink is_space r ≡ kept)

  last_line-Fits :
      (size : ℕ) (out t : Text)
      → length out + length t < size
      → Returns
          (last_line is_space width advance size out t)
          (Fits size (ink is_space out ++ ink is_space t))
  unfolding last_line
  last_line-Fits size out [] small = (out, refl, (omega arith, sym (append_nil (ink is_space out))))
  last_line-Fits size out (c ∷ t) small =
      let roomy : ltb size (length out + length (c ∷ t)) ≡ false = ground arith in
      let some_left : ltb 0 (length (c ∷ t)) ≡ true = ground arith in
      (
        out ++ c ∷ t,
        rw (some_left, roomy) refl,
        (omega (arith, length-append out (c ∷ t)), ink-append is_space out (c ∷ t)),
      )

  break_lines-Fits :
      (n len k used : ℕ) (out t : Text)
      → width < length t
      → length t ≤ n
      → used + length t ≡ len
      → k * width ≤ 2 * used
      → length out ≤ used + k * (1 + advance)
      → Returns
          (break_lines is_space width advance (out_buf_size len width advance) n out t)
          (Fits (out_buf_size len width advance) (ink is_space out ++ ink is_space t))
  unfolding break_lines break_line
  break_lines-Fits zero len k used out t long small sum lines written = absurd (omega arith)
  break_lines-Fits (suc n) len k used out t long small sum lines written =
      let size : ℕ = out_buf_size len width advance in
      let at : ℕ × ℕ =
        line_break width (white_space_before is_space t (width / 2) (width - 1 - width / 2)) in
      let b : Breaks is_space width t at =
        white_space_before-Breaks is_space width t (width - 1 - width / 2) long (omega arith)
          wide in
      let used' : ℕ = used + at.1 in
      let lines' : (k + 1) * width ≤ 2 * used' = grind (arith, b.half, lines) in
      let small_enough : len + (k + 1) * (1 + advance) < size =
        room width len (k + 1) advance used' wide lines' (omega (arith, b.within)) in
      let more : (k + 1) * (1 + advance) ≡ k * (1 + advance) + (1 + advance) = grind arith in
      let line : Text = take at.0 t in
      let rest : Text = drop at.1 t in
      let out' : Text = advance_line (out ++ line) rest advance in
      let line_length : length line ≡ at.0 =
        length-take at.0 t (omega (arith, b.before, b.within)) in
      let rest_length : length rest ≡ length t - at.1 = length-drop at.1 t in
      let written' : length out' ≤ used' + (k + 1) * (1 + advance) = omega (
        arith,
        length-advance_line (out ++ line) rest,
        length-append out line,
        line_length,
        b.before,
        written,
        more,
      ) in
      let fits1 : leb size (length out + at.0) ≡ false =
        ground (arith, small_enough, more, b.before, b.within, written, sum) in
      let fits2 : ltb size (length out + at.0 + 1 + advance) ≡ false =
        ground (arith, small_enough, more, b.before, b.within, written, sum) in
      let kept : ink is_space out' ++ ink is_space rest ≡ ink is_space out ++ ink is_space t =
        ap (λ (u : Text). u ++ ink is_space rest)
          (ink-advance_line (out ++ line) rest ∙ ink-append is_space out line)
        ∙ append_assoc (ink is_space out) (ink is_space line) (ink is_space rest)
        ∙ ap (λ (u : Text). ink is_space out ++ u)
            (ap (λ (u : Text). ink is_space line ++ u) b.keeps ∙ ink_split is_space at.0 t) in
      elim (Bool-cases (ltb width (length rest))) [
        | inl again ↦
            let (r, run, (lt, e)) =
              break_lines-Fits n len (k + 1) used' out' rest (ground arith)
                (omega (arith, rest_length, b.half)) (omega (arith, rest_length, b.within)) lines'
                written' in
            (r, rw (fits1, fits2, again) run, (lt, e ∙ kept))
        | inr done ↦
            let (r, run, (lt, e)) =
              last_line-Fits size out' rest
                (omega (arith, rest_length, written', small_enough, b.within)) in
            (r, rw (fits1, fits2, done) run, (lt, e ∙ kept))
      ]

-- What comes of a text by its length: it stays as it is, or there is no memory, or a text of the
-- same ink comes out that is shorter than the buffer.
abbrev pub Formats : (ℕ → Bool) → (ℕ → Bool) → Text → ℕ → ℕ → Type 0
Formats alloc is_space input width advance =
    ((length input ≤ width) × (format_paragraph alloc is_space input width advance ≡ ok input))
    ⊎ (((width < length input)
          × (alloc (out_buf_size (length input) width advance) ≡ false)
          × (format_paragraph alloc is_space input width advance ≡ stop runtime_error))
        ⊎ ((width < length input)
            × (alloc (out_buf_size (length input) width advance) ≡ true)
            × Returns (format_paragraph alloc is_space input width advance) λ r.
              (length r < out_buf_size (length input) width advance)
              × (ink is_space r ≡ ink is_space input)))

-- `FormatParagraph` for a width of at least two, when line breaks and blanks count as white space:
-- a text that fits into a line is returned as it is; for a longer one it throws
-- `std::runtime_error` when `calloc` fails, and otherwise returns, never with too short a buffer, a
-- text of fewer bytes than the buffer has, so that a null byte ends it, whose characters that are
-- no white space are those of the input, in the same order.
pub format_paragraph-Fits :
    (alloc is_space : ℕ → Bool) (input : Text) (width advance : ℕ)
    → is_space b'\n' ≡ true
    → is_space b' ' ≡ true
    → 2 ≤ width
    → Formats alloc is_space input width advance
unfolding format_paragraph
format_paragraph-Fits alloc is_space input width advance newline blank wide =
    let size : ℕ = out_buf_size (length input) width advance in
    let divisor : width == 0 ≡ false = ground arith in
    elim (Bool-cases (leb (length input) width)) [
      | inl short ↦ inl (ground arith, rw (short) refl)
      | inr long ↦ inr (elim (Bool-cases (alloc size)) [
        | inr failed ↦ inl (ground arith, failed, rw (long, divisor, failed) refl)
        | inl given ↦
            let fits =
              break_lines-Fits is_space newline blank width advance wide (length input)
                (length input) 0 0 [] input (ground arith) (omega arith) (omega arith) (omega arith)
                (omega arith) in
            inr (ground arith, given, rw (long, divisor, given) fits)
      ])
    ]
