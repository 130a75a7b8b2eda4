-- ===== src/FbCon/Glyph/Painted.antt =====
-- The loops of `FbConDrawglyph` and `ResetFb`, HtcLeoPkg/Library/FrameBufferSerialPortLib, as strips of bytes.
use htc_leo_pkg.Base.{
  ℕ, zero, suc, ◌+◌, ◌*◌, ◌/◌, ◌%◌, ◌≡◌, refl, sym, ap, ap₂, ◌∙◌, inl, inr, Bool-cases, [], ◌∷◌,
  ◌++◌, none, some, arith, length, length-append, ◌==◌, if◌then◌else◌,
}
use htc_leo_pkg.Base.Memory.{Memory}
use htc_leo_pkg.FbCon.Glyph.{
  Pen, repeat, put_byte, put_pixel, advance, half_background, put_dot, put_line, half_glyph,
}
use htc_leo_pkg.FbCon.Glyph.Strip.{
  Strip, overlay, painted, painted-append, iterate, chain, repeat-painted, repeat_painted,
  length-chain,
}

-- The loops as strips
abbrev pub same : ℕ → ℕ
same v = v

abbrev pub each : ℕ → Strip → Strip
each n l = chain same (λ v. l) n 0

abbrev pub pixel : ℕ → ℕ → Strip
pixel bpp color = chain (λ c. c / 256) (λ c. some (c % 256) ∷ []) bpp color

abbrev pub blank : ℕ → Strip
blank zero = []
blank (suc n) = none ∷ blank n

pub length-blank : (n : ℕ) → length (blank n) ≡ n
length-blank zero = refl
length-blank (suc n) = ap suc (length-blank n)

overlay-blank : (p n : ℕ) (m : Memory) → overlay p (blank n) m ≡ m
overlay-blank p zero m = refl
overlay-blank p (suc n) m = overlay-blank (p + 1) n m

advance-painted : (n : ℕ) (s : Pen) → advance n s ≡ painted (blank n) s
advance-painted n s =
    ap₂ (λ p m. record { pixels = p; screen = m }) (omega (arith, length-blank n))
      (sym (overlay-blank s.pixels n s.screen))

pub put_pixel-painted :
    (bpp color : ℕ) (s : Pen) → put_pixel bpp color s ≡ painted (pixel bpp color) s
put_pixel-painted bpp color s =
    ap (λ r. r.1)
      (repeat-painted (λ c. c / 256) (λ c. some (c % 256) ∷ []) put_byte (λ v t. refl) bpp color s)

module _ (bpp scale gap : ℕ) where
  -- A dot, a line of dots, and its repetitions
  abbrev pub dot : ℕ → Strip
  dot color = each scale (pixel bpp color)

  abbrev pub no_dot : Strip
  no_dot = each scale (blank bpp)

  abbrev pub dot_of : ℕ → ℕ → Strip
  dot_of color bits = if bits % 2 == 1 then dot color else no_dot

  abbrev pub dots : ℕ → ℕ → Strip
  dots color bits = chain (λ b. b / 2) (dot_of color) 5 bits ++ blank gap

  abbrev pub background_line : ℕ → Strip
  background_line color = each 5 (dot color) ++ blank gap

  pub half_background-painted :
      (color : ℕ) (s : Pen)
      → half_background bpp scale gap color s
        ≡ painted (each 6 (each scale (background_line color))) s
  unfolding half_background
  half_background-painted color s =
      repeat_painted (each scale (background_line color)) _
        (λ u.
          repeat_painted (background_line color) _
            (λ t.
              ap (advance gap) (
                repeat_painted (dot color) _
                  (repeat_painted (pixel bpp color) _ (put_pixel-painted bpp color) scale) 5 t)
              ∙ (advance-painted gap (painted (each 5 (dot color)) t)
                  ∙ sym (painted-append (each 5 (dot color)) (blank gap) t)))
            scale u)
        6 s

  put_dot-painted :
      (color bits : ℕ) (s : Pen)
      → put_dot bpp scale gap color (bits, s) ≡ (bits / 2, painted (dot_of color bits) s)
  put_dot-painted color bits s = elim (Bool-cases (bits % 2 == 1)) [
    | inl e ↦ rw e (
        ap (λ t. (bits / 2, t))
          (repeat_painted (pixel bpp color) _ (put_pixel-painted bpp color) scale s))
    | inr e ↦
        rw e (ap (λ t. (bits / 2, t)) (repeat_painted (blank bpp) _ (advance-painted bpp) scale s))
  ]

  -- What is left of a word behind a line, and the strip of its line
  abbrev pub next_line : ℕ → ℕ
  next_line word = iterate (λ (v : ℕ). iterate (λ b. b / 2) 5 word) scale word

  abbrev pub line : ℕ → ℕ → Strip
  line color word = chain (λ (v : ℕ). iterate (λ b. b / 2) 5 word) (λ v. dots color word) scale word

  put_dots-painted :
      (color word : ℕ) (s : Pen)
      → ◌≡◌ {A = ℕ × Pen}
          (let r = repeat 5 (put_dot bpp scale gap color) (word, s) in (r.0, advance gap r.1))
          (iterate (λ b. b / 2) 5 word, painted (dots color word) s)
  put_dots-painted color word s =
      ap (λ (r : ℕ × Pen). (r.0, advance gap r.1))
        (repeat-painted (λ b. b / 2) (dot_of color) (put_dot bpp scale gap color)
          (put_dot-painted color) 5 word s)
      ∙ ap (λ t. (iterate (λ b. b / 2) 5 word, t))
          (advance-painted gap (painted (chain (λ b. b / 2) (dot_of color) 5 word) s)
            ∙ sym (painted-append (chain (λ b. b / 2) (dot_of color) 5 word) (blank gap) s))

  put_line-painted :
      (color word : ℕ) (s : Pen)
      → put_line bpp scale gap color (word, s) ≡ (next_line word, painted (line color word) s)
  unfolding put_line
  put_line-painted color word s =
      repeat-painted (λ (v : ℕ). iterate (λ b. b / 2) 5 word) (λ v. dots color word) _
        (λ v t. put_dots-painted color word t) scale word s

  pub half_glyph-painted :
      (color word : ℕ) (s : Pen)
      → half_glyph bpp scale gap color word s ≡ painted (chain next_line (line color) 6 word) s
  unfolding half_glyph
  half_glyph-painted color word s =
      ap (λ (r : ℕ × Pen). r.1)
        (repeat-painted next_line (line color) (put_line bpp scale gap color)
          (put_line-painted color) 6 word s)

  -- Lengths
  pub length-pixel : (color : ℕ) → length (pixel bpp color) ≡ bpp
  length-pixel color =
      omega (arith, length-chain (λ c. c / 256) (λ c. some (c % 256) ∷ []) 1 bpp color (λ c. refl))

  pub length-dot : (color : ℕ) → length (dot color) ≡ scale * bpp
  length-dot color = length-chain same (λ v. pixel bpp color) bpp scale 0 (λ v. length-pixel color)

  pub length-dot_of : (color bits : ℕ) → length (dot_of color bits) ≡ scale * bpp
  length-dot_of color bits = elim (Bool-cases (bits % 2 == 1)) [
    | inl e ↦ rw e (length-dot color)
    | inr e ↦ rw e (length-chain same (λ v. blank bpp) bpp scale 0 (λ v. length-blank bpp))
  ]

  abbrev pub line_len : ℕ
  line_len = 5 * (scale * bpp) + gap

  pub length-dots : (color word : ℕ) → length (dots color word) ≡ line_len
  length-dots color word = omega (
    arith,
    length-append (chain (λ b. b / 2) (dot_of color) 5 word) (blank gap),
    length-blank gap,
    length-chain (λ b. b / 2) (dot_of color) (scale * bpp) 5 word (length-dot_of color),
  )

  pub length-background_line : (color : ℕ) → length (background_line color) ≡ line_len
  length-background_line color = omega (
    arith,
    length-append (each 5 (dot color)) (blank gap),
    length-blank gap,
    length-chain same (λ v. dot color) (scale * bpp) 5 0 (λ v. length-dot color),
  )

  pub length-line : (color word : ℕ) → length (line color word) ≡ scale * line_len
  length-line color word =
      length-chain (λ (v : ℕ). iterate (λ b. b / 2) 5 word) (λ v. dots color word) line_len scale
        word (λ v. length-dots color word)
