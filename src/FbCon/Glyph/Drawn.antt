-- ===== src/FbCon/Glyph/Drawn.antt =====
-- `FbConDrawglyph` of HtcLeoPkg/Library/FrameBufferSerialPortLib at each address.
use htc_leo_pkg.Base.{
  ℕ, zero, suc, ◌+◌, ◌*◌, ◌/◌, ◌%◌, ◌≤◌, ◌<◌, ◌≡◌, ◌⊎◌, refl, ap, ◌∙◌, inl, inr, Bool, none, arith,
  length, get_or, ◌==◌,
}
use htc_leo_pkg.Base.Memory.{Memory}
use htc_leo_pkg.FbCon.Glyph.Strip.{
  Strip, overlay, or_else, overlay-in, overlay-out, iterate, chain, length-chain,
}
use htc_leo_pkg.FbCon.Glyph.Painted.{
  same, each, background_line, next_line, line, length-background_line, length-line,
}
use htc_leo_pkg.FbCon.Glyph.Picture.{len, bits_at}

-- The bits of a word
abbrev pub halved : ℕ → ℕ → ℕ
halved n word = iterate (λ b. b / 2) n word

abbrev pub bit : ℕ → ℕ → Bool
bit word n = halved n word % 2 == 1

halved_add : (m n word : ℕ) → halved n (halved m word) ≡ halved (m + n) word
halved_add zero n word = let e : 0 + n ≡ n = omega arith in rw e refl
halved_add (suc m) n word =
    let e : suc m + n ≡ suc (m + n) = omega arith in rw e (halved_add m n (word / 2))

iterate_const : (n v w : ℕ) → iterate (λ (u : ℕ). v) (suc n) w ≡ v
iterate_const zero v w = refl
iterate_const (suc n) v w = iterate_const n v v

next_line_lem : (bpp scale gap word : ℕ) → 0 < scale → next_line bpp scale gap word ≡ halved 5 word
next_line_lem bpp zero gap word lt = absurd (omega arith)
next_line_lem bpp (suc n) gap word lt = iterate_const n (halved 5 word) word

lines_lem :
    (bpp scale gap y word : ℕ)
    → 0 < scale
    → iterate (next_line bpp scale gap) y word ≡ halved (5 * y) word
lines_lem bpp scale gap zero word lt = refl
lines_lem bpp scale gap (suc y) word lt =
    lines_lem bpp scale gap y (next_line bpp scale gap word) lt
    ∙ (ap (λ w. halved (5 * y) w) (next_line_lem bpp scale gap word lt)
        ∙ (halved_add 5 (5 * y) word ∙ ap (λ k. halved k word) five))
  where
    five : 5 + 5 * y ≡ 5 * suc y
    five = omega arith

pub bits_at_lem :
    (bpp scale gap word y x : ℕ)
    → 0 < scale
    → bits_at bpp scale gap word y x ≡ halved (5 * y + x) word
bits_at_lem bpp scale gap word y x lt =
    ap (halved x) (lines_lem bpp scale gap y word lt) ∙ halved_add (5 * y) x word

module _ (bpp scale gap : ℕ) where
  -- The strips of the halves
  abbrev pub back_strip : ℕ → Strip
  back_strip color = each 6 (each scale (background_line bpp scale gap color))

  abbrev pub glyph_strip : ℕ → ℕ → Strip
  glyph_strip color word = chain (next_line bpp scale gap) (line bpp scale gap color) 6 word

  abbrev pub half : ℕ
  half = 6 * (scale * len bpp scale gap)

  pub length-back_strip : (color : ℕ) → length (back_strip color) ≡ half
  length-back_strip color = length-chain same _ (scale * len bpp scale gap) 6 0 (λ v.
      length-chain same _ (len bpp scale gap) scale 0
        (λ u. length-background_line bpp scale gap color))

  pub length-glyph_strip : (color word : ℕ) → length (glyph_strip color word) ≡ half
  length-glyph_strip color word =
      length-chain (next_line bpp scale gap) (line bpp scale gap color) (scale * len bpp scale gap)
        6 word (length-line bpp scale gap color)

  -- Both halves, with their background below
  module _ (p fg bg upper lower : ℕ) (m : Memory) where
    abbrev pub cleared : Memory
    cleared = overlay (p + half) (back_strip bg) (overlay p (back_strip bg) m)

    abbrev pub drawn : Memory
    drawn = overlay (p + half) (glyph_strip fg lower) (overlay p (glyph_strip fg upper) cleared)

    -- In the upper half, in the lower half, and outside
    pub drawn-upper :
        (r : ℕ)
        → r < half
        → drawn (p + r)
          ≡ or_else
              (get_or (glyph_strip fg upper) r none)
              (or_else (get_or (back_strip bg) r none) (m (p + r)))
    drawn-upper r lt =
        overlay-out (p + half) (glyph_strip fg lower) (overlay p (glyph_strip fg upper) cleared)
          (p + r) (inl (omega arith))
        ∙ (overlay-in p (glyph_strip fg upper) cleared r
            ∙ ap (or_else (get_or (glyph_strip fg upper) r none)) (
                overlay-out (p + half) (back_strip bg) (overlay p (back_strip bg) m) (p + r)
                  (inl (omega arith))
                ∙ overlay-in p (back_strip bg) m r))

    pub drawn-lower :
        (r : ℕ)
        → drawn (p + half + r)
          ≡ or_else
              (get_or (glyph_strip fg lower) r none)
              (or_else (get_or (back_strip bg) r none) (m (p + half + r)))
    drawn-lower r =
        overlay-in (p + half) (glyph_strip fg lower) (overlay p (glyph_strip fg upper) cleared) r
        ∙ ap (or_else (get_or (glyph_strip fg lower) r none)) (
            overlay-out p (glyph_strip fg upper) cleared (p + half + r)
              (inr (omega (arith, length-glyph_strip fg upper)))
            ∙ (overlay-in (p + half) (back_strip bg) (overlay p (back_strip bg) m) r
                ∙ ap (or_else (get_or (back_strip bg) r none)) (
                    overlay-out p (back_strip bg) m (p + half + r)
                      (inr (omega (arith, length-back_strip bg))))))

    pub drawn-out : (a : ℕ) → (a < p) ⊎ (p + half + half ≤ a) → drawn a ≡ m a
    drawn-out a out =
        overlay-out (p + half) (glyph_strip fg lower) _ a
          (ground (arith, out, length-glyph_strip fg lower))
        ∙ (overlay-out p (glyph_strip fg upper) _ a
              (ground (arith, out, length-glyph_strip fg upper))
            ∙ (overlay-out (p + half) (back_strip bg) _ a
                  (ground (arith, out, length-back_strip bg))
                ∙ overlay-out p (back_strip bg) m a (ground (arith, out, length-back_strip bg))))
