-- ===== src/FbCon/Glyph/Shown.antt =====
-- What `FbConDrawglyph` of HtcLeoPkg/Library/FrameBufferSerialPortLib shows at each address.
use htc_leo_pkg.Base.{
  ℕ, zero, suc, ◌+◌, ◌-◌, ◌*◌, ◌%◌, ◌^◌, ◌≤◌, ◌<◌, ◌≡◌, refl, ap, ◌∙◌, inl, inr, Bool, true, false,
  Option, none, some, arith, get_or, ◌==◌, if◌then◌else◌,
}
use htc_leo_pkg.Base.Memory.{Memory}
use htc_leo_pkg.FbCon.Glyph.{Pen, gap_of, half_background, half_glyph, fb_con_draw_glyph}
use htc_leo_pkg.FbCon.Glyph.Strip.{Strip, overlay, painted, or_else}
use htc_leo_pkg.FbCon.Glyph.Painted.{half_background-painted, half_glyph-painted}
use htc_leo_pkg.FbCon.Glyph.Picture.{
  Place, byte_of, len, offset, offset_lt, get_or-half_glyph, get_or-half_background, get_or-gap,
  in_block,
}
use htc_leo_pkg.FbCon.Glyph.Drawn.{
  bit, bits_at_lem, back_strip, glyph_strip, half, length-back_strip, length-glyph_strip, drawn,
  drawn-upper, drawn-lower, drawn-out,
}
use htc_leo_pkg.FbCon.Glyph.Spots.{
  Spot, dot_byte, gap_byte, before, behind, address, shows, each_address,
}

-- The gap, where a line of dots fits into a line and the bytes of a line into 32 bits
product_le : (a b c : ℕ) → a ≤ b → a * c ≤ b * c
product_le a b zero le = omega arith
product_le a b (suc c) le = omega (arith, product_le a b c le)

gap_of_lem :
    (stride bpp scale : ℕ)
    → 5 * scale ≤ stride
    → stride < 2 ^ 32
    → stride * bpp < 2 ^ 32
    → gap_of stride bpp scale ≡ (stride - 5 * scale) * bpp
gap_of_lem stride bpp scale fits small bytes =
    let skipped : (stride + 2 ^ 32 - 5 * scale % 2 ^ 32) % 2 ^ 32 ≡ stride - 5 * scale =
      omega arith in
    rw skipped (omega (arith, product_le (stride - 5 * scale) stride bpp (omega arith)))

len_lem :
    (stride bpp scale : ℕ)
    → 5 * scale ≤ stride
    → len bpp scale ((stride - 5 * scale) * bpp) ≡ stride * bpp
len_lem stride bpp scale fits =
    let whole : stride ≡ 5 * scale + (stride - 5 * scale) = omega arith in
    let bytes : stride * bpp ≡ (5 * scale + (stride - 5 * scale)) * bpp = ap (λ n. n * bpp) whole in
    omega (arith, bytes)

module _ (p stride bpp scale fg bg upper lower : ℕ) (m : Memory) where
  abbrev gap : ℕ
  gap = gap_of stride bpp scale

  abbrev back : Strip
  back = back_strip bpp scale gap bg

  abbrev first : Pen
  first = record { pixels = p; screen = m }

  clears :
      half_background bpp scale gap bg (half_background bpp scale gap bg first)
      ≡ painted back (painted back first)
  clears =
      ap (half_background bpp scale gap bg) (half_background-painted bpp scale gap bg first)
      ∙ half_background-painted bpp scale gap bg (painted back first)

  abbrev halves : Pen → Memory
  halves c =
      (half_glyph bpp scale gap fg lower
        (half_glyph bpp scale gap fg upper (record c { pixels = p }))).screen

  halves-overlay :
      (c : Pen)
      → halves c
        ≡ overlay
            (p + half bpp scale gap)
            (glyph_strip bpp scale gap fg lower)
            (overlay p (glyph_strip bpp scale gap fg upper) c.screen)
  halves-overlay c =
      let s : Pen = record c { pixels = p } in
      ap (λ t. (half_glyph bpp scale gap fg lower t).screen)
        (half_glyph-painted bpp scale gap fg upper s)
      ∙ (ap (λ t. t.screen)
            (half_glyph-painted bpp scale gap fg lower
              (painted (glyph_strip bpp scale gap fg upper) s))
          ∙ ap
              (λ l.
                overlay (p + l) (glyph_strip bpp scale gap fg lower)
                  (overlay p (glyph_strip bpp scale gap fg upper) c.screen))
              (length-glyph_strip bpp scale gap fg upper))

  draws :
      fb_con_draw_glyph p stride bpp (upper, lower) scale fg bg m
      ≡ drawn bpp scale gap p fg bg upper lower m
  unfolding fb_con_draw_glyph
  draws =
      ap halves clears
      ∙ (halves-overlay (painted back (painted back first))
          ∙ ap
              (λ l. overlay (p + half bpp scale gap) (glyph_strip bpp scale gap fg lower) (
                overlay p (glyph_strip bpp scale gap fg upper)
                  (overlay (p + l) back (overlay p back m))))
              (length-back_strip bpp scale gap bg))

  -- A dot's byte, from what the strips have there
  dot_lem :
      (g b : Option ℕ) (set : Bool) (k old : ℕ)
      → g ≡ (if set then some (byte_of fg k) else none)
      → b ≡ some (byte_of bg k)
      → or_else g (or_else b old) ≡ byte_of (if set then fg else bg) k
  dot_lem g b true k old eg eb = rw eg refl
  dot_lem g b false k old eg eb = rw (eg, eb) refl

  module _ (G : ℕ) (e : len bpp scale G ≡ stride * bpp) where
    dot_at :
        (word : ℕ) (t : Place bpp scale) (old : ℕ)
        → or_else
            (get_or (glyph_strip bpp scale G fg word) (offset bpp scale G t) none)
            (or_else (get_or (back_strip bpp scale G bg) (offset bpp scale G t) none) old)
          ≡ byte_of (if bit word (5 * t.y + t.x) then fg else bg) t.k
    dot_at word t old =
        dot_lem _ _ (bit word (5 * t.y + t.x)) t.k old
          (get_or-half_glyph bpp scale G fg word t
            ∙ ap (λ n. if n % 2 == 1 then some (byte_of fg t.k) else none)
                (bits_at_lem bpp scale G word t.y t.x (omega (arith, t.i_lt))))
          (get_or-half_background bpp scale G bg t)

    abbrev in_gap : ℕ → ℕ → ℕ → ℕ
    in_gap y i r = y * (scale * len bpp scale G) + (i * len bpp scale G + (5 * (scale * bpp) + r))

    in_gap_lt : (y i r : ℕ) → y < 6 → i < scale → r < G → in_gap y i r < half bpp scale G
    in_gap_lt y i r ly li lr =
        in_block y 6 (scale * len bpp scale G) _ ly
          (in_block i scale (len bpp scale G) _ li (omega arith))

    gap_at :
        (word y i r old : ℕ)
        → y < 6
        → i < scale
        → r < G
        → or_else
            (get_or (glyph_strip bpp scale G fg word) (in_gap y i r) none)
            (or_else (get_or (back_strip bpp scale G bg) (in_gap y i r) none) old)
          ≡ old
    gap_at word y i r old ly li lr =
        let g = (get_or-gap bpp scale G fg word y i r ly li lr).0 in
        let b = (get_or-gap bpp scale G bg word y i r ly li lr).1 in
        ap (λ o. or_else o (or_else (get_or (back_strip bpp scale G bg) (in_gap y i r) none) old)) g
        ∙ ap (λ o. or_else o old) b

    abbrev result : Memory
    result = drawn bpp scale G p fg bg upper lower m

    drawn_lem :
        (s : Spot p bpp scale G) → result (address stride s) ≡ shows (upper, lower) fg bg m stride s
    drawn_lem (dot_byte false t) =
        let at : address {p = p} {bpp = bpp} {scale = scale} {gap = G} stride (dot_byte false t)
            ≡ p + offset bpp scale G t =
          rw (← e) (omega arith) in
        rw at (
          drawn-upper bpp scale G p fg bg upper lower m (offset bpp scale G t)
            (offset_lt bpp scale G t)
          ∙ dot_at upper t (m (p + offset bpp scale G t)))
    drawn_lem (dot_byte true t) =
        let at : address {p = p} {bpp = bpp} {scale = scale} {gap = G} stride (dot_byte true t)
            ≡ p + half bpp scale G + offset bpp scale G t =
          rw (← e) (omega arith) in
        rw at (
          drawn-lower bpp scale G p fg bg upper lower m (offset bpp scale G t)
          ∙ dot_at lower t (m (p + half bpp scale G + offset bpp scale G t)))
    drawn_lem (gap_byte false y i r ly li lr) =
        let o = in_gap y i r in
        let at : address {p = p} {bpp = bpp} {scale = scale} {gap = G} stride
              (gap_byte false y i r ly li lr)
            ≡ p + o =
          rw (← e) (omega arith) in
        rw at (
          drawn-upper bpp scale G p fg bg upper lower m o (in_gap_lt y i r ly li lr)
          ∙ gap_at upper y i r (m (p + o)) ly li lr)
    drawn_lem (gap_byte true y i r ly li lr) =
        let o = in_gap y i r in
        let at : address {p = p} {bpp = bpp} {scale = scale} {gap = G} stride
              (gap_byte true y i r ly li lr)
            ≡ p + half bpp scale G + o =
          rw (← e) (omega arith) in
        rw at (
          drawn-lower bpp scale G p fg bg upper lower m o
          ∙ gap_at lower y i r (m (p + half bpp scale G + o)) ly li lr)
    drawn_lem (before a lt) = drawn-out bpp scale G p fg bg upper lower m a (inl lt)
    drawn_lem (behind r) =
        drawn-out bpp scale G p fg bg upper lower m (p + (12 * (scale * (stride * bpp)) + r))
          (inr (rw e (omega arith)))

  -- Where a line of dots fits into a line of the screen, whose bytes 32 bits hold: in its twelve lines of dots, each
  -- `scale` times as high and as wide, the glyph shows the foreground at each bit of its two words that is set and the
  -- background at the others, 5 bits for a line from the lowest on, in every byte of the pixel; what lies behind the
  -- dots of a line, in front of the glyph and behind it does
  -- not change. Every address is one of these places.
  pub fb_con_draw_glyph_lem :
      5 * scale ≤ stride
      → stride < 2 ^ 32
      → stride * bpp < 2 ^ 32
      → ((s : Spot p bpp scale ((stride - 5 * scale) * bpp))
          → fb_con_draw_glyph p stride bpp (upper, lower) scale fg bg m (address stride s)
            ≡ shows (upper, lower) fg bg m stride s)
        × ((a : ℕ) → (s : Spot p bpp scale ((stride - 5 * scale) * bpp)) × (address stride s ≡ a))
  fb_con_draw_glyph_lem fits small bytes =
      let G = (stride - 5 * scale) * bpp in
      (
        (λ s.
            ap (λ c. c (address stride s))
              (draws
                ∙ ap (λ g. drawn bpp scale g p fg bg upper lower m)
                    (gap_of_lem stride bpp scale fits small bytes))
            ∙ drawn_lem G (len_lem stride bpp scale fits) s),
        each_address p stride bpp scale G (len_lem stride bpp scale fits),
      )
