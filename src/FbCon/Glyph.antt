-- ===== src/FbCon/Glyph.antt =====
-- The pixels of HtcLeoPkg/Library/FrameBufferSerialPortLib/FrameBufferSerialPortLib.c: a glyph and the screen are
-- written byte by byte through a pointer that each loop advances.
pub mod Strip
pub mod Painted
pub mod Picture
pub mod Drawn
pub mod Spots
pub mod Shown
use htc_leo_pkg.Base.{
  ℕ, zero, suc, ◌+◌, ◌-◌, ◌*◌, ◌/◌, ◌%◌, ◌^◌, List, [], ◌∷◌, get_or, ◌==◌, if◌then◌else◌,
}
use htc_leo_pkg.Base.Memory.{Memory, write}
use htc_leo_pkg.FbCon.{black}

-- The pointer, and the memory that it points into
pub record Pen : Type 0 where
  pub pixels : ℕ
  pub screen : Memory

-- A `for` loop of so many rounds
unfoldable pub repeat {ℓ} : {A : Type ℓ} → ℕ → (A → A) → A → A
repeat zero body a = a
repeat (suc n) body a = repeat n body (body a)

-- `*pixels = (unsigned char)color; color = color >> 8; pixels++;`
abbrev pub put_byte : ℕ × Pen → ℕ × Pen
put_byte (color, s) =
    (color / 256, record { pixels = s.pixels + 1; screen = write s.screen s.pixels (color % 256) })

-- The loop over the bytes of a pixel
abbrev pub put_pixel : ℕ → ℕ → Pen → Pen
put_pixel bpp color s = (repeat bpp put_byte (color, s)).1

abbrev pub advance : ℕ → Pen → Pen
advance n s = record s { pixels = s.pixels + n }

-- `bpp` is in bytes; `gap` is what the pointer skips behind each line.
module _ (bpp scale gap : ℕ) where
  -- One half of the background, six lines of dots
  unfoldable pub half_background : ℕ → Pen → Pen
  unfolding repeat
  half_background color =
      repeat 6 (repeat scale (λ s. advance gap (repeat 5 (repeat scale (put_pixel bpp color)) s)))

  -- The loop over `x`: a dot for the lowest bit of `bits`, which is shifted
  abbrev pub put_dot : ℕ → ℕ × Pen → ℕ × Pen
  put_dot color (bits, s) = (
    bits / 2,
    (if bits % 2 == 1 then repeat scale (put_pixel bpp color) s else repeat scale (advance bpp) s),
  )

  -- The loop over `i`: the same line `scale` times, from `temp` each time
  unfoldable pub put_line : ℕ → ℕ × Pen → ℕ × Pen
  unfolding repeat
  put_line color (temp, s) =
      repeat scale (λ t. let r = repeat 5 (put_dot color) (temp, t.1) in (r.0, advance gap r.1))
        (temp, s)

  -- The loop over `y` on one word of the glyph
  unfoldable pub half_glyph : ℕ → ℕ → Pen → Pen
  unfolding repeat put_line
  half_glyph color word s = (repeat 6 (put_line color) (word, s)).1

-- `stride -= FONT_WIDTH * scale_factor` and `stride * bpp`, in 32 bits
abbrev pub gap_of : ℕ → ℕ → ℕ → ℕ
gap_of stride bpp scale = (stride + 2 ^ 32 - 5 * scale % 2 ^ 32) % 2 ^ 32 * bpp % 2 ^ 32

-- `FbConDrawglyph`, for the words of the glyph
unfoldable pub fb_con_draw_glyph : ℕ → ℕ → ℕ → ℕ × ℕ → ℕ → ℕ → ℕ → Memory → Memory
unfolding half_background half_glyph
fb_con_draw_glyph pixels stride bpp glyph scale foreground background screen =
    let gap = gap_of stride bpp scale in
    let first : Pen = record { pixels = pixels; screen = screen } in
    let cleared =
      half_background bpp scale gap background (half_background bpp scale gap background first) in
    let upper = half_glyph bpp scale gap foreground glyph.0 (record cleared { pixels = pixels }) in
    (half_glyph bpp scale gap foreground glyph.1 upper).screen

-- `ResetFb`
unfoldable pub reset_screen : ℕ → ℕ → ℕ → ℕ → Memory → Memory
unfolding repeat
reset_screen address width height bpp screen =
    (repeat width (repeat height (put_pixel (bpp / 8) black))
      (record { pixels = address; screen = screen })).screen
