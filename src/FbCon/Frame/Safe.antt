-- ===== src/FbCon/Frame/Safe.antt =====
-- The console of HtcLeoPkg/Library/FrameBufferSerialPortLib writes in the frame buffer only.
use mathlib.Core.Path.{subst}
use native.Mathlib.Nat.{le-div_iff_mul-le}
use htc_leo_pkg.Base.{
  ℕ, ◌+◌, ◌-◌, ◌*◌, ◌/◌, ◌^◌, ◌≤◌, ◌<◌, ◌≡◌, ◌⊎◌, refl, sym, ap, ◌∙◌, inl, inr, Bool, true, false,
  List, [], ◌∷◌, some, arith, All, if◌then◌else◌,
}
use htc_leo_pkg.Base.Memory.{Memory}
use htc_leo_pkg.FbCon.{FbCon, FbEvent, glyph, reset_fb, flush, write_chars}
use htc_leo_pkg.FbCon.Cursor.{Screen, InScreen, OnScreen, write_chars-Fits}
use htc_leo_pkg.FbCon.Glyph.{fb_con_draw_glyph}
use htc_leo_pkg.FbCon.Glyph.Picture.{in_block}
use htc_leo_pkg.FbCon.Glyph.Shown.{fb_con_draw_glyph_lem}
use htc_leo_pkg.FbCon.Glyph.Spots.{Spot, dot_byte, gap_byte, before, behind, address, shows}
use htc_leo_pkg.FbCon.Scroll.{reset_screen-out}
use htc_leo_pkg.FbCon.Frame.{Frame, pixels_at, glyph_of, show, show_all}

-- An address outside the frame buffer
abbrev pub Outside : Frame → ℕ → Type 0
Outside f a = (a < f.base) ⊎ (f.base + f.width * (f.height * (f.bpp / 8)) ≤ a)

-- A column and a line of pixels that a glyph covers
column_lt :
    (width x scale c : ℕ)
    → 0 < scale
    → x < width / 6 / scale
    → c < 5 * scale
    → x * scale * 6 + c < width
column_lt width x scale c pos lt lc =
    let fits : (x + 1) * scale ≤ width / 6 = (le-div_iff_mul-le pos).0 (omega arith) in
    omega (arith, fits)

row_lt :
    (height y scale r : ℕ) → y + scale < (height - 1) / 12 → r < 12 * scale → y * 12 + r < height
row_lt height y scale r lt lr = omega arith

-- A byte of a pixel of the frame is in the frame buffer.
byte_lt :
    (f : Frame) (row col k : ℕ)
    → row < f.height
    → col < f.width
    → k < f.bpp / 8
    → row * (f.width * (f.bpp / 8)) + (col * (f.bpp / 8) + k) < f.width * (f.height * (f.bpp / 8))
byte_lt f row col k lr lc lk =
    let inside =
      in_block row f.height (f.width * (f.bpp / 8)) (col * (f.bpp / 8) + k) lr
        (in_block col f.width (f.bpp / 8) k lc lk) in
    omega (arith, inside)

half_row :
    (lower : Bool) (y scale i : ℕ)
    → y < 6
    → i < scale
    → ((if lower then 6 else 0) + y) * scale + i < 12 * scale
half_row true y scale i ly li = in_block (6 + y) 12 scale i (omega arith) li
half_row false y scale i ly li = in_block (0 + y) 12 scale i (omega arith) li

-- The byte of a dot is in the frame buffer.
dot_inside :
    (f : Frame) (x y scale row col k : ℕ)
    → 0 < scale
    → x < f.width / 6 / scale
    → y + scale < (f.height - 1) / 12
    → row < 12 * scale
    → col < 5 * scale
    → k < f.bpp / 8
    → let a = pixels_at f x y scale + (row * (f.width * (f.bpp / 8)) + (col * (f.bpp / 8) + k)) in
      (f.base ≤ a) × (a < f.base + f.width * (f.height * (f.bpp / 8)))
dot_inside f x y scale row col k pos lx ly lr lc lk =
    let inside =
      byte_lt f (y * 12 + row) (x * scale * 6 + col) k (row_lt f.height y scale row ly lr)
        (column_lt f.width x scale col pos lx lc) lk in
    (omega arith, omega (arith, inside))

shows-Outside :
    (f : Frame) (x y scale color background G : ℕ) (words : ℕ × ℕ) (m : Memory)
    → 0 < scale
    → x < f.width / 6 / scale
    → y + scale < (f.height - 1) / 12
    → (s : Spot (pixels_at f x y scale) (f.bpp / 8) scale G) → Outside f (address f.width s)
    → shows words color background m f.width s ≡ m (address f.width s)
shows-Outside f x y scale color background G words m pos lx ly (dot_byte lower t) out =
    let (low, high) =
      dot_inside f x y scale (((if lower then 6 else 0) + t.y) * scale + t.i) (t.x * scale + t.j)
        t.k pos lx ly (half_row lower t.y scale t.i t.y_lt t.i_lt)
        (in_block t.x 5 scale t.j t.x_lt t.j_lt) t.k_lt in
    absurd (elim out [ inl lt ↦ omega (arith, lt, low) | inr ge ↦ omega (arith, ge, high) ])
shows-Outside f x y scale color background G words m pos lx ly (gap_byte lower i j r a b c) out =
    refl
shows-Outside f x y scale color background G words m pos lx ly (before a lt) out = refl
shows-Outside f x y scale color background G words m pos lx ly (behind r) out = refl

module _ (f : Frame) (line_small : f.width * (f.bpp / 8) < 2 ^ 32)
    (width_small : f.width < 2 ^ 32) where
  module _ (background scale : ℕ) (pos : 0 < scale) where
    glyph-Outside :
        (ch x y color : ℕ) (m : Memory) (a : ℕ)
        → x < f.width / 6 / scale
        → y + scale < (f.height - 1) / 12
        → Outside f a
        → show f background (glyph ch x y scale color) m a ≡ m a
    unfolding show
    glyph-Outside ch x y color m a lx ly out =
        let p = pixels_at f x y scale in
        let fits : 5 * scale ≤ f.width =
          omega (arith, column_lt f.width x scale (5 * scale - 1) pos lx (omega arith)) in
        let (picture, each) =
          fb_con_draw_glyph_lem p f.width (f.bpp / 8) scale color background (glyph_of ch).0
            (glyph_of ch).1 m fits width_small line_small in
        let (s, at) = each a in
        let here : Outside f (address f.width s) = subst (Outside f) (sym at) out in
        sym (
          ap (λ b. fb_con_draw_glyph p f.width (f.bpp / 8) (glyph_of ch) scale color background m b)
            at)
        ∙ (picture s
            ∙ (shows-Outside f x y scale color background ((f.width - 5 * scale) * (f.bpp / 8))
                  (glyph_of ch) m pos lx ly s here
                ∙ ap m at))

    show_all-Outside :
        (es : List FbEvent) (m : Memory) (a : ℕ)
        → All (OnScreen (f.width / 6) ((f.height - 1) / 12) scale) es
        → Outside f a
        → show_all f background es m a ≡ m a
    unfolding show_all
    show_all-Outside [] m a on out = refl
    show_all-Outside (glyph ch x y s color ∷ es) m a ((lx, ly, e), on) out =
        show_all-Outside es (show f background (glyph ch x y s color) m) a on out
        ∙ (ap (λ z. show f background (glyph ch x y z color) m a) e
            ∙ glyph-Outside ch x y color m a lx ly out)
    show_all-Outside (reset_fb ∷ es) m a (u, on) out =
        show_all-Outside es (show f background reset_fb m) a on out
        ∙ reset_screen-out f.base f.width f.height f.bpp m a out
    show_all-Outside (flush ∷ es) m a (u, on) out = show_all-Outside es m a on out

    -- On a frame buffer whose line of bytes 32 bits hold, with room for more lines than two of the scale, and from a
    -- cursor inside the screen: `SerialPortWrite` of any text ends, and no address outside the frame buffer changes in
    -- memory when everything that it draws is drawn.
    pub write_chars-Outside :
        (chs : List ℕ) (c : FbCon) (m : Memory) (a : ℕ)
        → Screen (f.width / 6) ((f.height - 1) / 12) scale
        → InScreen (f.width / 6) ((f.height - 1) / 12) scale c
        → Outside f a
        → (c' : FbCon) × (es : List FbEvent) × (write_chars 2 scale chs c ≡ some (c', es))
          × (show_all f background es m a ≡ m a)
    write_chars-Outside chs c m a screen inside out =
        let (c', es, ends, stays, on) = write_chars-Fits screen 0 chs c inside in
        (c', es, ends, show_all-Outside es m a on out)
