-- ===== src/FbCon/Frame.antt =====
-- The console of HtcLeoPkg/Library/FrameBufferSerialPortLib/FrameBufferSerialPortLib.c on the memory: its events drawn.
pub mod Safe
use htc_leo_pkg.Base.{ℕ, ◌+◌, ◌-◌, ◌*◌, ◌/◌, List, [], ◌∷◌, get_or}
use htc_leo_pkg.Base.Memory.{Memory}
use htc_leo_pkg.FbCon.{FbEvent, glyph, reset_fb, flush}
use htc_leo_pkg.FbCon.Font.{font5x12}
use htc_leo_pkg.FbCon.Glyph.{fb_con_draw_glyph, reset_screen}

-- PcdMipiFrameBufferAddress, `gWidth`, `gHeight` and `gBpp`
pub record Frame : Type 0 where
  pub base : ℕ
  pub width : ℕ
  pub height : ℕ
  pub bpp : ℕ

-- `Pixels` of `FbConPutCharWithFactor`
abbrev pub pixels_at : Frame → ℕ → ℕ → ℕ → ℕ
pixels_at f x y scale = f.base + y * (f.bpp / 8 * 12 * f.width) + x * scale * (f.bpp / 8 * 6)

abbrev pub glyph_of : ℕ → ℕ × ℕ
glyph_of ch = (get_or font5x12 ((ch - 32) * 2) 0, get_or font5x12 ((ch - 32) * 2 + 1) 0)

-- An event, with `m_Color.Background`; the flush of the cache leaves the memory.
unfoldable pub show : Frame → ℕ → FbEvent → Memory → Memory
show f background (glyph ch x y scale color) m =
    fb_con_draw_glyph (pixels_at f x y scale) f.width (f.bpp / 8) (glyph_of ch) scale color
      background m
show f background reset_fb m = reset_screen f.base f.width f.height f.bpp m
show f background flush m = m

unfoldable pub show_all : Frame → ℕ → List FbEvent → Memory → Memory
unfolding show
show_all f background [] m = m
show_all f background (e ∷ es) m = show_all f background es (show f background e m)
