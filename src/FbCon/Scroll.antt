-- ===== src/FbCon/Scroll.antt =====
-- `FbConScrollUp` and the end of `ResetFb`, HtcLeoPkg/Library/FrameBufferSerialPortLib. The scrolling works on
-- half-words: its memory has one at each address.
use htc_leo_pkg.Base.{
  ℕ, zero, suc, ◌+◌, ◌-◌, ◌*◌, ◌/◌, ◌%◌, ◌^◌, ◌≤◌, ◌<◌, ◌≡◌, ◌⊎◌, refl, ap, ◌∙◌, ◌&&◌, arith, ltb,
  leb, if◌then◌else◌,
}
use htc_leo_pkg.Base.Memory.{Memory, write}
use htc_leo_pkg.FbCon.{black}
use htc_leo_pkg.FbCon.Glyph.{Pen, repeat, reset_screen}
use htc_leo_pkg.FbCon.Glyph.Strip.{
  or_else, overlay-in, overlay-out, repeat_painted, length-chain, get_or-chain,
}
use htc_leo_pkg.FbCon.Glyph.Painted.{same, each, pixel, put_pixel-painted, length-pixel}
use htc_leo_pkg.FbCon.Glyph.Picture.{byte_of, get_or-pixel, in_block}

-- `dst`, `src` and the memory
pub record Copy : Type 0 where
  pub dst : ℕ
  pub src : ℕ
  pub halves : Memory

-- `*dst++ = *src++` and `*dst++ = m_Color.Background`, which keeps the lower half of the colour
abbrev pub copy_half : Copy → Copy
copy_half s = record {
  dst = s.dst + 1;
  src = s.src + 1;
  halves = write s.halves s.dst (s.halves s.src);
}

abbrev pub clear_half : ℕ → Copy → Copy
clear_half background s = record s {
  dst = s.dst + 1;
  halves = write s.halves s.dst (background % 2 ^ 16);
}

-- `FbConScrollUp`, for a screen from the half-word `dst` on
unfoldable pub fb_con_scroll_up : ℕ → ℕ → ℕ → ℕ → Memory → Memory
unfolding repeat
fb_con_scroll_up dst width height background m =
    let first : Copy = record { dst = dst; src = dst + width * 12; halves = m } in
    let moved = repeat (width * (height - 12)) copy_half first in
    (repeat (width * 12) (clear_half background) moved).halves

-- Copying up to lower addresses
copied_step :
    (n d s k : ℕ) (m : Memory) (a : ℕ)
    → s ≡ d + k
    → (if leb (d + 1) a && ltb a (d + 1 + n) then write m d (m s) (a + k) else write m d (m s) a)
      ≡ (if leb d a && ltb a (d + suc n) then m (a + k) else m a)
copied_step n d s k m a e =
    let at : a ≡ d → m s ≡ m (a + k) = λ h. ap m (omega arith) in grind (arith, at)

copied :
    (n d s k : ℕ) (m : Memory)
    → s ≡ d + k
    → let c = repeat n copy_half (record { dst = d; src = s; halves = m }) in
      (c.dst ≡ d + n)
      × ((a : ℕ) → c.halves a ≡ (if leb d a && ltb a (d + n) then m (a + k) else m a))
unfolding repeat
copied zero d s k m e = (omega arith, λ a. ground arith)
copied (suc n) d s k m e =
    let (ends, halves) = copied n (d + 1) (s + 1) k (write m d (m s)) (omega arith) in
    (omega (arith, ends), λ a. halves a ∙ copied_step n d s k m a e)

cleared :
    (n d s v : ℕ) (m : Memory) (a : ℕ)
    → (repeat n (clear_half v) (record { dst = d; src = s; halves = m })).halves a
      ≡ (if leb d a && ltb a (d + n) then v % 2 ^ 16 else m a)
unfolding repeat
cleared zero d s v m a = ground arith
cleared (suc n) d s v m a = cleared n (d + 1) s v (write m d (v % 2 ^ 16)) a ∙ ground arith

rows : (width height : ℕ) → 12 ≤ height → width * height ≡ width * (height - 12) + width * 12
rows width height le =
    let all : height ≡ (height - 12) + 12 = omega arith in
    let product : width * height ≡ width * ((height - 12) + 12) = ap (λ h. width * h) all in
    omega (arith, product)

scrolled :
    (dst n k all v moved old a : ℕ)
    → all ≡ n + k
    → (if leb (dst + n) a && ltb a (dst + n + k)
        then v
        else if leb dst a && ltb a (dst + n)
        then moved
        else old)
      ≡ (if leb dst a && ltb a (dst + n)
          then moved
          else if leb dst a && ltb a (dst + all)
          then v
          else old)
scrolled dst n k all v moved old a e = ground arith

-- The screen moves by 12 times `width` half-words, and the background is behind it.
pub fb_con_scroll_up_lem :
    (dst width height background : ℕ) (m : Memory) (a : ℕ)
    → 12 ≤ height
    → fb_con_scroll_up dst width height background m a ≡ (
        if leb dst a && ltb a (dst + width * (height - 12))
        then m (a + width * 12)
        else if leb dst a && ltb a (dst + width * height)
        then background % 2 ^ 16
        else m a)
unfolding fb_con_scroll_up
fb_con_scroll_up_lem dst width height background m a le =
    let n = width * (height - 12) in
    let c = repeat n copy_half (record { dst = dst; src = dst + width * 12; halves = m }) in
    let (ends, halves) = copied n dst (dst + width * 12) (width * 12) m refl in
    let whole : width * height ≡ n + width * 12 = rows width height le in
    cleared (width * 12) c.dst c.src background c.halves a
    ∙ (ap (λ d. if leb d a && ltb a (d + width * 12) then background % 2 ^ 16 else c.halves a) ends
        ∙ (ap
              (λ v.
                if leb (dst + n) a && ltb a (dst + n + width * 12) then background % 2 ^ 16 else v)
              (halves a)
            ∙ scrolled dst n (width * 12) (width * height) (background % 2 ^ 16)
                (m (a + width * 12)) (m a) a whole))

-- `ResetFb`: every byte of every pixel has its part of the colour black, and nothing outside the screen changes.
pub reset_screen_lem :
    (p width height bpp : ℕ) (m : Memory) (i j k : ℕ)
    → i < width
    → j < height
    → k < bpp / 8
    → (reset_screen p width height bpp m (p + (i * (height * (bpp / 8)) + (j * (bpp / 8) + k)))
        ≡ byte_of black k)
unfolding reset_screen
reset_screen_lem p width height bpp m i j k li lj lk =
    let b = bpp / 8 in
    let column = each height (pixel b black) in
    let column_len =
      length-chain same (λ v. pixel b black) b height 0 (λ v. length-pixel b 0 0 black) in
    let r = i * (height * b) + (j * b + k) in
    let first : Pen = record { pixels = p; screen = m } in
    ap (λ (s : Pen). s.screen (p + r))
      (repeat_painted column _ (repeat_painted (pixel b black) _ (put_pixel-painted b black) height)
        width first)
    ∙ (overlay-in p (each width column) m r
        ∙ ap (λ o. or_else o (m (p + r)))
            (get_or-chain same (λ v. column) (height * b) width i (j * b + k) 0 (λ v. column_len) li
                (in_block j height b k lj lk)
              ∙ (get_or-chain same (λ v. pixel b black) b height j k 0
                    (λ v. length-pixel b 0 0 black) lj lk
                  ∙ get_or-pixel b black k lk)))

pub reset_screen-out :
    (p width height bpp : ℕ) (m : Memory) (a : ℕ)
    → (a < p) ⊎ (p + width * (height * (bpp / 8)) ≤ a)
    → reset_screen p width height bpp m a ≡ m a
unfolding reset_screen
reset_screen-out p width height bpp m a out =
    let b = bpp / 8 in
    let column = each height (pixel b black) in
    let column_len =
      length-chain same (λ v. pixel b black) b height 0 (λ v. length-pixel b 0 0 black) in
    let first : Pen = record { pixels = p; screen = m } in
    ap (λ (s : Pen). s.screen a)
      (repeat_painted column _ (repeat_painted (pixel b black) _ (put_pixel-painted b black) height)
        width first)
    ∙ overlay-out p (each width column) m a (
        ground (arith, out, length-chain same (λ v. column) (height * b) width 0 (λ v. column_len)))
