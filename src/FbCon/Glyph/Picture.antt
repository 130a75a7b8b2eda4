-- ===== src/FbCon/Glyph/Picture.antt =====
-- The picture that `FbConDrawglyph` and `ResetFb` of HtcLeoPkg/Library/FrameBufferSerialPortLib leave on the screen.
use htc_leo_pkg.Base.{
  ℕ, zero, suc, ◌+◌, ◌*◌, ◌/◌, ◌%◌, ◌<◌, ◌≡◌, refl, ◌∙◌, inl, inr, Bool-cases, ◌++◌, none, some,
  arith, length, get_or, ◌==◌, if◌then◌else◌,
}
use htc_leo_pkg.FbCon.Glyph.Strip.{
  Strip, iterate, chain, length-chain, get_or-chain, get_or-append_left, get_or-append_right,
}
use htc_leo_pkg.FbCon.Glyph.Painted.{
  same, each, pixel, blank, length-blank, dot, no_dot, dot_of, dots, background_line, next_line,
  line, line_len, length-pixel, length-dot, length-dot_of, length-dots, length-background_line,
  length-line,
}

-- A place in one half of a glyph: the line of dots `y` and its repetition `i`, the dot `x` and its repetition `j`, and
-- the byte `k`
pub record Place (bpp scale : ℕ) : Type 0 where
  pub y : ℕ
  pub i : ℕ
  pub x : ℕ
  pub j : ℕ
  pub k : ℕ
  pub y_lt : y < 6
  pub i_lt : i < scale
  pub x_lt : x < 5
  pub j_lt : j < scale
  pub k_lt : k < bpp

pub in_block : (i n len r : ℕ) → i < n → r < len → i * len + r < n * len
in_block i zero len r li lr = absurd (omega arith)
in_block zero (suc n) len r li lr = omega arith
in_block (suc i) (suc n) len r li lr = omega (arith, in_block i n len r (omega arith) lr)

-- A byte of a colour
abbrev pub byte_of : ℕ → ℕ → ℕ
byte_of color k = iterate (λ c. c / 256) k color % 256

pub get_or-pixel :
    (bpp color k : ℕ) → k < bpp → get_or (pixel bpp color) k none ≡ some (byte_of color k)
get_or-pixel zero color k lt = absurd (omega arith)
get_or-pixel (suc bpp) color zero lt = refl
get_or-pixel (suc bpp) color (suc k) lt = get_or-pixel bpp (color / 256) k (omega arith)

get_or-blank : (n k : ℕ) → get_or (blank n) k none ≡ none
get_or-blank zero k = refl
get_or-blank (suc n) zero = refl
get_or-blank (suc n) (suc k) = get_or-blank n k

module _ (bpp scale gap : ℕ) where
  -- Where a byte of a dot is in the strip of the dot
  get_or-dot :
      (color j k : ℕ)
      → j < scale
      → k < bpp
      → get_or (dot bpp scale gap color) (j * bpp + k) none ≡ some (byte_of color k)
  get_or-dot color j k lj lk =
      get_or-chain same (λ v. pixel bpp color) bpp scale j k 0
        (λ v. length-pixel bpp scale gap color) lj lk
      ∙ get_or-pixel bpp color k lk

  get_or-no_dot :
      (j k : ℕ) → j < scale → k < bpp → get_or (no_dot bpp scale gap) (j * bpp + k) none ≡ none
  get_or-no_dot j k lj lk =
      get_or-chain same (λ v. blank bpp) bpp scale j k 0 (λ v. length-blank bpp) lj lk
      ∙ get_or-blank bpp k

  get_or-dot_of :
      (color bits j k : ℕ)
      → j < scale
      → k < bpp
      → get_or (dot_of bpp scale gap color bits) (j * bpp + k) none
        ≡ (if bits % 2 == 1 then some (byte_of color k) else none)
  get_or-dot_of color bits j k lj lk = elim (Bool-cases (bits % 2 == 1)) [
    | inl e ↦ rw e (get_or-dot color j k lj lk)
    | inr e ↦ rw e (get_or-no_dot j k lj lk)
  ]

  abbrev pub len : ℕ
  len = line_len bpp scale gap

  -- Where a place is in the strip of its half
  abbrev pub in_line : Place bpp scale → ℕ
  in_line t = t.x * (scale * bpp) + (t.j * bpp + t.k)

  abbrev pub offset : Place bpp scale → ℕ
  offset t = t.y * (scale * len) + (t.i * len + in_line t)

  in_dot_lt : (t : Place bpp scale) → t.j * bpp + t.k < scale * bpp
  in_dot_lt t = in_block t.j scale bpp t.k t.j_lt t.k_lt

  in_dots_lt : (t : Place bpp scale) → in_line t < 5 * (scale * bpp)
  in_dots_lt t = in_block t.x 5 (scale * bpp) (t.j * bpp + t.k) t.x_lt (in_dot_lt t)

  in_line_lt : (t : Place bpp scale) → in_line t < len
  in_line_lt t = omega (arith, in_dots_lt t)

  in_lines_lt : (t : Place bpp scale) → t.i * len + in_line t < scale * len
  in_lines_lt t = in_block t.i scale len (in_line t) t.i_lt (in_line_lt t)

  pub offset_lt : (t : Place bpp scale) → offset t < 6 * (scale * len)
  offset_lt t = in_block t.y 6 (scale * len) (t.i * len + in_line t) t.y_lt (in_lines_lt t)

  -- The bits that the loops have left at a dot
  abbrev pub bits_at : ℕ → ℕ → ℕ → ℕ
  bits_at word y x = iterate (λ b. b / 2) x (iterate (next_line bpp scale gap) y word)

  -- What stands in a half at `r` of a line
  get_or-half :
      (color word y i r : ℕ)
      → y < 6
      → i < scale
      → r < len
      → get_or
          (chain (next_line bpp scale gap) (line bpp scale gap color) 6 word)
          (y * (scale * len) + (i * len + r))
          none
        ≡ get_or (dots bpp scale gap color (iterate (next_line bpp scale gap) y word)) r none
  get_or-half color word y i r ly li lr =
      get_or-chain (next_line bpp scale gap) (line bpp scale gap color) (scale * len) 6 y
        (i * len + r) word (length-line bpp scale gap color) ly (in_block i scale len r li lr)
      ∙ get_or-chain _ _ len scale i r (iterate (next_line bpp scale gap) y word)
          (λ v. length-dots bpp scale gap color (iterate (next_line bpp scale gap) y word)) li lr

  pub get_or-half_glyph :
      (color word : ℕ) (t : Place bpp scale)
      → get_or (chain (next_line bpp scale gap) (line bpp scale gap color) 6 word) (offset t) none
        ≡ (if bits_at word t.y t.x % 2 == 1 then some (byte_of color t.k) else none)
  get_or-half_glyph color word t =
      let w = iterate (next_line bpp scale gap) t.y word in
      let row = chain (λ b. b / 2) (dot_of bpp scale gap color) 5 w in
      get_or-half color word t.y t.i (in_line t) t.y_lt t.i_lt (in_line_lt t)
      ∙ (get_or-append_left row (blank gap) (in_line t) none (
            omega (
              arith,
              length-chain (λ b. b / 2) (dot_of bpp scale gap color) (scale * bpp) 5 w
                  (length-dot_of bpp scale gap color),
              in_dots_lt t,
            ))
          ∙ (get_or-chain (λ b. b / 2) (dot_of bpp scale gap color) (scale * bpp) 5 t.x
                (t.j * bpp + t.k) w (length-dot_of bpp scale gap color) t.x_lt (in_dot_lt t)
              ∙ get_or-dot_of color (bits_at word t.y t.x) t.j t.k t.j_lt t.k_lt))

  get_or-half_back :
      (color y i r : ℕ)
      → y < 6
      → i < scale
      → r < len
      → get_or
          (each 6 (each scale (background_line bpp scale gap color)))
          (y * (scale * len) + (i * len + r))
          none
        ≡ get_or (background_line bpp scale gap color) r none
  get_or-half_back color y i r ly li lr =
      get_or-chain same _ (scale * len) 6 y (i * len + r) 0
        (λ v. length-chain same _ len scale 0 (λ u. length-background_line bpp scale gap color)) ly
        (in_block i scale len r li lr)
      ∙ get_or-chain same _ len scale i r 0 (λ v. length-background_line bpp scale gap color) li lr

  pub get_or-half_background :
      (color : ℕ) (t : Place bpp scale)
      → get_or (each 6 (each scale (background_line bpp scale gap color))) (offset t) none
        ≡ some (byte_of color t.k)
  get_or-half_background color t =
      let row = each 5 (dot bpp scale gap color) in
      get_or-half_back color t.y t.i (in_line t) t.y_lt t.i_lt (in_line_lt t)
      ∙ (get_or-append_left row (blank gap) (in_line t) none (
            omega (
              arith,
              length-chain same (λ v. dot bpp scale gap color) (scale * bpp) 5 0
                  (λ v. length-dot bpp scale gap color),
              in_dots_lt t,
            ))
          ∙ (get_or-chain same (λ v. dot bpp scale gap color) (scale * bpp) 5 t.x (t.j * bpp + t.k)
                0 (λ v. length-dot bpp scale gap color) t.x_lt (in_dot_lt t)
              ∙ get_or-dot color t.j t.k t.j_lt t.k_lt))

  -- Behind the dots of a line
  get_or-behind :
      (k : Strip) (r : ℕ)
      → length k ≡ 5 * (scale * bpp)
      → get_or (k ++ blank gap) (5 * (scale * bpp) + r) none ≡ none
  get_or-behind k r e = rw (← e) (get_or-append_right k (blank gap) r none ∙ get_or-blank gap r)

  pub get_or-gap :
      (color word y i r : ℕ)
      → y < 6
      → i < scale
      → r < gap
      → (get_or
            (chain (next_line bpp scale gap) (line bpp scale gap color) 6 word)
            (y * (scale * len) + (i * len + (5 * (scale * bpp) + r)))
            none
          ≡ none)
        × (get_or
              (each 6 (each scale (background_line bpp scale gap color)))
              (y * (scale * len) + (i * len + (5 * (scale * bpp) + r)))
              none
            ≡ none)
  get_or-gap color word y i r ly li lr =
      let w = iterate (next_line bpp scale gap) y word in
      (
        get_or-half color word y i (5 * (scale * bpp) + r) ly li (omega arith)
            ∙ get_or-behind _ r (
                length-chain (λ b. b / 2) (dot_of bpp scale gap color) (scale * bpp) 5 w
                  (length-dot_of bpp scale gap color)),
        get_or-half_back color y i (5 * (scale * bpp) + r) ly li (omega arith)
            ∙ get_or-behind _ r (
                length-chain same (λ v. dot bpp scale gap color) (scale * bpp) 5 0
                  (λ v. length-dot bpp scale gap color)),
      )
