-- ===== src/FbCon/Glyph/Spots.antt =====
-- The places of a glyph that `FbConDrawglyph` of HtcLeoPkg/Library/FrameBufferSerialPortLib draws, and their addresses.
use htc_leo_pkg.Base.{
  ℕ, zero, suc, ◌+◌, ◌-◌, ◌*◌, ◌≤◌, ◌<◌, ◌≡◌, refl, inl, inr, Bool, true, false, Bool-cases, arith,
  ltb, ltb→lt, ltb→le, if◌then◌else◌,
}
use htc_leo_pkg.Base.Memory.{Memory}
use htc_leo_pkg.FbCon.Glyph.Picture.{Place, byte_of, len}
use htc_leo_pkg.FbCon.Glyph.Drawn.{bit}

-- A number below a product, as a quotient and a rest
split_at : (n len a : ℕ) → a < n * len → (i : ℕ) × (r : ℕ) × (i < n) × (r < len) × (i * len + r ≡ a)
split_at zero len a lt = absurd (omega arith)
split_at (suc n) len a lt = elim (Bool-cases (ltb a len)) [
  | inl e ↦ (zero, a, omega arith, ltb→lt a len e, omega arith)
  | inr e ↦
      let le : len ≤ a = ltb→le a len e in
      let (i, r, li, lr, ei) = split_at n len (a - len) (omega arith) in
      (suc i, r, omega (arith, li), lr, omega (arith, ei))
]

-- The places on the screen of a glyph at `p`: a byte of a dot in the upper or the lower half, a byte behind the dots
-- of a line, and what is in front of the glyph and behind it
pub data Spot (p bpp scale gap : ℕ) : Type 0 where
  dot_byte : Bool → Place bpp scale → Spot p bpp scale gap
  gap_byte : Bool → (y i r : ℕ) → y < 6 → i < scale → r < gap → Spot p bpp scale gap
  before : (a : ℕ) → a < p → Spot p bpp scale gap
  behind : ℕ → Spot p bpp scale gap

-- The line of pixels of a line of dots
abbrev pub pixel_line : ℕ → Bool → ℕ → ℕ → ℕ
pixel_line scale lower y i = ((if lower then 6 else 0) + y) * scale + i

-- The address of a place, for lines of `stride` pixels
abbrev pub address : {p bpp scale gap : ℕ} → ℕ → Spot p bpp scale gap → ℕ
address {p} {bpp} {scale} stride (dot_byte lower t) =
    p + (pixel_line scale lower t.y t.i * (stride * bpp) + ((t.x * scale + t.j) * bpp + t.k))
address {p} {bpp} {scale} stride (gap_byte lower y i r _ _ _) =
    p + (pixel_line scale lower y i * (stride * bpp) + (5 * (scale * bpp) + r))
address stride (before a lt) = a
address {p} {bpp} {scale} stride (behind r) = p + (12 * (scale * (stride * bpp)) + r)

-- What the glyph shows there, for the two words of the glyph and the screen before
abbrev pub shows : {p bpp scale gap : ℕ} → ℕ × ℕ → ℕ → ℕ → Memory → ℕ → Spot p bpp scale gap → ℕ
shows glyph fg bg m stride (dot_byte lower t) =
    byte_of (if bit (if lower then glyph.1 else glyph.0) (5 * t.y + t.x) then fg else bg) t.k
shows glyph fg bg m stride s = m (address stride s)

-- Each address is at one of the places.
module _ (p stride bpp scale G : ℕ) (e : len bpp scale G ≡ stride * bpp) where
  abbrev lines : ℕ
  lines = scale * (stride * bpp)

  in_line_spot :
      (lower : Bool) (y i r : ℕ)
      → y < 6
      → i < scale
      → r < stride * bpp
      → (s : Spot p bpp scale G) × (address stride s
          ≡ p + (pixel_line scale lower y i * (stride * bpp) + r))
  in_line_spot lower y i r ly li lr = elim (Bool-cases (ltb r (5 * (scale * bpp)))) [
    | inl in_dots ↦
        let (x, d, lx, ld, ex) =
          split_at 5 (scale * bpp) r (ltb→lt r (5 * (scale * bpp)) in_dots) in
        let (j, k, lj, lk, ej) = split_at scale bpp d ld in
        let t : Place bpp scale = record {
          y = y;
          i = i;
          x = x;
          j = j;
          k = k;
          y_lt = ly;
          i_lt = li;
          x_lt = lx;
          j_lt = lj;
          k_lt = lk;
        } in
        (dot_byte lower t, omega (arith, ex, ej))
    | inr behind_dots ↦
        let le : 5 * (scale * bpp) ≤ r = ltb→le r (5 * (scale * bpp)) behind_dots in
        (gap_byte lower y i (r - 5 * (scale * bpp)) ly li (omega (arith, e)), omega arith)
  ]

  in_half_spot :
      (lower : Bool) (r : ℕ)
      → r < 6 * lines
      → (s : Spot p bpp scale G) × (address stride s ≡ p + ((if lower then 6 else 0) * lines + r))
  in_half_spot lower r lt =
      let (y, u, ly, lu, ey) = split_at 6 lines r lt in
      let (i, v, li, lv, ei) = split_at scale (stride * bpp) u lu in
      let (s, es) = in_line_spot lower y i v ly li lv in (s, omega (arith, es, ey, ei))

  pub each_address : (a : ℕ) → (s : Spot p bpp scale G) × (address stride s ≡ a)
  each_address a = elim (Bool-cases (ltb a p)) [
    | inl lt ↦ (before a (ltb→lt a p lt), refl)
    | inr ge ↦
        let le : p ≤ a = ltb→le a p ge in
        elim (Bool-cases (ltb (a - p) (6 * lines))) [
          | inl lt ↦
              let (s, es) = in_half_spot false (a - p) (ltb→lt (a - p) (6 * lines) lt) in
              (s, omega (arith, es))
          | inr ge6 ↦
              let le6 : 6 * lines ≤ a - p = ltb→le (a - p) (6 * lines) ge6 in
              elim (Bool-cases (ltb (a - p - 6 * lines) (6 * lines))) [
                | inl lt ↦
                    let (s, es) =
                      in_half_spot true (a - p - 6 * lines)
                        (ltb→lt (a - p - 6 * lines) (6 * lines) lt) in
                    (s, omega (arith, es))
                | inr ge12 ↦
                    let le12 : 6 * lines ≤ a - p - 6 * lines =
                      ltb→le (a - p - 6 * lines) (6 * lines) ge12 in
                    (behind (a - p - 12 * lines), omega arith)
              ]
        ]
  ]
