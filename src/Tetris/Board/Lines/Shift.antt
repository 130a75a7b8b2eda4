-- ===== src/Tetris/Board/Lines/Shift.antt =====
-- What the loops of `checkAndRemoveLines` in HtcLeoPkg/Application/TetrisApp/Board.c store, read at
-- one element of the array.
use native.Mathlib.Decide.{dec_lt}
use htc_leo_pkg.Base.{
  ℕ, zero, suc, ◌+◌, ◌-◌, ◌≤◌, ◌<◌, ◌≡◌, ◌≢◌, ◌⊎◌, inl, inr, refl, ap, ap₂, ◌∙◌, Bool, true, false,
  ◌&&◌, not, List, [], ◌∷◌, arith, ltb, leb, ◌==◌, if◌then◌else◌,
}
use htc_leo_pkg.Base.Int.{pos}
use htc_leo_pkg.Tetris.Piece.{Color, black}
use htc_leo_pkg.Tetris.Board.Fields.{
  Grid, is_empty, redraw_field, full_from, paint_from, copy_from, shift_down,
}

copy_from_lem :
    (j n : ℕ) (g : Grid) (k y x : ℕ)
    → copy_from g j k n y x
      ≡ (if leb 2 y && (y == suc j && (leb k x && ltb x (k + n))) then g j x else g y x)
unfolding copy_from
copy_from_lem j zero g k y x = ground arith
copy_from_lem j (suc n) g k y x =
    copy_from_lem j n (redraw_field g (pos k) (pos (suc j)) (g j k)) (k + 1) y x ∙ ground arith

paint_from_lem : (i n : ℕ) (g : Grid) (j y x : ℕ) → y ≢ i → paint_from g i j n y x ≡ g y x
unfolding paint_from
paint_from_lem i zero g j y x h = refl
paint_from_lem i (suc n) g j y x h =
    paint_from_lem i n (redraw_field g (pos j) (pos i) black) (j + 1) y x h ∙ ground arith

paint_from_outside : (i n : ℕ) (g : Grid) (j y x : ℕ) → j + n ≤ x → paint_from g i j n y x ≡ g y x
unfolding paint_from
paint_from_outside i zero g j y x h = refl
paint_from_outside i (suc n) g j y x h =
    paint_from_outside i n (redraw_field g (pos j) (pos i) black) (j + 1) y x (omega arith)
    ∙ ground arith

paint_from_top : (i n : ℕ) (g : Grid) (j y x : ℕ) → y < 2 → paint_from g i j n y x ≡ g y x
unfolding paint_from
paint_from_top i zero g j y x h = refl
paint_from_top i (suc n) g j y x h =
    paint_from_top i n (redraw_field g (pos j) (pos i) black) (j + 1) y x h ∙ ground arith

copy_from_other :
    (j : ℕ) (g : Grid) (y x : ℕ)
    → (y ≢ suc j) ⊎ ((y < 2) ⊎ (10 ≤ x))
    → copy_from g j 0 10 y x ≡ g y x
copy_from_other j g y x h = copy_from_lem j 10 g 0 y x ∙ ground arith

copy_from_self : (j : ℕ) (g : Grid) (x : ℕ) → 1 ≤ j → x < 10 → copy_from g j 0 10 (suc j) x ≡ g j x
copy_from_self j g x h lt = copy_from_lem j 10 g 0 (suc j) x ∙ ground arith

shift_down_out :
    (i : ℕ) (g : Grid) (y x : ℕ) → (i < y) ⊎ ((y < 2) ⊎ (10 ≤ x)) → shift_down g i y x ≡ g y x
unfolding shift_down
shift_down_out zero g y x h = refl
shift_down_out (suc j) g y x h =
    shift_down_out j (copy_from g j 0 10) y x (omega arith) ∙ copy_from_other j g y x (omega arith)

shift_down_in :
    (i : ℕ) (g : Grid) (y x : ℕ) → 2 ≤ y → y ≤ i → x < 10 → shift_down g i y x ≡ g (y - 1) x
unfolding shift_down
shift_down_in zero g y x h k lt = absurd (omega arith)
shift_down_in (suc j) g y x h k lt = elim (dec_lt j y) [
  | yes p ↦
      let e : y ≡ suc j = omega arith in
      let d : y - 1 ≡ j = omega arith in
      shift_down_out j (copy_from g j 0 10) y x (inl p)
      ∙ rw (d, e) (copy_from_self j g x (omega arith) lt)
  | no p ↦
      shift_down_in j (copy_from g j 0 10) y x h (omega arith) lt
      ∙ copy_from_other j g (y - 1) x (inl (omega arith))
]

-- One removal at row `i`: each visible row up to `i` is the one that stood above it.
pub removal_in :
    (i : ℕ) (g : Grid) (y x : ℕ)
    → 2 ≤ y
    → y ≤ i
    → x < 10
    → shift_down (paint_from g i 0 10) i y x ≡ g (y - 1) x
removal_in i g y x h k lt =
    shift_down_in i (paint_from g i 0 10) y x h k lt
    ∙ paint_from_lem i 10 g 0 (y - 1) x (omega arith)

-- Nothing else is touched.
pub removal_out :
    (i : ℕ) (g : Grid) (y x : ℕ)
    → (i < y) ⊎ ((y < 2) ⊎ (10 ≤ x))
    → shift_down (paint_from g i 0 10) i y x ≡ g y x
removal_out i g y x h = shift_down_out i (paint_from g i 0 10) y x h ∙ elim h [
  | inl a ↦ paint_from_lem i 10 g 0 y x (omega arith)
  | inr (inl a) ↦ paint_from_top i 10 g 0 y x a
  | inr (inr a) ↦ paint_from_outside i 10 g 0 y x a
]

abbrev pub Row : Type 0
Row = List Color

-- `n` elements of row `y` from column `j` on.
unfoldable pub row_from : Grid → ℕ → ℕ → ℕ → Row
row_from g y j zero = []
row_from g y j (suc n) = g y j ∷ row_from g y (j + 1) n

abbrev pub row : Grid → ℕ → Row
row g y = row_from g y 0 10

pub row_from_ext :
    (g g' : Grid) (y y' j n : ℕ)
    → ((x : ℕ) → x < j + n → g y x ≡ g' y' x)
    → row_from g y j n ≡ row_from g' y' j n
unfolding row_from
row_from_ext g g' y y' j zero h = refl
row_from_ext g g' y y' j (suc n) h =
    ap₂ ◌∷◌ (h j (omega arith)) (row_from_ext g g' y y' (j + 1) n (λ x lt. h x (omega arith)))

abbrev pub is_full : Row → Bool
is_full [] = true
is_full (c ∷ r) = not (is_empty c) && is_full r

-- The test of the loop is that of the whole row.
pub full_from_lem : (g : Grid) (i j n : ℕ) → full_from g i j n ≡ is_full (row_from g i j n)
unfolding full_from row_from
full_from_lem g i j zero = refl
full_from_lem g i j (suc n) = ap (λ t. not (is_empty (g i j)) && t) (full_from_lem g i (j + 1) n)

pub row-open : (g : Grid) (y : ℕ) → g y 0 ≡ black → is_full (row g y) ≡ false
unfolding row_from
row-open g y h = rw h
