-- ===== src/Tetris/Board/Fields.antt =====
-- `fields` of HtcLeoPkg/Application/TetrisApp/Board.c: 22 rows of 10 colours, by row and column, with
-- the loops that read and write them. A write out of the array changes nothing here; `Moves` shows
-- that the cells of a valid board's piece lie inside.
use htc_leo_pkg.Base.{
  ℕ, zero, suc, ◌+◌, ◌-◌, Bool, true, false, ◌&&◌, not, [], ◌∷◌, Option, none, some, ltb, leb, ◌==◌,
  if◌then◌else◌,
}
use htc_leo_pkg.Base.Int.{ℤ, pos, negsuc, ◌+ℤ◌}
use htc_leo_pkg.Tetris.Piece.{Color, black, Point, Body}

abbrev pub Grid : Type 0
Grid = ℕ → ℕ → Color

-- ZeroMem: EFI_BLACK is 0.
abbrev pub empty_grid : Grid
empty_grid y x = black

abbrev pub is_empty : Color → Bool
is_empty black = true
is_empty _ = false

-- The array element at the signed indices `a`, `b` is the one at `y`, `x`.
abbrev pub hits : ℤ → ℤ → ℕ → ℕ → Bool
hits (pos a) (pos b) y x = y == a && x == b
hits (pos a) (negsuc b) y x = false
hits (negsuc a) b y x = false

-- `this->fields[ a ][ b ] = c`
abbrev pub put : Grid → ℤ → ℤ → Color → Grid
put g a b c y x = if hits a b y x then c else g y x

abbrev pub visible : ℤ → Bool
visible (pos n) = leb 2 n
visible (negsuc n) = false

-- `redrawField`: only rows from INVISIBLE_ROWS_COUNT on are stored.
abbrev pub redraw_field : Grid → ℤ → ℤ → Color → Grid
redraw_field g b a c = if visible a then put g a b c else g

-- The loop of `markFieldsOccupiedByPiece` over the cells of the piece.
unfoldable pub mark : Grid → Point → Color → Body → Grid
mark g p c [] = g
mark g p c (q ∷ qs) = mark (put g (q.y +ℤ p.y) (q.x +ℤ p.x) c) p c qs

-- The loop of `drawFieldsOccupiedByPiece`.
unfoldable pub draw : Grid → Point → Color → Body → Grid
draw g p c [] = g
draw g p c (q ∷ qs) = draw (redraw_field g (q.x +ℤ p.x) (q.y +ℤ p.y) c) p c qs

-- The test of `isMovePossible` at one cell: inside the array, and empty there.
abbrev pub free_at : Grid → ℤ → ℤ → Bool
free_at g (pos x) (pos y) = ltb x 10 && (ltb y 22 && is_empty (g y x))
free_at g (pos x) (negsuc y) = false
free_at g (negsuc x) y = false

-- The loop of `isMovePossible`.
unfoldable pub possible : Grid → Point → ℤ → ℤ → Body → Bool
possible g p dx dy [] = true
possible g p dx dy (q ∷ qs) =
    free_at g (q.x +ℤ p.x +ℤ dx) (q.y +ℤ p.y +ℤ dy) && possible g p dx dy qs

-- `lineWasFull` after the loop over row `i` from column `j`, with `n` columns left.
unfoldable pub full_from : Grid → ℕ → ℕ → ℕ → Bool
full_from g i j zero = true
full_from g i j (suc n) = not (is_empty (g i j)) && full_from g i (j + 1) n

-- The loop that paints row `i` black from column `j` on.
unfoldable pub paint_from : Grid → ℕ → ℕ → ℕ → Grid
paint_from g i j zero = g
paint_from g i j (suc n) = paint_from (redraw_field g (pos j) (pos i) black) i (j + 1) n

-- The loop that copies row `j` to row `j + 1` from column `k` on.
unfoldable pub copy_from : Grid → ℕ → ℕ → ℕ → Grid
copy_from g j k zero = g
copy_from g j k (suc n) = copy_from (redraw_field g (pos k) (pos (suc j)) (g j k)) j (k + 1) n

-- `for ( j = i; j > 0; --j )`: each row up to `i` takes the one above it.
unfoldable pub shift_down : Grid → ℕ → Grid
unfolding copy_from
shift_down g zero = g
shift_down g (suc j) = shift_down (copy_from g j 0 10) j

-- The loop of `checkAndRemoveLines` at row `i`. After a removal `i++` and `--i` leave `i` as it is.
-- `none` when the fuel runs out.
unfoldable pub remove_lines : ℕ → ℕ → ℕ → Grid → Option (ℕ × Grid)
unfolding full_from paint_from shift_down
remove_lines zero i counter g = none
remove_lines (suc fuel) i counter g = elim (ltb i 2) [
  | true ↦ some (counter, g)
  | false ↦ elim (full_from g i 0 10) [
    | true ↦ remove_lines fuel i (counter + 1) (shift_down (paint_from g i 0 10) i)
    | false ↦ remove_lines fuel (i - 1) counter g
  ]
]
