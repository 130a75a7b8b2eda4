-- ===== src/Tetris/Board/Moves/Start.antt =====
-- `loadNextPiece` and `placePiece` of HtcLeoPkg/Application/TetrisApp/Board.c: a piece comes to rest
-- and the next one starts.
use mathlib.Core.Path.{subst}
use htc_leo_pkg.Base.{
  ℕ, ◌+◌, ◌≤◌, ◌<◌, ◌≡◌, refl, sym, ◌∙◌, Bool, true, false, [], ◌∷◌, some, arith, All, Bool-cases,
  inl, inr,
}
use htc_leo_pkg.Base.Int.{ℤ, pos, negsuc, pos_part, ◌+ℤ◌, +ℤ_zero}
use htc_leo_pkg.Tetris.Piece.{black, Point, Body, cells}
use htc_leo_pkg.Tetris.Piece.Laws.{
  pos-IsValid, IsFresh, InBox, PointInBox, InTopRows, cells-BodyIsValid, randomize-IsFresh,
}
use htc_leo_pkg.Tetris.Board.Fields.{hits}
use htc_leo_pkg.Tetris.Board.Cells.{covers, mark_lem, Inside, Within}
use htc_leo_pkg.Tetris.Board.Lines.Shift.{row-open}
use htc_leo_pkg.Tetris.Board.Lines.Remove.{check_and_remove_lines-ends}
use htc_leo_pkg.Tetris.Board.{
  Board, active_cells, above, any_above, load_next_piece, place_piece, piece_starting_pos,
}
use htc_leo_pkg.Tetris.Board.Moves.Valid.{IsValid}

hits-above : (a b : ℤ) (y x : ℕ) → above a ≡ false → y < 2 → hits a b y x ≡ false
unfolding above
hits-above (pos a) (pos b) y x h lt = ground arith
hits-above (pos a) (negsuc b) y x h lt = refl
hits-above (negsuc a) b y x h lt = cc

-- A piece with no cell above the visible rows covers nothing there.
pub covers-any_above :
    (p : Point) (qs : Body) (y x : ℕ) → any_above p qs ≡ false → y < 2 → covers p qs y x ≡ false
unfolding any_above
covers-any_above p [] y x h lt = refl
covers-any_above p (q ∷ qs) y x h lt =
    ground (arith, hits-above (q.y +ℤ p.y) (q.x +ℤ p.x) y x, covers-any_above p qs y x)

hits-low : (a b : ℤ) (y x : ℕ) → pos_part a < 2 → 2 ≤ y → hits a b y x ≡ false
hits-low (pos a) (pos b) y x h lt = ground arith
hits-low (pos a) (negsuc b) y x h lt = refl
hits-low (negsuc a) b y x h lt = refl

-- At the start a fresh piece is above the visible rows.
covers-start :
    (qs : Body) (y x : ℕ) → InTopRows qs → 2 ≤ y → covers piece_starting_pos qs y x ≡ false
covers-start [] y x h lt = refl
covers-start (q ∷ qs) y x h lt =
    rw (hits-low (q.y +ℤ pos 0) (q.x +ℤ pos 4) y x (rw (+ℤ_zero q.y) h.0) lt)
      (covers-start qs y x h.1 lt)

Within-add : (a : ℤ) (k n : ℕ) → InBox a → 3 + k < n → Within n (a +ℤ pos k)
unfolding ◌+ℤ◌
Within-add (pos a) k n h lt = ground arith
Within-add (negsuc a) k n h lt = absurd h

Within-start : (q : Point) → PointInBox q → Within 22 (q.y +ℤ pos 0) × Within 10 (q.x +ℤ pos 4)
Within-start q h = (Within-add q.y 0 22 h.1 (omega arith), Within-add q.x 4 10 h.0 (omega arith))

Inside-start : (qs : Body) → All PointInBox qs → Inside piece_starting_pos qs
Inside-start [] h = tt
Inside-start (q ∷ qs) h = (Within-start q h.0, Inside-start qs h.1)

covers-absurd : (t : Bool) {A : Type 0} → t ≡ false → t ≡ true → A
covers-absurd t f h = cc

module _ (second : ℕ) where
  -- A fresh next piece starts on a field with nothing in the rows that are not shown.
  pub load_next_piece-IsValid :
      (b : Board)
      → IsFresh b.next_piece
      → ((y x : ℕ) → y < 2 → b.fields y x ≡ black)
      → b.level ≡ 1
      → IsValid (load_next_piece second b)
  unfolding load_next_piece
  load_next_piece-IsValid b f top slow = record {
    slow = slow;
    active = pos-IsValid f.valid piece_starting_pos;
    next = randomize-IsFresh second b.random b.active_piece;
    inside = Inside-start (cells b.next_piece) (cells-BodyIsValid f.valid).1;
    top = λ y x h.
        ground
          (arith, mark_lem piece_starting_pos black (cells b.next_piece) b.fields y x, top y x h);
    shown = λ y x h t.
        covers-absurd (covers piece_starting_pos (cells b.next_piece) y x)
          (covers-start (cells b.next_piece) y x f.high h) t;
  }

  rows_open :
      (b : Board)
      → IsValid b
      → any_above b.active_piece.pos (active_cells b) ≡ false
      → (y x : ℕ) → y < 2
      → b.fields y x ≡ black
  rows_open b v h y x lt = ground (
    arith,
    mark_lem b.active_piece.pos black (active_cells b) b.fields y x,
    covers-any_above b.active_piece.pos (active_cells b) y x h lt,
    v.top y x lt,
  )

  blocked-IsValid : {b : Board} → IsValid b → IsValid (record b { blocked = true })
  blocked-IsValid v = record {
    active = v.active;
    next = v.next;
    inside = v.inside;
    top = v.top;
    slow = v.slow;
    shown = v.shown;
  }

  -- `placePiece` always ends, on a valid board: either the game is blocked as it stands, or the lines
  -- are removed and the next piece starts.
  pub place_piece_lem :
      {b : Board} → IsValid b → (b' : Board) × (place_piece second b ≡ some b') × IsValid b'
  unfolding place_piece
  place_piece_lem {b} v = elim (Bool-cases (any_above b.active_piece.pos (active_cells b))) [
    | inl e ↦ (record b { blocked = true }, rw (e, place_piece), blocked-IsValid v)
    | inr e ↦
        let (b', ends, _, _, same, _, _, _, next, level) =
          check_and_remove_lines-ends b (row-open b.fields 1 (rows_open b v e 1 0 (omega arith))) in
        (
          load_next_piece second b',
          rw (e, place_piece, ends),
          load_next_piece-IsValid b' (subst IsFresh (sym next) v.next)
              (λ y x h. same y x h ∙ rows_open b v e y x h) (level ∙ v.slow),
        )
  ]
