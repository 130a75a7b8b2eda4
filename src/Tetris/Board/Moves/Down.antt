-- ===== src/Tetris/Board/Moves/Down.antt =====
-- `movePieceDown` of HtcLeoPkg/Application/TetrisApp/Board.c.
use htc_leo_pkg.Base.{ℕ, ◌≡◌, refl, Bool, true, false, some, Bool-cases, inl, inr}
use htc_leo_pkg.Base.Int.{pos}
use htc_leo_pkg.Tetris.Piece.{Color, Point, Body}
use htc_leo_pkg.Tetris.Piece.Laws.{pos-IsValid}
use htc_leo_pkg.Tetris.Board.Fields.{mark, possible}
use htc_leo_pkg.Tetris.Board.Cells.{possible_lem, moved}
use htc_leo_pkg.Tetris.Board.{
  Board, active_cells, own_color, shift_piece, place_piece, move_piece_down,
}
use htc_leo_pkg.Tetris.Board.Moves.Valid.{
  IsValid, Kept, settled, unmark, marked, unmark-redrawn, drawn, put-Kept, redrawn,
}
use htc_leo_pkg.Tetris.Board.Moves.Sideways.{settled-IsClear}
use htc_leo_pkg.Tetris.Board.Moves.Start.{place_piece_lem}

-- What `movePieceDown` does to a valid board: it moves the piece one row down and leaves every block
-- at rest, or it puts the piece to rest. The piece that is put to rest cannot move down.
pub data Down (second : ℕ) (b : Board) (b' : Board) : Bool → Type 0 where
  fell :
      Kept b b'
      → b'.active_piece ≡ shift_piece b.active_piece (pos 0) (pos 1)
      → Down second b b' true
  landed :
      possible (settled b) b.active_piece.pos (pos 0) (pos 1) (active_cells b) ≡ false
      → (rested : Board) → Kept b rested
      → place_piece second rested ≡ some b'
      → IsValid b'
      → Down second b b' false

pub fell-Kept :
    {second : ℕ} {b b' : Board} {t : Bool}
    → Down second b b' t
    → t ≡ true
    → Kept b b' × (b'.active_piece ≡ shift_piece b.active_piece (pos 0) (pos 1))
fell-Kept (fell kept e) h = (kept, e)
fell-Kept (landed stuck rested kept ends v) h = cc

pub Down-IsValid : {second : ℕ} {b b' : Board} {t : Bool} → Down second b b' t → IsValid b'
Down-IsValid (fell kept e) = kept.valid
Down-IsValid (landed stuck rested kept ends v) = v

-- `movePieceDown` always ends, on a valid board, in one of the two ways that `Down` lists.
pub move_piece_down-Down :
    (second : ℕ) {b : Board}
    → IsValid b
    → (moved_it : Bool) × (b' : Board) × (move_piece_down second b ≡ some (moved_it, b'))
      × Down second b b' moved_it
unfolding move_piece_down
move_piece_down-Down second {b} v =
    elim (Bool-cases (possible (settled b) old (pos 0) (pos 1) qs)) [
      | inl e ↦
          let (ins, free) = possible_lem (settled b) old (pos 0) (pos 1) qs e in
          (
            true,
            _,
            rw (e, move_piece_down),
            fell
                (put-Kept b (shift_piece b.active_piece (pos 0) (pos 1))
                  (redrawn (settled b) old qs new qs c) v (pos-IsValid v.active new) ins
                  (unmark-redrawn (settled b) old qs new qs c (settled-IsClear b) free)
                  (drawn (settled b) old qs new qs c (settled-IsClear b) free))
                refl,
          )
      | inr e ↦
          let kept =
            put-Kept b b.active_piece (mark (settled b) old c qs) v v.active v.inside
              (unmark (settled b) old qs c (settled-IsClear b))
              (λ y x _ t. marked (settled b) old qs c y x t) in
          let (b', ends, v') = place_piece_lem second kept.valid in
          (false, b', rw (e, move_piece_down, ends), landed e _ kept ends v')
    ]
  where
    old : Point
    old = b.active_piece.pos

    new : Point
    new = moved old (pos 0) (pos 1)

    qs : Body
    qs = active_cells b

    c : Color
    c = own_color b
