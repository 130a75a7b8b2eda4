-- ===== src/Tetris/Board/Moves/Sideways.antt =====
-- `movePieceLeft`, `movePieceRight` and `rotatePiece` of HtcLeoPkg/Application/TetrisApp/Board.c.
use htc_leo_pkg.Base.{Bool-cases, inl, inr}
use htc_leo_pkg.Base.Int.{ℤ, pos}
use htc_leo_pkg.Tetris.Piece.{Color, Point, Body, cells, rotate_cw}
use htc_leo_pkg.Tetris.Piece.Laws.{rotate_cw-IsValid, pos-IsValid, rotate_ccw-rotate_cw}
use htc_leo_pkg.Tetris.Board.Fields.{possible}
use htc_leo_pkg.Tetris.Board.Cells.{possible_lem, possible_zero_lem, moved}
use htc_leo_pkg.Tetris.Board.{
  Board, active_cells, own_color, shift_piece, move_sideways, rotate_piece,
}
use htc_leo_pkg.Tetris.Board.Moves.Valid.{
  IsValid, Kept, settled, IsClear, erased, unmark, marked, unmark-redrawn, unmark-mark-redrawn,
  drawn, put-Kept, redrawn,
}

pub settled-IsClear : (b : Board) → IsClear (settled b) b.active_piece.pos (active_cells b)
settled-IsClear b = erased b.fields b.active_piece.pos (active_cells b)

-- A move to a side, possible or not, keeps the board valid and leaves every block at rest.
pub move_sideways-Kept : (dx : ℤ) {b : Board} → IsValid b → Kept b (move_sideways dx b)
unfolding move_sideways
move_sideways-Kept dx {b} v = elim (Bool-cases (possible (settled b) old dx (pos 0) qs)) [
  | inl e ↦
      let (ins, free) = possible_lem (settled b) old dx (pos 0) qs e in
      rw (e, move_sideways)
        (put-Kept b (shift_piece b.active_piece dx (pos 0)) _ v (pos-IsValid v.active _) ins
          (unmark-mark-redrawn (settled b) old qs new qs c (settled-IsClear b) free)
          (λ y x _ t. marked (redrawn (settled b) old qs new qs c) new qs c y x t))
  | inr e ↦
      rw (e, move_sideways)
        (put-Kept b b.active_piece _ v v.active v.inside
          (unmark (settled b) old qs c (settled-IsClear b))
          (λ y x _ t. marked (settled b) old qs c y x t))
]
  where
    old : Point
    old = b.active_piece.pos

    new : Point
    new = moved old dx (pos 0)

    qs : Body
    qs = active_cells b

    c : Color
    c = own_color b

-- A rotation, possible or not, keeps the board valid and leaves every block at rest.
pub rotate_piece-Kept : {b : Board} → IsValid b → Kept b (rotate_piece b)
unfolding rotate_piece
rotate_piece-Kept {b} v =
    let e0 = (rotate_ccw-rotate_cw v.active).0 in
    elim (Bool-cases (possible (settled b) new (pos 0) (pos 0) turned)) [
      | inl e ↦
          let (ins, free) = possible_zero_lem (settled b) new turned e in
          rw (e, rotate_piece, e0)
            (put-Kept b (rotate_cw b.active_piece) _ v (rotate_cw-IsValid v.active) ins
              (unmark-redrawn (settled b) old qs new turned c (settled-IsClear b) free)
              (drawn (settled b) old qs new turned c (settled-IsClear b) free))
      | inr e ↦
          rw (e, rotate_piece, e0)
            (put-Kept b b.active_piece _ v v.active v.inside
              (unmark (settled b) old qs (own_color b) (settled-IsClear b))
              (λ y x _ t. marked (settled b) old qs (own_color b) y x t))
    ]
  where
    old : Point
    old = b.active_piece.pos

    qs : Body
    qs = active_cells b

    new : Point
    new = (rotate_cw b.active_piece).pos

    c : Color
    c = (rotate_cw b.active_piece).color

    turned : Body
    turned = cells (rotate_cw b.active_piece)
