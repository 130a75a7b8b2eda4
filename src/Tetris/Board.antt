-- ===== src/Tetris/Board.antt =====
-- HtcLeoPkg/Application/TetrisApp/Board.c and Board.h: the field, the moves of the active piece and
-- the removal of full lines. What the functions print is left out; what `redrawField` stores is not.
pub mod Fields
pub mod Cells
pub mod Lines
pub mod Moves
use htc_leo_pkg.Base.{
  ℕ, zero, suc, ◌+◌, ◌-◌, ◌*◌, ◌^◌, Bool, true, false, ◌&&◌, ◌||◌, not, List, [], ◌∷◌, Option, none,
  some, ltb, ◌==◌, if◌then◌else◌,
}
use htc_leo_pkg.Base.Int.{ℤ, pos, negsuc, ◌+ℤ◌}
use htc_leo_pkg.Tetris.Piece.{
  Color, black, Point, at, Body, Piece, Rand, rand_start, cells, randomize, rotate_cw, rotate_ccw,
  construct_piece,
}
use Fields.{Grid, put, redraw_field, empty_grid, mark, draw, free_at, possible, remove_lines}

-- `Board`, with the static variables of `rand` beside it.
pub record Board : Type 0 where
  pub next_piece : Piece
  pub active_piece : Piece
  pub fields : Grid
  pub blocked : Bool
  pub level : ℕ
  pub lines : ℕ
  pub score : ℕ
  pub random : Rand

abbrev pub active_cells : Board → Body
active_cells b = cells b.active_piece

-- `isMovePossible`
unfoldable pub is_move_possible : Board → ℤ → ℤ → Bool
is_move_possible b dx dy = possible b.fields b.active_piece.pos dx dy (active_cells b)

-- `markFieldsOccupiedByPiece`
unfoldable pub mark_fields : Board → Color → Board
mark_fields b c = record b { fields = mark b.fields b.active_piece.pos c (active_cells b) }

-- `drawFieldsOccupiedByPiece`
unfoldable pub draw_fields : Board → Color → Board
draw_fields b c = record b { fields = draw b.fields b.active_piece.pos c (active_cells b) }

abbrev pub with_active : Board → Piece → Board
with_active b p = record b { active_piece = p }

abbrev pub shift_piece : Piece → ℤ → ℤ → Piece
shift_piece p dx dy = record p { pos = record { x = p.pos.x +ℤ dx; y = p.pos.y +ℤ dy } }

abbrev pub own_color : Board → Color
own_color b = b.active_piece.color

-- `rotatePiece`
unfoldable pub rotate_piece : Board → Board
unfolding mark_fields draw_fields is_move_possible
rotate_piece b =
    let b1 = mark_fields b black in
    let b2 = with_active b1 (rotate_cw b1.active_piece) in
    let b3 = with_active b2 (rotate_ccw b2.active_piece) in
    if not (is_move_possible b2 (pos 0) (pos 0))
    then mark_fields b3 (own_color b3)
    else (let b4 = draw_fields b3 black in
        let b5 = with_active b4 (rotate_cw b4.active_piece) in draw_fields b5 (own_color b5))

-- The steps that `movePieceLeft`, `movePieceRight` and `movePieceDown` share: draw the piece away,
-- move it, draw it again.
unfoldable pub redraw_moved : Board → ℤ → ℤ → Board
unfolding draw_fields
redraw_moved b dx dy =
    let b1 = draw_fields b black in
    let b2 = with_active b1 (shift_piece b1.active_piece dx dy) in draw_fields b2 (own_color b2)

-- `movePieceLeft`, `movePieceRight`
unfoldable pub move_sideways : ℤ → Board → Board
unfolding mark_fields redraw_moved is_move_possible
move_sideways dx b =
    let b1 = mark_fields b black in
    let b2 = if is_move_possible b1 dx (pos 0) then redraw_moved b1 dx (pos 0) else b1 in
    mark_fields b2 (own_color b2)

unfoldable pub move_piece_left : Board → Board
unfolding move_sideways
move_piece_left b = move_sideways (negsuc 0) b

unfoldable pub move_piece_right : Board → Board
unfolding move_sideways
move_piece_right b = move_sideways (pos 1) b

-- `isGameOver`: some cell of the active piece is above row INVISIBLE_ROWS_COUNT.
pub above : ℤ → Bool
above (pos n) = ltb n 2
above (negsuc n) = true

pub any_above : Point → Body → Bool
unfolding above
any_above p [] = false
any_above p (q ∷ qs) = above (q.y +ℤ p.y) || any_above p qs

unfoldable pub is_game_over : Board → Bool
unfolding any_above
is_game_over b = any_above b.active_piece.pos (active_cells b)

-- The score of `counter` removed lines.
unfoldable pub line_score : ℕ → ℕ → ℕ
line_score level counter = if counter == 0 then 0 else 100 * 2 ^ (counter - 1) + 50 * level

-- `checkAndRemoveLines`; `none` is a loop that did not end within the fuel.
unfoldable pub check_and_remove_lines : Board → Option Board
unfolding line_score
check_and_remove_lines b = elim (remove_lines 64 21 0 b.fields) [
  | none ↦ none
  | some (counter, g) ↦ some (record b {
    fields = g;
    lines = b.lines + counter;
    score = b.score + line_score b.level counter;
  })
]

-- PIECE_STARTING_POS
abbrev pub piece_starting_pos : Point
piece_starting_pos = at 4 0

module _ (second : ℕ) where
  -- `loadNextPiece`: the two pieces change places and the new next one is drawn.
  unfoldable pub load_next_piece : Board → Board
  load_next_piece b =
      let (next, r) = randomize second b.random b.active_piece in
      record b {
        active_piece = record b.next_piece { pos = piece_starting_pos };
        next_piece = next;
        random = r;
      }

  -- `placePiece`
  unfoldable pub place_piece : Board → Option Board
  unfolding is_game_over check_and_remove_lines load_next_piece
  place_piece b =
      if is_game_over b
      then some (record b { blocked = true })
      else (elim (check_and_remove_lines b) [ none ↦ none | some b' ↦ some (load_next_piece b') ])

  -- `movePieceDown`
  unfoldable pub move_piece_down : Board → Option (Bool × Board)
  unfolding mark_fields redraw_moved is_move_possible place_piece
  move_piece_down b =
      let b1 = mark_fields b black in
      if is_move_possible b1 (pos 0) (pos 1)
      then some (true, redraw_moved b1 (pos 0) (pos 1))
      else (elim (place_piece (mark_fields b1 (own_color b1))) [
        | none ↦ none
        | some b' ↦ some (false, b')
      ])

  -- The loop of `dropPiece`: the height fallen and the board.
  drop_loop : ℕ → ℕ → Board → Option (ℕ × Board)
  drop_loop zero height b = none
  drop_loop (suc fuel) height b = elim (move_piece_down b) [
    | none ↦ none
    | some (moved, b') ↦
        let rest = drop_loop fuel (height + 1) b' in if moved then rest else some (height, b')
  ]

  -- `dropPiece`
  unfoldable pub drop_piece : Board → Option Board
  unfolding drop_loop
  drop_piece b = elim (drop_loop 32 0 b) [
    | none ↦ none
    | some (height, b') ↦ some (record b' { score = b'.score + 2 * height })
  ]

  -- `ConstructBoard`, less its static decoration.
  unfoldable pub construct_board : Board
  construct_board =
      let (next, r1) = construct_piece second rand_start in
      let (active, r2) = construct_piece second r1 in
      load_next_piece (record {
        next_piece = next;
        active_piece = active;
        fields = empty_grid;
        blocked = false;
        level = 1;
        lines = 0;
        score = 0;
        random = r2;
      })
