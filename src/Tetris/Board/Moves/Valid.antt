-- ===== src/Tetris/Board/Moves/Valid.antt =====
-- What holds of the board of HtcLeoPkg/Application/TetrisApp/Board.c between two calls, and the
-- blocks that have come to rest on it.
use htc_leo_pkg.Base.{ℕ, ◌≤◌, ◌<◌, ◌≡◌, ◌∙◌, true, arith}
use htc_leo_pkg.Tetris.Piece.{Color, black, Point, Body, Piece, cells}
use htc_leo_pkg.Tetris.Piece.Laws.{IsValid as PieceIsValid, IsFresh}
use htc_leo_pkg.Tetris.Board.Fields.{Grid, mark, draw}
use htc_leo_pkg.Tetris.Board.Cells.{covers, mark_lem, draw_lem, Inside}
use htc_leo_pkg.Tetris.Board.{Board, active_cells, own_color}

-- The field without the active piece.
abbrev pub settled : Board → Grid
settled b = mark b.fields b.active_piece.pos black (active_cells b)

pub record IsValid (b : Board) : Type 0 where
  pub active : PieceIsValid b.active_piece
  pub next : IsFresh b.next_piece
  pub inside : Inside b.active_piece.pos (active_cells b)
  -- Nothing rests in the two rows that are not shown.
  pub top : (y x : ℕ) → y < 2 → settled b y x ≡ black
  -- The level never rises.
  pub slow : b.level ≡ 1
  -- The active piece is drawn wherever it can be seen.
  pub shown :
      (y x : ℕ)
      → 2 ≤ y
      → covers b.active_piece.pos (active_cells b) y x ≡ true
      → b.fields y x ≡ own_color b

-- What a move keeps: the board is valid and the same blocks are at rest.
pub record Kept (b b' : Board) : Type 0 where
  pub valid : IsValid b'
  pub rest : (y x : ℕ) → settled b' y x ≡ settled b y x

module _ (g : Grid) (p : Point) (qs : Body) where
  pub erased : (y x : ℕ) → covers p qs y x ≡ true → mark g p black qs y x ≡ black
  erased y x t = ground (arith, mark_lem p black qs g y x)

  abbrev pub IsClear : Type 0
  IsClear = (y x : ℕ) → covers p qs y x ≡ true → g y x ≡ black

  -- Marking a piece on empty elements and erasing it gives the field again.
  pub unmark : (c : Color) → IsClear → (y x : ℕ) → mark (mark g p c qs) p black qs y x ≡ g y x
  unmark c clear y x =
      ground (arith, mark_lem p black qs (mark g p c qs) y x, mark_lem p c qs g y x, clear y x)

  pub marked : (c : Color) (y x : ℕ) → covers p qs y x ≡ true → mark g p c qs y x ≡ c
  marked c y x t = ground (arith, mark_lem p c qs g y x)

-- Drawing the piece away at `p` and again at `p'`.
abbrev pub redrawn : Grid → Point → Body → Point → Body → Color → Grid
redrawn g p qs p' qs' c = draw (draw g p black qs) p' c qs'

module _ (g : Grid) (p : Point) (qs : Body) (p' : Point) (qs' : Body) (c : Color)
    (old : IsClear g p qs) (new : IsClear g p' qs') where
  pub unmark-redrawn : (y x : ℕ) → mark (redrawn g p qs p' qs' c) p' black qs' y x ≡ g y x
  unmark-redrawn y x = ground (
    arith,
    mark_lem p' black qs' (redrawn g p qs p' qs' c) y x,
    draw_lem p' c qs' (draw g p black qs) y x,
    draw_lem p black qs g y x,
    old y x,
    new y x,
  )

  pub unmark-mark-redrawn :
      (y x : ℕ) → mark (mark (redrawn g p qs p' qs' c) p' c qs') p' black qs' y x ≡ g y x
  unmark-mark-redrawn y x = ground (
    arith,
    mark_lem p' black qs' (mark (redrawn g p qs p' qs' c) p' c qs') y x,
    mark_lem p' c qs' (redrawn g p qs p' qs' c) y x,
    draw_lem p' c qs' (draw g p black qs) y x,
    draw_lem p black qs g y x,
    old y x,
    new y x,
  )

  pub drawn : (y x : ℕ) → 2 ≤ y → covers p' qs' y x ≡ true → redrawn g p qs p' qs' c y x ≡ c
  drawn y x h t = ground (arith, draw_lem p' c qs' (draw g p black qs) y x)

-- A board whose piece was put elsewhere, by its new piece and field.
pub put-Kept :
    (b : Board) (p : Piece) (g : Grid)
    → IsValid b
    → PieceIsValid p
    → Inside p.pos (cells p)
    → ((y x : ℕ) → mark g p.pos black (cells p) y x ≡ settled b y x)
    → ((y x : ℕ) → 2 ≤ y → covers p.pos (cells p) y x ≡ true → g y x ≡ p.color)
    → Kept b (record b { active_piece = p; fields = g })
put-Kept b p g v pv ins rest shown = record {
  valid = record {
    active = pv;
    next = v.next;
    inside = ins;
    top = λ y x h. rest y x ∙ v.top y x h;
    slow = v.slow;
    shown = shown;
  };
  rest = rest;
}
