-- ===== src/Tetris/Board/Moves/Drop.antt =====
-- `dropPiece` and `ConstructBoard` of HtcLeoPkg/Application/TetrisApp/Board.c.
use mathlib.Core.Path.{subst}
use htc_leo_pkg.Base.{
  ℕ, zero, suc, ◌+◌, ◌*◌, ◌≤◌, ◌<◌, ◌≡◌, refl, ap, ◌∙◌, Bool, true, false, [], ◌∷◌, Option, some,
  arith, length,
}
use htc_leo_pkg.Base.Int.{ℤ, pos, negsuc, pos_part, neg_part, ◌+ℤ◌, +ℤ_parts}
use htc_leo_pkg.Tetris.Piece.{Point, Body, Piece, cells, rand_start}
use htc_leo_pkg.Tetris.Piece.Laws.{cells-BodyIsValid, construct_piece-IsFresh}
use htc_leo_pkg.Tetris.Board.Cells.{Inside, Within, moved}
use htc_leo_pkg.Tetris.Board.{
  Board, active_cells, shift_piece, move_piece_down, drop_loop, drop_piece, construct_board,
}
use htc_leo_pkg.Tetris.Board.Moves.Valid.{IsValid}
use htc_leo_pkg.Tetris.Board.Moves.Start.{load_next_piece-IsValid}
use htc_leo_pkg.Tetris.Board.Moves.Down.{Down, fell-Kept, Down-IsValid, move_piece_down-Down}

-- The row of the first cell.
abbrev depth : Point → Body → ℕ
depth p [] = 0
depth p (q ∷ qs) = pos_part (q.y +ℤ p.y)

Within-lt : (n : ℕ) (a : ℤ) → Within n a → (pos_part a < n) × (neg_part a ≡ 0)
Within-lt n (pos a) h = (h, refl)
Within-lt n (negsuc a) h = absurd h

depth-lt : (p : Point) (qs : Body) → Inside p qs → depth p qs < 22
depth-lt p [] h = omega arith
depth-lt p (q ∷ qs) h = (Within-lt 22 (q.y +ℤ p.y) h.0.0).0

depth-moved :
    (p : Point) (qs : Body)
    → length qs ≡ 4
    → Inside p qs
    → Inside (moved p (pos 0) (pos 1)) qs
    → depth (moved p (pos 0) (pos 1)) qs ≡ depth p qs + 1
depth-moved p [] e h h' = absurd (omega arith)
depth-moved p (q ∷ qs) e h h' = omega (
  arith,
  +ℤ_parts,
  (Within-lt 22 (q.y +ℤ p.y) h.0.0).1,
  (Within-lt 22 (q.y +ℤ (p.y +ℤ pos 1)) h'.0.0).1,
)

depth_of : Board → ℕ
depth_of b = depth b.active_piece.pos (active_cells b)

-- The piece falls `h` rows, one call of `movePieceDown` for each, and then comes to rest.
pub data Falls (second : ℕ) : Board → ℕ → Board → Type 0 where
  rests : {b b' : Board} → Down second b b' false → Falls second b 0 b'
  falls :
      {b b1 b' : Board} {h : ℕ}
      → Down second b b1 true
      → Falls second b1 h b'
      → Falls second b (suc h) b'

-- The result of `drop_loop` at height `k`.
record Dropped (second : ℕ) (b : Board) (k : ℕ) (out : Option (ℕ × Board)) : Type 0 where
  rows : ℕ
  board : Board
  ends : out ≡ some (k + rows, board)
  path : Falls second b rows board
  valid : IsValid board
  few : rows + depth_of b < 22

depth_of-fell :
    {b b' : Board}
    → IsValid b
    → IsValid b'
    → b'.active_piece ≡ shift_piece b.active_piece (pos 0) (pos 1)
    → depth_of b' ≡ depth_of b + 1
unfolding depth_of
depth_of-fell {b} {b'} v v' e =
    ap (λ (p : Piece). depth p.pos (cells p)) e
    ∙ depth-moved b.active_piece.pos (active_cells b) (cells-BodyIsValid v.active).0 v.inside
        (subst (λ (p : Piece). Inside p.pos (cells p)) e v'.inside)

depth_of-lt : {b : Board} → IsValid b → depth_of b < 22
unfolding depth_of
depth_of-lt {b} v = depth-lt b.active_piece.pos (active_cells b) v.inside

drop_rests :
    (second k : ℕ) {b b' : Board}
    → IsValid b
    → Down second b b' false
    → Dropped second b k (some (k, b'))
drop_rests second k {b} {b'} v d = record {
  rows = 0;
  board = b';
  ends = ap (λ n. some (n, b')) (omega arith);
  path = rests d;
  valid = Down-IsValid d;
  few = omega (arith, depth_of-lt v);
}

drop_falls :
    (second k : ℕ) {b b1 : Board} {out : Option (ℕ × Board)}
    → depth_of b1 ≡ depth_of b + 1
    → Down second b b1 true
    → Dropped second b1 (k + 1) out
    → Dropped second b k out
drop_falls second k e d r = record {
  rows = suc r.rows;
  board = r.board;
  ends = r.ends ∙ ap (λ n. some (n, r.board)) (omega arith);
  path = falls d r.path;
  valid = r.valid;
  few = omega (arith, r.few);
}

-- One round, by what `movePieceDown` did; `rest` is the claim for the rounds that follow.
drop_round :
    (second fuel k : ℕ) {b b1 : Board} (t : Bool)
    → IsValid b
    → move_piece_down second b ≡ some (t, b1)
    → Down second b b1 t
    → (t ≡ true
        → IsValid b1
        → depth_of b1 ≡ depth_of b + 1
        → Dropped second b1 (k + 1) (drop_loop second fuel (k + 1) b1))
    → Dropped second b k (drop_loop second (suc fuel) k b)
unfolding drop_loop
drop_round second fuel k true v ends d rest =
    let (kept, e) = fell-Kept d refl in
    let deeper = depth_of-fell v kept.valid e in
    rw (ends, drop_loop) (drop_falls second k deeper d (rest refl kept.valid deeper))
drop_round second fuel k false v ends d rest = rw (ends, drop_loop) (drop_rests second k v d)

-- The fuel is enough: each round takes the piece one row down.
drop_loop-Dropped :
    (second fuel k : ℕ) {b : Board}
    → IsValid b
    → 22 ≤ fuel + depth_of b
    → Dropped second b k (drop_loop second fuel k b)
drop_loop-Dropped second zero k {b} v lt = absurd (omega (arith, depth_of-lt v))
drop_loop-Dropped second (suc fuel) k {b} v lt =
    let (t, b1, ends, d) = move_piece_down-Down second v in
    drop_round second fuel k t v ends d
      (λ _ v1 deeper. drop_loop-Dropped second fuel (k + 1) v1 (omega arith))

score-IsValid : {b : Board} → IsValid b → (n : ℕ) → IsValid (record b { score = n })
score-IsValid v n = record {
  active = v.active;
  next = v.next;
  inside = v.inside;
  top = v.top;
  slow = v.slow;
  shown = v.shown;
}

-- `dropPiece` always ends, on a valid board: the piece falls row by row until it comes to rest, and
-- the score grows by two points for each row fallen, at most 21 rows, beside what its lines give.
pub drop_piece_lem :
    (second : ℕ) {b : Board}
    → IsValid b
    → (h : ℕ) × (b' : Board) × Falls second b h b'
      × (h < 22)
      × (drop_piece second b ≡ some (record b' { score = b'.score + 2 * h }))
      × IsValid (record b' { score = b'.score + 2 * h })
unfolding drop_piece
drop_piece_lem second {b} v =
    let r = drop_loop-Dropped second 32 0 v (omega arith) in
    let e : 0 + r.rows ≡ r.rows = omega arith in
    (
      r.rows,
      r.board,
      r.path,
      omega (arith, r.few),
      rw (r.ends, drop_piece, e),
      score-IsValid r.valid _,
    )

-- A new board is valid: nothing is at rest and a fresh piece starts.
pub construct_board-IsValid : (second : ℕ) → IsValid (construct_board second)
unfolding construct_board
construct_board-IsValid second =
    load_next_piece-IsValid second _ (construct_piece-IsFresh second rand_start) (λ y x h. refl)
      refl
