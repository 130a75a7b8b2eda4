-- ===== src/Tetris/Piece/Laws.antt =====
-- What holds of a piece of HtcLeoPkg/Application/TetrisApp/Piece.c between two calls.
use htc_leo_pkg.Base.{
  ℕ, zero, suc, ◌%◌, ◌^◌, ◌<◌, ◌≡◌, ◌≢◌, refl, [], some, arith, length, All, All-get_or, get_or,
}
use htc_leo_pkg.Base.Int.{ℤ, pos, negsuc, pos_part}
use htc_leo_pkg.Tetris.Piece.{
  Color, black, Point, Body, Bodies, Piece, Rand, cells, tetrimino, rand, randomize_with, randomize,
  rotate_cw, rotate_ccw, construct_piece, zero_piece,
}

-- A coordinate of a body lies in the 4 by 4 box.
abbrev pub InBox : ℤ → Type 0
InBox (pos n) = n < 4
InBox (negsuc n) = ⊥

abbrev pub PointInBox : Point → Type 0
PointInBox q = InBox q.x × InBox q.y

-- Four rotations of four points, each in its box.
abbrev pub BodyIsValid : Body → Type 0
BodyIsValid b = (length b ≡ 4) × All PointInBox b

pub record IsValid (p : Piece) : Type 0 where
  pub four : length p.bodies ≡ 4
  pub shapes : All BodyIsValid p.bodies
  pub turned : p.rotation < 4
  pub shown : p.body ≡ p.rotation
  pub visible : p.color ≢ black

-- The body lies in the two rows that the board does not show.
abbrev pub InTopRows : Body → Type 0
InTopRows b = All (λ (q : Point). pos_part q.y < 2) b

-- A piece that was drawn and not turned yet.
pub record IsFresh (p : Piece) : Type 0 where
  pub valid : IsValid p
  pub high : InTopRows (cells p)

-- What `randomize` finds in its table.
record IsShape (t : Bodies × Color) : Type 0 where
  four : length t.0 ≡ 4
  high : InTopRows (get_or t.0 0 [])
  shapes : All BodyIsValid t.0
  visible : t.1 ≢ black

tetrimino-IsShape : (k : ℕ) → k < 7 → (t : Bodies × Color) × (tetrimino k ≡ some t) × IsShape t
unfolding tetrimino
tetrimino-IsShape zero h =
    (_, refl, record { four = refl; high = omega arith; shapes = omega arith; visible = λ e. cc })
tetrimino-IsShape (suc zero) h =
    (_, refl, record { four = refl; high = omega arith; shapes = omega arith; visible = λ e. cc })
tetrimino-IsShape (suc (suc zero)) h =
    (_, refl, record { four = refl; high = omega arith; shapes = omega arith; visible = λ e. cc })
tetrimino-IsShape (suc (suc (suc zero))) h =
    (_, refl, record { four = refl; high = omega arith; shapes = omega arith; visible = λ e. cc })
tetrimino-IsShape (suc (suc (suc (suc zero)))) h =
    (_, refl, record { four = refl; high = omega arith; shapes = omega arith; visible = λ e. cc })
tetrimino-IsShape (suc (suc (suc (suc (suc zero))))) h =
    (_, refl, record { four = refl; high = omega arith; shapes = omega arith; visible = λ e. cc })
tetrimino-IsShape (suc (suc (suc (suc (suc (suc zero)))))) h =
    (_, refl, record { four = refl; high = omega arith; shapes = omega arith; visible = λ e. cc })
tetrimino-IsShape (suc (suc (suc (suc (suc (suc (suc n))))))) h = absurd (omega arith)

-- Drawing a number never reaches the `default` case: every draw gives a fresh piece.
pub randomize_with-IsFresh : (v : ℕ) (p : Piece) → IsFresh (randomize_with v p)
unfolding randomize_with
randomize_with-IsFresh v p =
    let (t, e, s) = tetrimino-IsShape (v % 7) (omega arith) in
    rw (e, randomize_with)
      (record {
        valid = record {
          four = s.four;
          shapes = s.shapes;
          turned = omega arith;
          shown = refl;
          visible = s.visible;
        };
        high = s.high;
      })

pub randomize-IsFresh : (second : ℕ) (r : Rand) (p : Piece) → IsFresh (randomize second r p).0
unfolding randomize
randomize-IsFresh second r p = randomize_with-IsFresh (rand second r).0 p

pub construct_piece-IsFresh : (second : ℕ) (r : Rand) → IsFresh (construct_piece second r).0
unfolding construct_piece
construct_piece-IsFresh second r = randomize-IsFresh second (rand second r).1 zero_piece

-- The cells of a valid piece are one of its four bodies.
pub cells-BodyIsValid : {p : Piece} → IsValid p → BodyIsValid (cells p)
cells-BodyIsValid {p} v =
    All-get_or BodyIsValid p.bodies p.body [] v.shapes (omega (arith, v.four, v.shown, v.turned))

-- Validity does not depend on where the piece is.
pub pos-IsValid : {p : Piece} → IsValid p → (q : Point) → IsValid (record p { pos = q })
pos-IsValid v q = record {
  four = v.four;
  shapes = v.shapes;
  turned = v.turned;
  shown = v.shown;
  visible = v.visible;
}

pub rotate_cw-IsValid : {p : Piece} → IsValid p → IsValid (rotate_cw p)
unfolding rotate_cw
rotate_cw-IsValid v = record {
  four = v.four;
  shapes = v.shapes;
  turned = omega arith;
  shown = refl;
  visible = v.visible;
}

-- Turning a valid piece one way and back gives it again, whichever way comes first.
pub rotate_ccw-rotate_cw :
    {p : Piece} → IsValid p → (rotate_ccw (rotate_cw p) ≡ p) × (rotate_cw (rotate_ccw p) ≡ p)
unfolding rotate_cw rotate_ccw
rotate_ccw-rotate_cw v = (ground arith, ground arith)

-- `rand` stays below 2^31 and, once seeded, no longer reads the clock.
pub rand_lem :
    (s t : ℕ) (r : Rand)
    → ((rand s r).0 < 2 ^ 31)
      × ((rand s r).1.previous_value ≡ (rand s r).0)
      × (rand t (rand s r).1 ≡ rand s (rand s r).1)
unfolding rand
rand_lem s t r = (omega arith, refl, refl)
