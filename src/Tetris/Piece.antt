-- ===== src/Tetris/Piece.antt =====
-- HtcLeoPkg/Application/TetrisApp/Piece.c and Piece.h: the seven pieces, their rotations and the
-- generator that picks them. The colours are the names of the UEFI text attributes, black first.
pub mod Laws
use htc_leo_pkg.Base.{
  ℕ, zero, suc, ◌+◌, ◌-◌, ◌*◌, ◌%◌, ◌^◌, Bool, true, false, List, [], ◌∷◌, Option, none, some, ◌==◌,
  if◌then◌else◌, get_or,
}
use htc_leo_pkg.Base.Int.{ℤ, pos}

pub data Color : Type 0 where
  black light_cyan light_blue green yellow light_green magenta light_magenta : Color

-- `Point`: an `int` for each coordinate.
pub record Point : Type 0 where
  pub x : ℤ
  pub y : ℤ

abbrev pub at : ℕ → ℕ → Point
at i j = record { x = pos i; y = pos j }

-- `Body` has four points and `Bodies` four rotations.
abbrev pub Body : Type 0
Body = List Point

abbrev pub Bodies : Type 0
Bodies = List Body

abbrev pub body_of : Point → Point → Point → Point → Body
body_of a b c d = a ∷ b ∷ c ∷ d ∷ []

abbrev pub bodies_of : Body → Body → Body → Body → Bodies
bodies_of a b c d = a ∷ b ∷ c ∷ d ∷ []

unfoldable pub tetrimino_i : Bodies
tetrimino_i =
    bodies_of (body_of (at 0 1) (at 1 1) (at 2 1) (at 3 1))
      (body_of (at 2 0) (at 2 1) (at 2 2) (at 2 3)) (body_of (at 0 2) (at 1 2) (at 2 2) (at 3 2))
      (body_of (at 1 0) (at 1 1) (at 1 2) (at 1 3))

unfoldable pub tetrimino_j : Bodies
tetrimino_j =
    bodies_of (body_of (at 0 0) (at 0 1) (at 1 1) (at 2 1))
      (body_of (at 1 2) (at 1 1) (at 1 0) (at 2 0)) (body_of (at 0 1) (at 1 1) (at 2 1) (at 2 2))
      (body_of (at 0 2) (at 1 2) (at 1 1) (at 1 0))

unfoldable pub tetrimino_l : Bodies
tetrimino_l =
    bodies_of (body_of (at 0 1) (at 1 1) (at 2 1) (at 2 0))
      (body_of (at 1 2) (at 1 1) (at 1 0) (at 2 2)) (body_of (at 0 1) (at 1 1) (at 2 1) (at 0 2))
      (body_of (at 0 0) (at 1 2) (at 1 1) (at 1 0))

unfoldable pub tetrimino_o : Bodies
tetrimino_o =
    bodies_of (body_of (at 1 0) (at 1 1) (at 2 0) (at 2 1))
      (body_of (at 1 0) (at 1 1) (at 2 0) (at 2 1)) (body_of (at 1 0) (at 1 1) (at 2 0) (at 2 1))
      (body_of (at 1 0) (at 1 1) (at 2 0) (at 2 1))

unfoldable pub tetrimino_s : Bodies
tetrimino_s =
    bodies_of (body_of (at 0 1) (at 1 1) (at 1 0) (at 2 0))
      (body_of (at 1 0) (at 1 1) (at 2 1) (at 2 2)) (body_of (at 0 2) (at 1 2) (at 1 1) (at 2 1))
      (body_of (at 0 0) (at 0 1) (at 1 1) (at 1 2))

unfoldable pub tetrimino_t : Bodies
tetrimino_t =
    bodies_of (body_of (at 0 1) (at 1 1) (at 2 1) (at 1 0))
      (body_of (at 1 0) (at 1 1) (at 1 2) (at 2 1)) (body_of (at 0 1) (at 1 1) (at 2 1) (at 1 2))
      (body_of (at 1 0) (at 1 1) (at 1 2) (at 0 1))

unfoldable pub tetrimino_z : Bodies
tetrimino_z =
    bodies_of (body_of (at 2 1) (at 1 1) (at 1 0) (at 0 0))
      (body_of (at 1 2) (at 1 1) (at 2 1) (at 2 0)) (body_of (at 2 2) (at 1 2) (at 1 1) (at 0 1))
      (body_of (at 0 2) (at 0 1) (at 1 1) (at 1 0))

-- `Piece`: the pointer `body` into `bodies` is the index that it points to.
pub record Piece : Type 0 where
  pub bodies : Bodies
  pub body : ℕ
  pub rotation : ℕ
  pub color : Color
  pub pos : Point

-- `(*this->body)[0..3]`.
abbrev pub cells : Piece → Body
cells p = get_or p.bodies p.body []

-- The `switch` of `randomize`; `none` is its `default`, which asserts.
unfoldable pub tetrimino : ℕ → Option (Bodies × Color)
unfolding tetrimino_i tetrimino_j tetrimino_l tetrimino_o tetrimino_s tetrimino_t tetrimino_z
tetrimino zero = some (tetrimino_i, light_cyan)
tetrimino (suc zero) = some (tetrimino_j, light_blue)
tetrimino (suc (suc zero)) = some (tetrimino_l, green)
tetrimino (suc (suc (suc zero))) = some (tetrimino_o, yellow)
tetrimino (suc (suc (suc (suc zero)))) = some (tetrimino_s, light_green)
tetrimino (suc (suc (suc (suc (suc zero))))) = some (tetrimino_t, magenta)
tetrimino (suc (suc (suc (suc (suc (suc zero)))))) = some (tetrimino_z, light_magenta)
tetrimino (suc (suc (suc (suc (suc (suc (suc n))))))) = none

-- The static variables of `rand`.
pub record Rand : Type 0 where
  pub previous_value : ℕ
  pub initialized : Bool

abbrev pub rand_start : Rand
rand_start = record { previous_value = 0; initialized = false }

-- `rand`: unsigned arithmetic modulo 2^32, reduced modulo M = 1 << 31. The first call seeds the
-- generator with the second of the clock, `second`.
unfoldable pub rand : ℕ → Rand → ℕ × Rand
rand second r =
    let v = (69069 * (if r.initialized then r.previous_value else second) + 1) % 2 ^ 32 % 2 ^ 31 in
    (v, record { previous_value = v; initialized = true })

-- `randomize` with the number that `rand` returned.
unfoldable pub randomize_with : ℕ → Piece → Piece
unfolding tetrimino
randomize_with v p = elim (tetrimino (v % 7)) [
  | none ↦ p
  | some (target, c) ↦ record p { bodies = target; color = c; rotation = 0; body = 0 }
]

unfoldable pub randomize : ℕ → Rand → Piece → Piece × Rand
unfolding rand randomize_with
randomize second r p = let (v, r') = rand second r in (randomize_with v p, r')

unfoldable pub rotate_cw : Piece → Piece
rotate_cw p = let r = (p.rotation + 1) % 4 in record p { rotation = r; body = r }

unfoldable pub rotate_ccw : Piece → Piece
rotate_ccw p =
    let r = if p.rotation == 0 then 3 else p.rotation - 1 in record p { rotation = r; body = r }

abbrev pub zero_piece : Piece
zero_piece = record { bodies = []; body = 0; rotation = 0; color = black; pos = at 0 0 }

-- `ConstructPiece`: one number is drawn and dropped before the piece is randomized.
unfoldable pub construct_piece : ℕ → Rand → Piece × Rand
unfolding rand randomize
construct_piece second r = let (v, r') = rand second r in randomize second r' zero_piece
