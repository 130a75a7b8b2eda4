-- ===== src/Tetris/Board/Cells.antt =====
-- The loops over the four cells of a piece, in HtcLeoPkg/Application/TetrisApp/Board.c, read at one
-- element of the array.
use mathlib.Core.Path.{subst}
use htc_leo_pkg.Base.{
  ℕ, ◌<◌, ◌≡◌, refl, inl, inr, ◌∙◌, Bool, true, false, ◌&&◌, ◌||◌, [], ◌∷◌, arith, ltb, leb, ◌==◌,
  if◌then◌else◌, All, Bool-cases, &&-split, ==_iff,
}
use htc_leo_pkg.Base.Int.{ℤ, pos, negsuc, ◌+ℤ◌, int_laws, +ℤ_zero}
use htc_leo_pkg.Tetris.Piece.{Color, black, Point, Body}
use htc_leo_pkg.Tetris.Board.Fields.{
  Grid, is_empty, hits, put, redraw_field, mark, draw, free_at, possible,
}

-- The cells of the body at `p` include row `y`, column `x`.
abbrev pub covers : Point → Body → ℕ → ℕ → Bool
covers p [] y x = false
covers p (q ∷ qs) y x = hits (q.y +ℤ p.y) (q.x +ℤ p.x) y x || covers p qs y x

pub mark_lem :
    (p : Point) (c : Color) (qs : Body) (g : Grid) (y x : ℕ)
    → mark g p c qs y x ≡ (if covers p qs y x then c else g y x)
unfolding mark
mark_lem p c [] g y x = refl
mark_lem p c (q ∷ qs) g y x = mark_lem p c qs (put g (q.y +ℤ p.y) (q.x +ℤ p.x) c) y x ∙ ground arith

redraw_field_lem :
    (g : Grid) (b a : ℤ) (c : Color) (y x : ℕ)
    → redraw_field g b a c y x ≡ (if leb 2 y && hits a b y x then c else g y x)
redraw_field_lem g b (pos a) c y x = ground arith
redraw_field_lem g b (negsuc a) c y x = ground arith

pub draw_lem :
    (p : Point) (c : Color) (qs : Body) (g : Grid) (y x : ℕ)
    → draw g p c qs y x ≡ (if leb 2 y && covers p qs y x then c else g y x)
unfolding draw
draw_lem p c [] g y x = ground arith
draw_lem p c (q ∷ qs) g y x =
    draw_lem p c qs (redraw_field g (q.x +ℤ p.x) (q.y +ℤ p.y) c) y x
    ∙ ground (arith, redraw_field_lem g (q.x +ℤ p.x) (q.y +ℤ p.y) c y x)

-- Index `a` lies in an array of `n` elements.
abbrev pub Within : ℕ → ℤ → Type 0
Within n (pos a) = a < n
Within n (negsuc a) = ⊥

abbrev pub Inside : Point → Body → Type 0
Inside p qs = All (λ (q : Point). Within 22 (q.y +ℤ p.y) × Within 10 (q.x +ℤ p.x)) qs

abbrev pub moved : Point → ℤ → ℤ → Point
moved p dx dy = record { x = p.x +ℤ dx; y = p.y +ℤ dy }

free_at-Within : (g : Grid) (b a : ℤ) → free_at g b a ≡ true → Within 22 a × Within 10 b
free_at-Within g (pos b) (pos a) h = ground arith
free_at-Within g (pos b) (negsuc a) h = cc
free_at-Within g (negsuc b) a h = cc

is_empty→black : (c : Color) → is_empty c ≡ true → c ≡ black
is_empty→black c h = ground arith

free_at-black :
    (g : Grid) (b a : ℤ) (y x : ℕ) → free_at g b a ≡ true → hits a b y x ≡ true → g y x ≡ black
free_at-black g (pos b) (pos a) y x h t =
    let e : y ≡ a = (==_iff y a).0 (&&-split (y == a) (x == b) t).0 in
    let d : x ≡ b = (==_iff x b).0 (&&-split (y == a) (x == b) t).1 in
    rw (e, d)
      (is_empty→black (g a b)
        (&&-split _ _ (&&-split (ltb b 10) (ltb a 22 && is_empty (g a b)) h).1).1)
free_at-black g (pos b) (negsuc a) y x h t = cc
free_at-black g (negsuc b) (pos a) y x h t = cc
free_at-black g (negsuc b) (negsuc a) y x h t = cc

add-moved : (q p d : ℤ) → q +ℤ p +ℤ d ≡ q +ℤ (p +ℤ d)
add-moved q p d = omega int_laws

-- A move that `isMovePossible` allows keeps every cell inside the array, on empty elements.
pub possible_lem :
    (g : Grid) (p : Point) (dx dy : ℤ) (qs : Body)
    → possible g p dx dy qs ≡ true
    → Inside (moved p dx dy) qs × ((y x : ℕ) → covers (moved p dx dy) qs y x ≡ true → g y x ≡ black)
unfolding possible
possible_lem g p dx dy [] h = (tt, λ y x e. cc)
possible_lem g p dx dy (q ∷ qs) h =
    let bx : ℤ = q.x +ℤ (p.x +ℤ dx) in
    let ay : ℤ = q.y +ℤ (p.y +ℤ dy) in
    let both : (free_at g bx ay ≡ true) × (possible g p dx dy qs ≡ true) =
      &&-split _ _ (rw (add-moved q.x p.x dx, add-moved q.y p.y dy) at h) in
    let rest = possible_lem g p dx dy qs both.1 in
    (
      (free_at-Within g bx ay both.0, rest.0),
      λ y x e. elim (Bool-cases (hits ay bx y x)) [
        | inl t ↦ free_at-black g bx ay y x both.0 t
        | inr f ↦ rest.1 y x (rw f at e)
      ],
    )

moved-zero : (p : Point) → moved p (pos 0) (pos 0) ≡ p
moved-zero p = λ i. record { x = +ℤ_zero p.x i; y = +ℤ_zero p.y i }

-- The same for the test of a piece where it stands.
pub possible_zero_lem :
    (g : Grid) (p : Point) (qs : Body)
    → possible g p (pos 0) (pos 0) qs ≡ true
    → Inside p qs × ((y x : ℕ) → covers p qs y x ≡ true → g y x ≡ black)
possible_zero_lem g p qs h =
    subst (λ (q : Point). Inside q qs × ((y x : ℕ) → covers q qs y x ≡ true → g y x ≡ black))
      (moved-zero p) (possible_lem g p (pos 0) (pos 0) qs h)
