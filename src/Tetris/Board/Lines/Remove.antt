-- ===== src/Tetris/Board/Lines/Remove.antt =====
-- `checkAndRemoveLines` of HtcLeoPkg/Application/TetrisApp/Board.c takes exactly the full rows out.
use mathlib.Core.List.{append_assoc}
use htc_leo_pkg.Base.{
  ℕ, zero, suc, ◌+◌, ◌-◌, ◌≤◌, ◌<◌, ◌≡◌, ◌⊎◌, inl, inr, refl, sym, ap, ap₂, ◌∙◌, true, false, List,
  [], ◌∷◌, ◌++◌, Option, some, arith, if◌then◌else◌, Bool-cases, le→ltb,
}
use htc_leo_pkg.Tetris.Board.Fields.{Grid, full_from, paint_from, shift_down, remove_lines}
use htc_leo_pkg.Tetris.Board.{Board, line_score, check_and_remove_lines}
use htc_leo_pkg.Tetris.Board.Lines.Shift.{
  removal_in, removal_out, Row, row, row_from_ext, is_full, full_from_lem,
}

-- The visible rows up to row `k + 1`, the lowest first.
pub stack : Grid → ℕ → List Row
stack g zero = []
stack g (suc k) = row g (suc (suc k)) ∷ stack g k

pub survivors : List Row → List Row
survivors [] = []
survivors (r ∷ rs) = if is_full r then survivors rs else (r ∷ survivors rs)

pub count_full : List Row → ℕ
count_full [] = 0
count_full (r ∷ rs) = if is_full r then suc (count_full rs) else count_full rs

pub copies : ℕ → Row → List Row
copies zero r = []
copies (suc n) r = r ∷ copies n r

count_full-le : (g : Grid) (k : ℕ) → count_full (stack g k) ≤ k
unfolding count_full stack
count_full-le g zero = omega arith
count_full-le g (suc k) = ground (arith, count_full-le g k)

survivors-append :
    (rs : List Row) (r : Row)
    → is_full r ≡ false
    → survivors (rs ++ r ∷ []) ≡ survivors rs ++ r ∷ []
unfolding survivors
survivors-append [] r h = rw h
survivors-append (q ∷ rs) r h = ground (arith, survivors-append rs r h)

count_full-append :
    (rs : List Row) (r : Row) → is_full r ≡ false → count_full (rs ++ r ∷ []) ≡ count_full rs
unfolding count_full
count_full-append [] r h = rw h
count_full-append (q ∷ rs) r h = ground (arith, count_full-append rs r h)

abbrev removed : Grid → ℕ → Grid
removed g i = shift_down (paint_from g i 0 10) i

row-removed : (g : Grid) (i y : ℕ) → 2 ≤ y → y ≤ i → row (removed g i) y ≡ row g (y - 1)
row-removed g i y h k =
    row_from_ext (removed g i) g y (y - 1) 0 10 (λ x lt. removal_in i g y x h k (omega arith))

row-removed_out : (g : Grid) (i y : ℕ) → (i < y) ⊎ (y < 2) → row (removed g i) y ≡ row g y
row-removed_out g i y h =
    row_from_ext (removed g i) g y y 0 10 (λ x lt. removal_out i g y x (omega arith))

-- The rows up to `k + 2` after a removal at row `i`: those above, and row 1 on top.
stack-removed :
    (g : Grid) (i k : ℕ) → suc (suc k) ≤ i → stack (removed g i) (suc k) ≡ stack g k ++ row g 1 ∷ []
unfolding stack
stack-removed g i zero h = ap (λ r. r ∷ []) (row-removed g i 2 (omega arith) h)
stack-removed g i (suc k) h =
    ap₂ ◌∷◌ (row-removed g i (suc (suc (suc k))) (omega arith) h ∙ ap (row g) (omega arith))
      (stack-removed g i k (omega arith))

row_same : (g g' : Grid) (y : ℕ) → ((x : ℕ) → g' y x ≡ g y x) → row g' y ≡ row g y
row_same g g' y h = row_from_ext g' g y y 0 10 (λ x _. h x)

-- What the loop has done when it stops, started at row `k + 1` of `g`.
pub record Cleared (g : Grid) (k counter : ℕ) (out : Option (ℕ × Grid)) : Type 0 where
  pub field_left : Grid
  pub ends : out ≡ some (counter + count_full (stack g k), field_left)
  pub kept : stack field_left k ≡ survivors (stack g k) ++ copies (count_full (stack g k)) (row g 1)
  pub same : (y x : ℕ) → (suc k < y) ⊎ (y < 2) → field_left y x ≡ g y x

module _ (g : Grid) (k : ℕ) (full : is_full (row g (suc (suc k))) ≡ true) where
  count_full-suc : count_full (stack g (suc k)) ≡ suc (count_full (stack g k))
  unfolding count_full stack
  count_full-suc = rw full

  survivors-suc : survivors (stack g (suc k)) ≡ survivors (stack g k)
  unfolding survivors stack
  survivors-suc = rw full

-- After a removal the full rows are one fewer.
count_full-removed :
    (g : Grid) (k : ℕ)
    → is_full (row g 1) ≡ false
    → count_full (stack (removed g (suc (suc k))) (suc k)) ≡ count_full (stack g k)
count_full-removed g k thin =
    ap count_full (stack-removed g (suc (suc k)) k (omega arith))
    ∙ count_full-append (stack g k) (row g 1) thin

clear_full :
    (g : Grid) (k counter : ℕ) {out : Option (ℕ × Grid)}
    → is_full (row g 1) ≡ false
    → is_full (row g (suc (suc k))) ≡ true
    → Cleared (removed g (suc (suc k))) (suc k) (counter + 1) out
    → Cleared g (suc k) counter out
unfolding copies
clear_full g k counter thin full c = record {
  field_left = c.field_left;
  ends = c.ends ∙ ap (λ n. some (n, c.field_left)) (omega (arith, fewer, count_full-suc g k full));
  kept =
      c.kept
      ∙ ap₂ ◌++◌ rest (ap₂ copies fewer (row-removed_out g (suc (suc k)) 1 (omega arith)))
      ∙ append_assoc (survivors (stack g k)) (row g 1 ∷ []) _
      ∙ rw (count_full-suc g k full, survivors-suc g k full);
  same = λ y x h. c.same y x h ∙ removal_out (suc (suc k)) g y x (omega arith);
}
  where
    fewer : count_full (stack (removed g (suc (suc k))) (suc k)) ≡ count_full (stack g k)
    fewer = count_full-removed g k thin

    rest :
        survivors (stack (removed g (suc (suc k))) (suc k)) ≡ survivors (stack g k) ++ row g 1 ∷ []
    rest =
        ap survivors (stack-removed g (suc (suc k)) k (omega arith))
        ∙ survivors-append (stack g k) (row g 1) thin

clear_thin :
    (g : Grid) (k counter : ℕ) {out : Option (ℕ × Grid)}
    → is_full (row g (suc (suc k))) ≡ false
    → Cleared g k counter out
    → Cleared g (suc k) counter out
unfolding count_full survivors stack
clear_thin g k counter thin c = record {
  field_left = c.field_left;
  ends = rw thin c.ends;
  kept = rw thin (
      ap₂ ◌∷◌ (row_same g c.field_left (suc (suc k)) (λ x. c.same _ x (inl (omega arith)))) c.kept);
  same = λ y x h. c.same y x (omega arith);
}

stack-zero :
    (g : Grid) → stack g 0 ≡ survivors (stack g 0) ++ copies (count_full (stack g 0)) (row g 1)
unfolding stack survivors copies count_full
stack-zero g = refl

count_full-thin :
    (g : Grid) (k : ℕ)
    → is_full (row g (suc (suc k))) ≡ false
    → count_full (stack g (suc k)) ≡ count_full (stack g k)
unfolding count_full stack
count_full-thin g k thin = rw thin

-- With enough fuel the loop ends.
pub remove_lines-Cleared :
    (fuel k counter : ℕ) (g : Grid)
    → is_full (row g 1) ≡ false
    → k + count_full (stack g k) < fuel
    → Cleared g k counter (remove_lines fuel (suc k) counter g)
unfolding remove_lines
remove_lines-Cleared zero k counter g thin lt = absurd (omega arith)
remove_lines-Cleared (suc fuel) zero counter g thin lt = record {
  field_left = g;
  ends = ap (λ n. some (n, g)) (omega (arith, count_full-le g 0));
  kept = stack-zero g;
  same = λ y x h. refl;
}
remove_lines-Cleared (suc fuel) (suc k) counter g thin lt =
    elim (Bool-cases (full_from g (suc (suc k)) 0 10)) [
      | inl e ↦
          let full = sym (full_from_lem g (suc (suc k)) 0 10) ∙ e in
          rw (le→ltb (suc (suc k)) 2 (omega arith), remove_lines, e)
            (clear_full g k counter thin full (
              remove_lines-Cleared fuel (suc k) (counter + 1) (removed g (suc (suc k)))
                (ap is_full (row-removed_out g (suc (suc k)) 1 (omega arith)) ∙ thin)
                (omega (arith, count_full-removed g k thin, count_full-suc g k full))))
      | inr e ↦
          let back : suc (suc k) - 1 ≡ suc k = omega arith in
          let open_row = sym (full_from_lem g (suc (suc k)) 0 10) ∙ e in
          rw (le→ltb (suc (suc k)) 2 (omega arith), remove_lines, e)
            (clear_thin g k counter open_row (
              rw back (
                remove_lines-Cleared fuel k counter g thin
                  (omega (arith, count_full-thin g k open_row)))))
    ]

survivors-count_full : (rs : List Row) → count_full (survivors rs) ≡ 0
unfolding survivors count_full
survivors-count_full [] = refl
survivors-count_full (r ∷ rs) = ground (arith, survivors-count_full rs)

count_full-append_list : (rs qs : List Row) → count_full (rs ++ qs) ≡ count_full rs + count_full qs
unfolding count_full
count_full-append_list [] qs = omega arith
count_full-append_list (r ∷ rs) qs = ground (arith, count_full-append_list rs qs)

count_full-copies : (n : ℕ) (r : Row) → is_full r ≡ false → count_full (copies n r) ≡ 0
unfolding count_full copies
count_full-copies zero r h = refl
count_full-copies (suc n) r h = rw h (count_full-copies n r h)

-- The visible rows of the board, the lowest first.
abbrev pub visible_rows : Grid → List Row
visible_rows g = stack g 20

pub check_and_remove_lines-ends :
    (b : Board)
    → is_full (row b.fields 1) ≡ false
    → let n = count_full (visible_rows b.fields) in
      (b' : Board) × (check_and_remove_lines b ≡ some b')
      × (visible_rows b'.fields ≡ survivors (visible_rows b.fields) ++ copies n (row b.fields 1))
      × (count_full (visible_rows b'.fields) ≡ 0)
      × ((y x : ℕ) → y < 2 → b'.fields y x ≡ b.fields y x)
      × (b'.lines ≡ b.lines + n)
      × (b'.score ≡ b.score + line_score b.level n)
      × (b'.active_piece ≡ b.active_piece)
      × (b'.next_piece ≡ b.next_piece)
      × (b'.level ≡ b.level)
unfolding check_and_remove_lines
check_and_remove_lines-ends b thin =
    let c = remove_lines-Cleared 64 20 0 b.fields thin (omega (arith, count_full-le b.fields 20)) in
    (
      record b {
        fields = c.field_left;
        lines = b.lines + (0 + n);
        score = b.score + line_score b.level (0 + n);
      },
      rw (c.ends, check_and_remove_lines),
      c.kept,
      ap count_full c.kept
          ∙ omega (
            arith,
            count_full-append_list (survivors (stack b.fields 20))
                (copies (count_full (stack b.fields 20)) (row b.fields 1)),
            survivors-count_full (stack b.fields 20),
            count_full-copies (count_full (stack b.fields 20)) (row b.fields 1) thin,
          ),
      λ y x h. c.same y x (inr h),
      omega arith,
      ap (λ k. b.score + line_score b.level k) (omega arith),
      refl,
      refl,
      refl,
    )
  where
    n : ℕ
    n = count_full (visible_rows b.fields)

-- `checkAndRemoveLines` ends on a board whose row 1 is not full. It takes out exactly the full
-- visible rows: the others keep their order and come to rest at the bottom, copies of row 1 fill up
-- from above, no full row is left, the rows above the visible ones are as before, and the counters
-- grow by the number of removed rows and by its score, and the pieces and the level stay.
pub check_and_remove_lines_lem :
    (b : Board)
    → is_full (row b.fields 1) ≡ false
    → let n = count_full (visible_rows b.fields) in
      (b' : Board) × (check_and_remove_lines b ≡ some b')
      × (visible_rows b'.fields ≡ survivors (visible_rows b.fields) ++ copies n (row b.fields 1))
      × (count_full (visible_rows b'.fields) ≡ 0)
      × ((x : ℕ) → (b'.fields 0 x ≡ b.fields 0 x) × (b'.fields 1 x ≡ b.fields 1 x))
      × (b'.lines ≡ b.lines + n)
      × (b'.score ≡ b.score + line_score b.level n)
      × (b'.active_piece ≡ b.active_piece)
      × (b'.next_piece ≡ b.next_piece)
      × (b'.level ≡ b.level)
check_and_remove_lines_lem b thin =
    let (b', ends, rows, none_left, same, lines, score, active, next, level) =
      check_and_remove_lines-ends b thin in
    (
      b',
      ends,
      rows,
      none_left,
      λ x. (same 0 x (omega arith), same 1 x (omega arith)),
      lines,
      score,
      active,
      next,
      level,
    )
