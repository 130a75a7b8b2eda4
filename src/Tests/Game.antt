-- ===== src/Tests/Game.antt =====
-- The theorems on HtcLeoPkg/Application/TetrisApp at concrete boards and events.
use htc_leo_pkg.Base.{
  ℕ, ◌+◌, ◌*◌, ◌<◌, ◌≡◌, refl, List, [], ◌∷◌, ◌++◌, none, some, ◌==◌, if◌then◌else◌,
}
use htc_leo_pkg.Uefi.{InputKey, scan_home, scan_esc, scan_up, char_tab}
use htc_leo_pkg.Tetris.Piece.{green, black}
use htc_leo_pkg.Tetris.Board.{
  Board, construct_board, drop_piece, check_and_remove_lines, line_score,
}
use htc_leo_pkg.Tetris.Board.Lines.Shift.{row, row_from}
use htc_leo_pkg.Tetris.Board.Lines.Remove.{
  check_and_remove_lines_lem, visible_rows, survivors, copies, count_full,
}
use htc_leo_pkg.Tetris.Board.Moves.Valid.{IsValid}
use htc_leo_pkg.Tetris.Board.Moves.Drop.{Falls, drop_piece_lem, construct_board-IsValid}
use htc_leo_pkg.Tetris.Core.{Round, construct_core, run}
use htc_leo_pkg.Tetris.Core.Laws.{Fine, run-construct_core-Fine}

abbrev key : ℕ → ℕ → InputKey
key s u = record { scan_code = s; unicode_char = u }

abbrev pressed_after : ℕ → InputKey → Round
pressed_after n k = record { before_input = n; key = some k; before_draw = 1 }

-- A game that is started, waits without a key, is moved, turned and dropped, and is left when its counter
-- has run out.
abbrev rounds : List Round
rounds =
    pressed_after 0 (key 0 0x0d)
    ∷ record { before_input = 2; key = none; before_draw = 0 }
    ∷ pressed_after 1 (key scan_up 0)
    ∷ pressed_after 0 (key 0 char_tab)
    ∷ pressed_after 3 (key scan_home 0)
    ∷ pressed_after 35 (key scan_esc 0)
    ∷ []

run-construct_core-Fine_example : Fine (run 7 (construct_core 7) rounds)
run-construct_core-Fine_example = run-construct_core-Fine 7 rounds

-- A board whose lowest row is full.
abbrev one_line : Board
one_line = record (construct_board 7) { fields = λ y x. if y == 21 then green else black }

check_and_remove_lines_example :
    (b' : Board) × (check_and_remove_lines one_line ≡ some b')
    × (visible_rows b'.fields
        ≡ survivors (visible_rows one_line.fields)
          ++ copies (count_full (visible_rows one_line.fields)) (row one_line.fields 1))
    × (count_full (visible_rows b'.fields) ≡ 0)
    × ((x : ℕ) → (b'.fields 0 x ≡ one_line.fields 0 x) × (b'.fields 1 x ≡ one_line.fields 1 x))
    × (b'.lines ≡ one_line.lines + count_full (visible_rows one_line.fields))
    × (b'.score
        ≡ one_line.score + line_score one_line.level (count_full (visible_rows one_line.fields)))
    × (b'.active_piece ≡ one_line.active_piece)
    × (b'.next_piece ≡ one_line.next_piece)
    × (b'.level ≡ one_line.level)
unfolding row_from
check_and_remove_lines_example = check_and_remove_lines_lem one_line refl

drop_piece_example :
    (h : ℕ) × (b' : Board) × Falls 7 (construct_board 7) h b'
    × (h < 22)
    × (drop_piece 7 (construct_board 7) ≡ some (record b' { score = b'.score + 2 * h }))
    × IsValid (record b' { score = b'.score + 2 * h })
drop_piece_example = drop_piece_lem 7 (construct_board-IsValid 7)
