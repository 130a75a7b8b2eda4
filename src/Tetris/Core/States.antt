-- ===== src/Tetris/Core/States.antt =====
-- The transitions of the game in HtcLeoPkg/Application/TetrisApp/Core.c against a table.
use htc_leo_pkg.Base.{
  ℕ, ◌≡◌, ◌≢◌, refl, Bool, true, ◌&&◌, not, Option, none, some, arith, ◌==◌, if◌then◌else◌,
}
use htc_leo_pkg.Uefi.{InputKey, scan_esc, scan_home, scan_up, scan_down, char_backspace}
use htc_leo_pkg.Tetris.Core.{
  GameState, waiting_for_start, running, paused, over, exit, Core, handle_input, draw_window,
  is_running, and_reset,
}
use htc_leo_pkg.Tetris.Core.Laws.{IsValid, handle_input-Fine}
use htc_leo_pkg.Tetris.Board.{Board, move_piece_down}

-- Back, the key that pauses: a character with none of the scan codes that the game uses.
abbrev pub is_back : InputKey → Bool
is_back k =
    not (k.scan_code == scan_home)
    && (not (k.scan_code == scan_up)
        && (not (k.scan_code == scan_down)
            && (not (k.scan_code == scan_esc) && k.unicode_char == char_backspace)))

-- The state after a key.
abbrev pub next_state : GameState → InputKey → GameState
next_state waiting_for_start k = running
next_state running k =
    if k.scan_code == scan_esc then exit else if is_back k then paused else running
next_state paused k =
    if k.scan_code == scan_esc then exit else if is_back k then running else paused
next_state over k = if k.scan_code == scan_esc then exit else over
next_state exit k = exit

handle_input-state :
    (second : ℕ) (c : Core) (k : InputKey) {c' : Core}
    → handle_input second c (some k) ≡ some c'
    → c'.game_state ≡ next_state c.game_state k
unfolding handle_input
handle_input-state second c k h = ground arith

-- On a valid game every key is handled to the end: the game stays valid, and its state is the next one
-- of the table.
pub handle_input-next_state :
    (second : ℕ) (c : Core) (k : InputKey)
    → IsValid c
    → (c' : Core) × (handle_input second c (some k) ≡ some c')
      × IsValid c'
      × (c'.game_state ≡ next_state c.game_state k)
handle_input-next_state second c k v =
    let f = handle_input-Fine second (some k) v in
    (f.core, f.ends, f.valid, handle_input-state second c k f.ends)

-- Away from `running` a key changes the state alone, as the table says: neither the board nor the clock.
pub handle_input-frame :
    (second : ℕ) (c : Core) (k : InputKey)
    → c.game_state ≢ running
    → handle_input second c (some k) ≡ some (record c { game_state = next_state c.game_state k })
unfolding handle_input
handle_input-frame second c k ne = ground arith

-- A redraw ends a running game whose board is blocked, and changes no other state.
pub draw_window-state :
    (second : ℕ) (c : Core) {c' : Core}
    → draw_window second c ≡ some c'
    → c'.game_state ≡ (if is_running c.game_state && c.board.blocked then over else c.game_state)
unfolding draw_window
draw_window-state second c h = ground arith

-- While the clock has not run out, a redraw ends, leaves the board and the clock alone, and changes the
-- state only from running on a blocked board to over.
pub draw_window_lem :
    (second : ℕ) (c : Core)
    → c.tick_counter ≢ 0
    → draw_window second c
      ≡ some (record c {
        game_state = if is_running c.game_state && c.board.blocked then over else c.game_state;
      })
unfolding draw_window
draw_window_lem second c h = ground arith

abbrev pub map_board : Option (Bool × Board) → Option Board
map_board none = none
map_board (some (t, b)) = some b

-- A running game that is paused when its clock has just run out still moves the piece: the next
-- redraw calls `movePieceDown`, and the game stays paused.
pub paused_still_falls :
    (second : ℕ) (c : Core) (k : InputKey)
    → c.game_state ≡ running
    → c.tick_counter ≡ 0
    → is_back k ≡ true
    → (c1 : Core) × (handle_input second c (some k) ≡ some c1)
      × (c1.game_state ≡ paused)
      × (draw_window second c1 ≡ and_reset c1 (map_board (move_piece_down second c.board)))
unfolding handle_input draw_window
paused_still_falls second c k r z b =
    (record c { game_state = paused }, ground arith, refl, ground arith)
