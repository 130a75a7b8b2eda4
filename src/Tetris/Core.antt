-- ===== src/Tetris/Core.antt =====
-- HtcLeoPkg/Application/TetrisApp/Core.c: the game's state machine, its keys and its clock. What the
-- functions print is left out.
pub mod Laws
pub mod States
use htc_leo_pkg.Base.{
  ℕ, zero, suc, ◌+◌, ◌-◌, ◌*◌, ◌/◌, Bool, true, false, ◌&&◌, ◌||◌, not, List, [], ◌∷◌, Option, none,
  some, ◌==◌, if◌then◌else◌,
}
use htc_leo_pkg.Uefi.{
  InputKey, scan_home, scan_up, scan_down, scan_esc, char_carriage_return, char_tab, char_backspace,
}
use htc_leo_pkg.Tetris.Board.{
  Board, construct_board, drop_piece, move_piece_left, move_piece_right, move_piece_down,
  rotate_piece,
}

pub data GameState : Type 0 where
  waiting_for_start running paused over exit : GameState

abbrev pub is_running : GameState → Bool
is_running running = true
is_running _ = false

abbrev pub is_paused : GameState → Bool
is_paused paused = true
is_paused _ = false

-- `Core`, less the handle of its timer.
pub record Core : Type 0 where
  pub game_state : GameState
  pub board : Board
  pub tick_counter : ℕ

-- `resetTickCounter`. The level is at most 11 wherever it is called.
unfoldable pub reset_tick_counter : Core → Core
reset_tick_counter c = record c { tick_counter = 35 * (11 - c.board.level) / 10 }

-- `togglePause`
unfoldable pub toggle_pause : Core → Core
toggle_pause c = record c { game_state = if is_paused c.game_state then running else paused }

abbrev pub with_board : Core → Board → Core
with_board c b = record c { board = b }

abbrev pub and_reset : Core → Option Board → Option Core
and_reset c none = none
and_reset c (some b) = some (reset_tick_counter (with_board c b))

-- The `switch` on the character.
unfoldable pub on_char : ℕ → Core → ℕ → Option Core
unfolding reset_tick_counter toggle_pause
on_char second c char =
    if char == char_carriage_return
    then (if is_running c.game_state
        then (elim (move_piece_down second c.board) [
          | none ↦ none
          | some (moved, b) ↦
              if not moved
              then some (reset_tick_counter (with_board c b))
              else some (with_board c b)
        ])
        else some c)
    else (if char == char_tab
        then (if is_running c.game_state
            then some (with_board c (rotate_piece c.board))
            else some c)
        else (if char == char_backspace
            then (if is_running c.game_state || is_paused c.game_state
                then some (toggle_pause c)
                else some c)
            else some c))

-- The `switch` on the scan code.
unfoldable pub on_key : ℕ → Core → InputKey → Option Core
unfolding on_char reset_tick_counter
on_key second c k =
    if k.scan_code == scan_home
    then (if is_running c.game_state then and_reset c (drop_piece second c.board) else some c)
    else (if k.scan_code == scan_up
        then (if is_running c.game_state
            then some (with_board c (move_piece_left c.board))
            else some c)
        else (if k.scan_code == scan_down
            then (if is_running c.game_state
                then some (with_board c (move_piece_right c.board))
                else some c)
            else (if k.scan_code == scan_esc
                then some (record c { game_state = exit })
                else on_char second c k.unicode_char)))

abbrev pub is_waiting : GameState → Bool
is_waiting waiting_for_start = true
is_waiting _ = false

-- `handleInput` with what `ReadKeyStroke` gave: no key (EFI_NOT_READY) or a key. Another error
-- asserts there, and is not modelled.
unfoldable pub handle_input : ℕ → Core → Option InputKey → Option Core
unfolding on_key
handle_input second c none = some c
handle_input second c (some k) =
    if is_waiting c.game_state then some (record c { game_state = running }) else on_key second c k

-- `drawWindow`, less `drawBoard`.
unfoldable pub draw_window : ℕ → Core → Option Core
unfolding reset_tick_counter
draw_window second c =
    let c1 =
      if is_running c.game_state && c.board.blocked then record c { game_state = over } else c in
    if c1.tick_counter == 0
    then (elim (move_piece_down second c1.board) [
      | none ↦ none
      | some (moved, b) ↦ some (reset_tick_counter (with_board c1 b))
    ])
    else some c1

-- `timerCallback`
unfoldable pub timer_callback : Core → Core
timer_callback c =
    if is_running c.game_state && not (c.tick_counter == 0)
    then record c { tick_counter = c.tick_counter - 1 }
    else c

-- `ConstructCore`
unfoldable pub construct_core : ℕ → Core
construct_core second = record {
  game_state = waiting_for_start;
  board = construct_board second;
  tick_counter = 35;
}

abbrev pub is_exit : GameState → Bool
is_exit exit = true
is_exit _ = false

-- `n` calls of `timerCallback`, which the timer makes while the loop runs.
unfoldable pub ticks : ℕ → Core → Core
unfolding timer_callback
ticks zero c = c
ticks (suc n) c = ticks n (timer_callback c)

-- What a round of the loop in `UefiMain` meets: the timer's calls before `handleInput`, what
-- `ReadKeyStroke` gives there, and the timer's calls before `drawWindow`. The calls after `drawWindow`
-- are those of the next round: they do not change the state that the loop tests. A call of the timer in the
-- middle of either function is not modelled.
pub record Round : Type 0 where
  pub before_input : ℕ
  pub key : Option InputKey
  pub before_draw : ℕ

-- The body of the loop. It draws whatever the key has done, after the key that leaves the game too.
unfoldable pub play : ℕ → Core → Round → Option Core
unfolding handle_input draw_window ticks
play second c r = elim (handle_input second (ticks r.before_input c) r.key) [
  | none ↦ none
  | some c' ↦ draw_window second (ticks r.before_draw c')
]

-- The loop of `UefiMain` over the rounds that it meets: the state is tested before each round.
unfoldable pub run : ℕ → Core → List Round → Option Core
unfolding play
run second c [] = some c
run second c (r ∷ rs) = elim (is_exit c.game_state) [
  | true ↦ some c
  | false ↦ elim (play second c r) [ none ↦ none | some c' ↦ run second c' rs ]
]
