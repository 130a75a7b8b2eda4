-- ===== src/Tetris/Core/Laws.antt =====
-- The state machine of HtcLeoPkg/Application/TetrisApp/Core.c over every sequence of rounds of its loop.
use htc_leo_pkg.Base.{
  ℕ, zero, suc, ◌≤◌, ◌≡◌, refl, Bool, true, false, List, [], ◌∷◌, Option, none, some, arith, ◌==◌,
  ◌&&◌, ◌||◌, not, ◌-◌, if◌then◌else◌, Bool-cases, inl, inr,
}
use htc_leo_pkg.Base.Int.{ℤ, pos, negsuc}
use htc_leo_pkg.Uefi.{
  InputKey, scan_esc, scan_home, scan_up, scan_down, char_backspace, char_tab, char_carriage_return,
}
use htc_leo_pkg.Tetris.Board.{
  Board, move_piece_left, move_piece_right, move_piece_down, move_sideways,
}
use htc_leo_pkg.Tetris.Board.Moves.Valid.{IsValid as BoardIsValid}
use htc_leo_pkg.Tetris.Board.Moves.Sideways.{move_sideways-Kept, rotate_piece-Kept}
use htc_leo_pkg.Tetris.Board.Moves.Down.{Down-IsValid, move_piece_down-Down}
use htc_leo_pkg.Tetris.Board.Moves.Drop.{drop_piece_lem, construct_board-IsValid}
use htc_leo_pkg.Tetris.Core.{
  GameState, running, over, exit, Core, handle_input, draw_window, timer_callback, construct_core,
  ticks, play, run, on_key, on_char, Round, is_running, is_paused, is_waiting, is_exit, with_board,
  reset_tick_counter,
}

pub record IsValid (c : Core) : Type 0 where
  pub board : BoardIsValid c.board
  pub ticks : c.tick_counter ≤ 35

-- The call ended, in a valid state.
pub record Fine (out : Option Core) : Type 0 where
  pub core : Core
  pub ends : out ≡ some core
  pub valid : IsValid core

-- The piece can be moved down.
down_fine :
    (second : ℕ) {b : Board}
    → BoardIsValid b
    → (t : Bool) × (b' : Board) × (move_piece_down second b ≡ some (t, b')) × BoardIsValid b'
down_fine second v = let (t, b', e, d) = move_piece_down-Down second v in (t, b', e, Down-IsValid d)

reset-IsValid : (c : Core) → BoardIsValid c.board → IsValid (reset_tick_counter c)
unfolding reset_tick_counter
reset-IsValid c v = record { board = v; ticks = omega (arith, v.slow) }

fine : {c : Core} → IsValid c → Fine (some c)
fine {c} v = record { core = c; ends = refl; valid = v }

if-Fine : {a b : Option Core} (t : Bool) → Fine a → Fine b → Fine (if t then a else b)
if-Fine true x y = x
if-Fine false x y = y

state-IsValid : {c : Core} → IsValid c → (s : GameState) → IsValid (record c { game_state = s })
state-IsValid v s = record { board = v.board; ticks = v.ticks }

board-IsValid : {c : Core} → IsValid c → {b : Board} → BoardIsValid b → IsValid (with_board c b)
board-IsValid v w = record { board = w; ticks = v.ticks }

over_if :
    (t : Bool) {c : Core} → IsValid c → IsValid (if t then record c { game_state = over } else c)
over_if true v = state-IsValid v over
over_if false v = v

-- The second half of `draw_window`.
draw_board : ℕ → Core → Option Core
draw_board second c =
    if c.tick_counter == 0
    then (elim (move_piece_down second c.board) [
      | none ↦ none
      | some (moved, b) ↦ some (reset_tick_counter (with_board c b))
    ])
    else some c

draw_board-Fine : (second : ℕ) {c : Core} → IsValid c → Fine (draw_board second c)
unfolding draw_board
draw_board-Fine second {c} v =
    let (t, b, e, w) = down_fine second v.board in
    if-Fine (c.tick_counter == 0) (rw e (fine (reset-IsValid (with_board c b) w))) (fine v)

draw_window-Fine : (second : ℕ) {c : Core} → IsValid c → Fine (draw_window second c)
unfolding draw_window draw_board
draw_window-Fine second {c} v =
    draw_board-Fine second (over_if (is_running c.game_state && c.board.blocked) v)

on_char-Fine : (second : ℕ) {c : Core} (k : ℕ) → IsValid c → Fine (on_char second c k)
unfolding on_char
on_char-Fine second {c} k v =
    let (t, b, e, w) = down_fine second v.board in
    if-Fine (k == char_carriage_return)
      (if-Fine (is_running c.game_state)
        (rw e
          (if-Fine (not t) (fine (reset-IsValid (with_board c b) w)) (fine (board-IsValid v w))))
        (fine v))
      (if-Fine (k == char_tab)
        (if-Fine (is_running c.game_state)
          (fine (board-IsValid v (rotate_piece-Kept v.board).valid)) (fine v))
        (if-Fine (k == char_backspace)
          (if-Fine (is_running c.game_state || is_paused c.game_state) (fine (state-IsValid v _))
            (fine v))
          (fine v)))

move-Fine : {c : Core} (dx : ℤ) → IsValid c → Fine (some (with_board c (move_sideways dx c.board)))
move-Fine dx v = fine (board-IsValid v (move_sideways-Kept dx v.board).valid)

left-Fine : {c : Core} → IsValid c → Fine (some (with_board c (move_piece_left c.board)))
unfolding move_piece_left
left-Fine v = move-Fine (negsuc 0) v

right-Fine : {c : Core} → IsValid c → Fine (some (with_board c (move_piece_right c.board)))
unfolding move_piece_right
right-Fine v = move-Fine (pos 1) v

on_key-Fine : (second : ℕ) {c : Core} (k : InputKey) → IsValid c → Fine (on_key second c k)
unfolding on_key
on_key-Fine second {c} k v =
    let (h, b, _, _, e, w) = drop_piece_lem second v.board in
    if-Fine (k.scan_code == scan_home)
      (if-Fine (is_running c.game_state) (rw e (fine (reset-IsValid (with_board c _) w))) (fine v))
      (if-Fine (k.scan_code == scan_up) (if-Fine (is_running c.game_state) (left-Fine v) (fine v)) (
        if-Fine (k.scan_code == scan_down)
          (if-Fine (is_running c.game_state) (right-Fine v) (fine v))
          (if-Fine (k.scan_code == scan_esc) (fine (state-IsValid v exit))
            (on_char-Fine second k.unicode_char v))))

tick_if :
    (t : Bool) {c : Core}
    → IsValid c
    → IsValid (if t then record c { tick_counter = c.tick_counter - 1 } else c)
tick_if true v = record { board = v.board; ticks = omega (arith, v.ticks) }
tick_if false v = v

timer_callback-IsValid : {c : Core} → IsValid c → IsValid (timer_callback c)
unfolding timer_callback
timer_callback-IsValid {c} v = tick_if (is_running c.game_state && not (c.tick_counter == 0)) v

ticks-IsValid : (n : ℕ) {c : Core} → IsValid c → IsValid (ticks n c)
unfolding ticks
ticks-IsValid zero v = v
ticks-IsValid (suc n) v = ticks-IsValid n (timer_callback-IsValid v)

pub handle_input-Fine :
    (second : ℕ) {c : Core} (k : Option InputKey) → IsValid c → Fine (handle_input second c k)
unfolding handle_input
handle_input-Fine second {c} none v = fine v
handle_input-Fine second {c} (some k) v =
    if-Fine (is_waiting c.game_state) (fine (state-IsValid v running)) (on_key-Fine second k v)

play-Fine : (second : ℕ) {c : Core} (r : Round) → IsValid c → Fine (play second c r)
unfolding play
play-Fine second {c} r v =
    let h = handle_input-Fine second r.key (ticks-IsValid r.before_input v) in
    rw (h.ends, play) (draw_window-Fine second (ticks-IsValid r.before_draw h.valid))

run-Fine : (second : ℕ) {c : Core} (rs : List Round) → IsValid c → Fine (run second c rs)
unfolding run
run-Fine second {c} [] v = fine v
run-Fine second {c} (r ∷ rs) v =
    let p = play-Fine second r v in
    elim (Bool-cases (is_exit c.game_state)) [
      | inl h ↦ rw (h, run) (fine v)
      | inr h ↦ rw (h, run, p.ends) (run-Fine second {c = p.core} rs p.valid)
    ]

-- From its start, whatever keys the rounds of its loop read and however often the timer fires before each
-- reading and each drawing, the game never hangs in one of its own loops and stays in a valid state.
-- The drawing of the round that reads the key to leave, which still moves the piece if the counter has run
-- out, is included.
pub run-construct_core-Fine :
    (second : ℕ) (rs : List Round) → Fine (run second (construct_core second) rs)
unfolding construct_core
run-construct_core-Fine second rs =
    run-Fine second rs (record { board = construct_board-IsValid second; ticks = omega arith })
