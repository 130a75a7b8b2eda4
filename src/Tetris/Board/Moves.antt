-- ===== src/Tetris/Board/Moves.antt =====
-- The moves of the active piece in HtcLeoPkg/Application/TetrisApp/Board.c: what stays as it is.
pub mod Valid
pub mod Sideways
pub mod Start
pub mod Down
pub mod Drop
