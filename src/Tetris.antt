-- ===== src/Tetris.antt =====
-- HtcLeoPkg/Application/TetrisApp: the falling-block game of the boot menu.
pub mod Piece
pub mod Board
pub mod Core
