-- ===== src/Tetris/Board/Lines.antt =====
-- `checkAndRemoveLines` of HtcLeoPkg/Application/TetrisApp/Board.c against the removal of the full
-- rows from a list of rows.
pub mod Shift
pub mod Remove
