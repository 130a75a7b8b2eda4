-- ===== src/Tests.antt =====
-- The theorems at concrete boards, keys, registers and ticks.
mod Game
mod Keys
mod Board
mod Shared
mod Platform
mod Bus
mod Boot
mod Screen
