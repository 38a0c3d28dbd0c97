-- ===== src/Examples.antt =====
-- Tests of the definitions on whole runs, and the theorems at concrete inputs.
mod Passes
mod Pairs
mod Journals
mod Regressions
mod Polls
mod Coils
mod Cycles
mod Frames
mod Stations
mod Commands
