-- ===== src/Sequence.antt =====
-- The sequencer (src/myrefl_sequence.c), one child for each of its concerns.
pub mod Rule
pub mod Stats
pub mod Health
pub mod Sequencer
