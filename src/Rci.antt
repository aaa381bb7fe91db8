-- ===== src/Rci.antt =====
-- Root cause identification (src/myrefl_rci.c), one child for each of its concerns.
pub mod Depend
pub mod Map
pub mod Run
