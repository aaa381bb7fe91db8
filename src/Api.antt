-- ===== src/Api.antt =====
-- The part of src/myrefl_api.c that changes how rules are linked and what they evaluate.
pub mod Linking
pub mod Operands
pub mod States
pub mod Chaining
pub mod Containment
pub mod Components
