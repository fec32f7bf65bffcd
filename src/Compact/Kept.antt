-- ===== src/Compact/Kept.antt =====
-- What Compact does with a whole history.
pub mod Shape
pub mod Decided
pub mod Prose
