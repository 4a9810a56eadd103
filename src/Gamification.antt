-- ===== src/Gamification.antt =====
-- internal/gamification: the pure scoring rules.
pub mod Holiday
pub mod Level
pub mod Selection
