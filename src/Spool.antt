-- ===== src/Spool.antt =====
-- python/src/epochdeck/_spool.py
pub mod Lines
pub mod Entry
pub mod Lane
pub mod Store
pub mod Summary
