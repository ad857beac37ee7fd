-- ===== src/Run.antt =====
-- `Run` of python/src/epochdeck/_run.py: its state and the operations that log to it. Locks, threads and
-- the HTTP client are left out here; a clock and the identifiers it gives out are arguments.
pub mod Documents
pub mod Flatten
pub mod State
