-- ===== src/Atoms.antt =====
-- The tables of atoms of dynare++/parser/cc: variables with lags and leads, and their ordering.
pub mod Map
pub mod Entries
pub mod Dynamic
pub mod Consistent
pub mod Added
pub mod Assigned
pub mod Removed
pub mod Span
pub mod Unassigned
pub mod Names
pub mod Constants
pub mod Imported
pub mod Tests
