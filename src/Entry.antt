-- ===== src/Entry.antt =====
-- The entries of the archive.
pub mod Mode
pub mod Tstamp
pub mod Inner
pub mod Mut
pub mod Immut
