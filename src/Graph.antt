-- ===== src/Graph.antt =====
-- The build graph: the data model of include/qstar/qstar.h.
pub mod Target
pub mod Tools
pub mod Project
pub mod State
pub mod Lookup
