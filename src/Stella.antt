-- ===== src/Stella.antt =====
-- The Stella plan cache (src/stella_cache.c): the binary file that holds an evaluated graph.
pub mod File
pub mod Providers
pub mod Units
pub mod Targets
pub mod Rules
pub mod Toolsets
pub mod GraphFile
pub mod Local
pub mod Json
