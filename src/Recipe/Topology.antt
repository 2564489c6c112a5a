-- ===== src/Recipe/Topology.antt =====
-- The topological sort of crates/rattler_build_recipe/src/variant_render.rs. The children prove
-- that it loses nothing and puts dependencies first.
pub mod Match
pub mod Loop
pub mod Graph
pub mod Marks
pub mod Passes
pub mod Finish
pub mod Order
