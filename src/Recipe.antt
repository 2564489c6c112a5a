-- ===== src/Recipe.antt =====
-- crates/rattler_build_recipe/src: the evaluated recipe and its rendering with variants.
pub mod Hash
pub mod Settings
pub mod Requirements
pub mod PinNames
pub mod Rendered
pub mod Expand
pub mod Pinning
pub mod Topology
pub mod Rendering
