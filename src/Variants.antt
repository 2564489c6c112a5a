-- ===== src/Variants.antt =====
-- crates/rattler_build_variant_config/src: the build matrix. `Combination`, `Config` and
-- `Evaluate` are combination.rs, config.rs and evaluate.rs, `Selectors` and `Loading` are
-- conda_build_config.rs; the other children hold the proofs.
pub mod Combination
pub mod Config
pub mod Product
pub mod Count
pub mod Choice
pub mod Bound
pub mod Zip
pub mod Selected
pub mod Selectors
pub mod Loading
pub mod Evaluate
pub mod Evaluated
