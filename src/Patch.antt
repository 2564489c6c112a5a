-- ===== src/Patch.antt =====
-- src/source/patch.rs: patches on a work directory. `Paths` has the affected files and the strip level,
-- `Files` applies patches, `Summary` summarizes them. `Level` and `Frame` are
-- about these.
pub mod Paths
pub mod Files
pub mod Level
pub mod Frame
pub mod Unordered
pub mod Summary
