-- ===== src/Samples.antt =====
-- The theorems at concrete inputs, and runs of the code on the inputs of its tests.
mod Matrix
mod Requests
mod Outputs
mod Discovery
mod Hashes
mod Renders
mod Settings
mod Files
mod Guards
mod Resolution
mod Evaluations
mod Lines
mod Patches
