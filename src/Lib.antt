-- ===== src/Lib.antt =====
-- rattler-build: how a recipe becomes a list of outputs to build.
--
-- rattler-build reads a recipe and a variant configuration, computes the combinations of variant
-- values that the recipe uses, evaluates the recipe at each, sorts the outputs by their
-- dependencies, and gives each output a build string from the hash of its variant.
--
-- Keys: NormalizedKey of crates/rattler_build_types/src/variant_config/normalized_key.rs. Two keys
-- are equal if their normalized texts are.
--
-- Variants: crates/rattler_build_variant_config/src. `Combination` is combination.rs, with a
-- definition for each function and each loop: `find_combinations` has the two buffers `current` and
-- `result` as its state. `Config` is config.rs without the loading of files, `Evaluate` is
-- evaluate.rs, `Selectors` and `Loading` are conda_build_config.rs. `Evaluated` is about the
-- evaluation, `Selected` about lines with selectors. `Product` describes the search as a product,
-- `Count`, `Choice`, `Bound` and `Zip` are about the matrix and the zip groups.
--
-- Pins: crates/rattler_build_types/src/pin.rs. Versions and match specs belong to
-- rattler_conda_types and are the record `Versions`. i32 and usize casts keep their wrap-around,
-- and a subtraction that overflows is the panic of a build that checks for it.
--
-- Recipe: crates/rattler_build_recipe/src. `Requirements` is stage1/requirements.rs, `Hash` is
-- stage1/hash.rs, `Rendered` has the records that the rendering reads and writes. The rest is
-- variant_render.rs: `Expand` discovers further keys and expands combinations, `Topology` sorts,
-- `Pinning` resolves exact pins against rendered outputs, `Rendering` is `render_with_variants` and
-- `render_with_empty_combinations` from the initial combinations to the build strings.
--
-- `Settings` is RenderConfig and create_jinja_config.
--
-- Patch: src/source/patch.rs. A path is the list of its components on Unix. The file system and the
-- library that parses and applies a patch are the record `Patching`.
--
-- Packaging: src/packaging/file_mapper.rs. The file system is the record `Disk`; a path is the list of
-- its components.
--
-- Conditionals: crates/rattler_build_yaml_parser/src/types.rs, the lists with templates and nested
-- conditionals that a configuration is written with. What ast_variables.rs of
-- crates/rattler_build_jinja finds in a source is the record `Variables`.
--
-- Guard: crates/rattler_prefix_guard/src/lib.rs, the guard file that tells whether a prefix is
-- installed. `Writes` is what a write leaves, `Prefixes` has the steps of processes, `Sound` their
-- invariant, `Promise` the contract, `Recovery` and `Lost` what follows a failure.
--
-- Resolve: src/render/resolved_dependencies.rs and src/render/run_exports.rs. `Apply` is apply_variant,
-- `Exports` the run exports and their filter, `Environments` is resolve_dependencies, cut at its
-- comments. `Stages` has the steps of a resolution that succeeds; `Filtered`, `Exported`,
-- `Permitted`, `Requested`, `Depends`, `Solved` and `Pinned` are about its results. The solver and the
-- download of run exports are the record `Services`, match specs the record `Matching`.
--
-- A BTreeMap is a list of entries in the order of its keys, a HashMap or HashSet a list in the order
-- in which it is walked, which the code leaves open.
-- Package names are their normalized texts.
--
-- The `while` loop of the stable sort has fuel for two rounds more than there are variants: every
-- round but the last adds a variant. The loop of the discovery has its own limit, ten iterations.
--
-- Parameters: `toposort` of petgraph, the template engine, SHA-1, the JSON texts of keys and values,
-- and the evaluation of a recipe at a combination, which gives its outputs or an error. Not modelled:
-- parsing and evaluation of recipes, files, processes and networks.
pub mod Prelude
pub mod Keys
pub mod Variants
pub mod Pins
pub mod Recipe
pub mod Packaging
pub mod Patch
pub mod Guard
pub mod Conditionals
pub mod Resolve
mod Samples
