-- ===== src/Samples/Resolution.antt =====
-- An output that asks for a compiler, a library and python, and its solved environments.
use rattler_build.Prelude.{
  ◌==◌, ◌≡◌, refl, Bool, true, false, ◌&&◌, ◌||◌, Option, none, some, List, [], ◌∷◌, ◌++◌, ◌⊎◌, all,
  ◌≢◌, map, OnSome, Text, Result, ok, err, codes, All, is_some, is_empty, if◌then◌else◌, text_eq,
  text_compare, leb, any, collect,
}
use rattler_build.Prelude.Strings.{split, join, decimal, trim}
use rattler_build.Prelude.Maps.{contains, text_keyed, insert, lookup, retain}
use rattler_build.Prelude.Permuted.{unmoved}
use rattler_build.Keys.{normalized_keyed, normalize}
use rattler_build.Pins.{default_args}
use rattler_build.Pins.Apply.{apply}
use rattler_build.Recipe.Requirements as Requirements
use rattler_build.Recipe.Requirements.{
  Specs, Dependency, Requirements, IgnoreRunExports, exports_empty,
}
use rattler_build.Resolve.{
  Matching, RunExportsJson, PackageRecord, FinalizedDependencies, DependencyInfo, as_run_export,
  spec,
}
use rattler_build.Resolve.Environments.{Output, Services, resolve_dependencies}
use rattler_build.Resolve.Filtered.{is_readable}
use rattler_build.Resolve.Exports.{FilteredRunExports, names, filter_run_exports}
use rattler_build.Resolve.Exported.{
  filtered, IsExported, filter_run_exports-IsExported, Same, filter_run_exports-Same,
}
use rattler_build.Resolve.Environments.{add_cached_depends}
use rattler_build.Resolve.Stages.{applied, compat_of}
use rattler_build.Resolve.Depends.{IsWalk, IsPermitted, depends-IsPermitted, depends_without_python}
use rattler_build.Resolve.Solved.{
  exports_of_both, resolve_dependencies-depends, resolve_dependencies_solved,
}
use rattler_build.Resolve.Pinned.{IsPinned, run-IsPinned}
use mathlib.Core.List.Perm
use rattler_build.Samples.Requests.{numbered, v1_23, minor_pin, front, bumped}
use rattler_build.Samples.Outputs.{named}

abbrev first_word : Text → Text
first_word s = elim (split b' ' s) [ [] ↦ [] | w ∷ ws ↦ w ]

abbrev matching : Matching numbered
matching = record {
  Matcher = Text;
  NamelessSpec = Text;
  SpecError = Unit {0};
  exact = λ n. some n;
  show_matcher = λ n. n;
  name = λ m. some (first_word m);
  has_version = λ m. any (λ c. c == b' ') m;
  has_build = λ m. false;
  parse_nameless = λ s. ok s;
  from_nameless = λ s n. elim n [ none ↦ s | some n ↦ n ++ (b' ' ∷ s) ];
  parse_lenient = λ s. if is_empty s then err tt else ok s;
  show = λ m. m;
  is_alphanumeric = λ c. (leb b'0' c && leb c b'9') || (leb b'a' c && leb c b'z');
}

abbrev exports : List Text → List Text → RunExportsJson
exports strong weak = record {
  weak = weak;
  strong = strong;
  noarch = [];
  weak_constrains = [];
  strong_constrains = [];
}

abbrev package_record : Text → Option RunExportsJson → PackageRecord numbered
package_record name e = record { name = name; version = v1_23; build = codes "h0"; run_exports = e }

abbrev solve : Text → List Text → Unit {0} → Result Text (List (PackageRecord numbered))
solve env specs platform =
    if text_eq env (codes "build")
    then ok (package_record (codes "gcc") (some (exports (codes "libgcc" ∷ []) [])) ∷ [])
    else ok (
        package_record (codes "zlib") (some (exports [] (codes "zlib" ∷ [])))
        ∷ package_record (codes "python") (some (exports [] (codes "python_abi" ∷ [])))
        ∷ [])

abbrev services : Services numbered (Unit {0})
services = record {
  solve_environment = solve;
  ensure_run_exports = λ records. ok records;
  download_missing = true;
  walk = λ entries. entries;
  is_noarch = λ platform. false;
}

abbrev requirements : Requirements numbered named
requirements = record {
  build = Requirements.spec (codes "gcc") ∷ [];
  host = Requirements.spec (codes "zlib") ∷ Requirements.spec (codes "python") ∷ [];
  run =
      Requirements.pin_subpackage minor_pin
      ∷ Requirements.pin_compatible (record { name = codes "zlib"; args = default_args numbered })
      ∷ [];
  run_constraints = [];
  run_exports = record {
    noarch = [];
    strong = [];
    strong_constraints = [];
    weak = [];
    weak_constraints = [];
  };
  ignore_run_exports = record { by_name = []; from_package = [] };
}

abbrev output : Output numbered named Text (Unit {0})
output = record {
  build_configuration = record {
    variant = (record { text = codes "zlib" }, codes "1.2") ∷ [];
    subpackages = (codes "foo", record { version = v1_23; build_string = codes "h1_0" }) ∷ [];
    target_platform = tt;
    host_platform = tt;
    build_platform = tt;
  };
  merge_build_and_host_envs = false;
  version_independent = true;
  finalized_cache_dependencies = none;
  inherit_run_exports = none;
  run_exports = requirements.run_exports;
}

abbrev nothing : FinalizedDependencies numbered
nothing = record {
  build = none;
  host = none;
  run = record { depends = []; constraints = []; run_exports = exports [] [] };
}

abbrev fin : FinalizedDependencies numbered
fin = elim (resolve_dependencies numbered named matching (λ v. v) services requirements output) [
  | ok found ↦ found
  | err _ ↦ nothing
]

resolves :
    resolve_dependencies numbered named matching (λ v. v) services requirements output ≡ ok fin
unfolding resolve_dependencies apply front bumped decimal join insert text_eq lookup retain contains
    collect split trim normalize text_compare
resolves = refl

-- The strong export of the compiler and the weak one of the library; python's is ignored.
run_specs :
    map (spec numbered) fin.run.depends
    ≡ codes "foo >=1.23.4,<1.24.0a0"
      ∷ codes "zlib >=1.23.4,<2.0a0"
      ∷ codes "libgcc"
      ∷ codes "zlib"
      ∷ []
unfolding resolve_dependencies apply front bumped decimal join insert text_eq lookup retain contains
    collect split trim spec normalize text_compare
run_specs = refl

walks : IsWalk services.walk
walks entries = unmoved entries

depends-IsPermitted_example :
    All
      (IsPermitted numbered named matching (λ v. v) services requirements output fin)
      fin.run.depends
depends-IsPermitted_example =
    depends-IsPermitted numbered named matching (λ v. v) services requirements output fin walks refl
      resolves

depends_without_python_example :
    All
      (λ d.
        OnSome
          (λ re.
            (re.source_package ≢ codes "python")
            × (names numbered matching (codes "python") re.spec ≡ false))
          (as_run_export numbered d))
      fin.run.depends
depends_without_python_example =
    depends_without_python numbered named matching (λ v. v) services requirements output fin walks
      refl refl resolves

resolve_dependencies-depends_example :
    (asked : List (DependencyInfo numbered)) × (applied numbered named matching
        (λ v. v)
        services
        requirements
        output
        (compat_of numbered named matching (λ v. v) services requirements output fin)
        false
        requirements.run
      ≡ ok asked)
    × (fin.run.depends
        ≡ add_cached_depends numbered named matching (λ v. v) services requirements output asked
          ++ exports_of_both numbered named matching
              (λ v. v)
              services
              requirements
              output
              fin.build
              fin.host)
resolve_dependencies-depends_example =
    resolve_dependencies-depends numbered named matching (λ v. v) services requirements output fin
      resolves

resolve_dependencies_solved_example : (is_some fin.build ≡ true) × (is_some fin.host ≡ true)
resolve_dependencies_solved_example =
    resolve_dependencies_solved numbered named matching (λ v. v) services requirements output fin
      resolves

run-IsPinned_example :
    All
      (IsPinned numbered named matching (λ v. v) services requirements output fin)
      requirements.run
run-IsPinned_example =
    run-IsPinned numbered named matching (λ v. v) services requirements output fin resolves

abbrev entries : List (Text × RunExportsJson)
entries =
    (codes "gcc", exports (codes "libgcc" ∷ []) [])
    ∷ (codes "zlib", exports [] (codes "zlib" ∷ []))
    ∷ []

abbrev nothing_ignored : IgnoreRunExports numbered named
nothing_ignored = record { by_name = []; from_package = [] }

filter_run_exports-Same_example :
    Same numbered matching named nothing_ignored
      (codes "host")
      (filter_run_exports numbered matching named nothing_ignored (codes "host") entries)
      (filter_run_exports numbered matching named nothing_ignored (codes "host") (
        (codes "zlib", exports [] (codes "zlib" ∷ []))
        ∷ (codes "gcc", exports (codes "libgcc" ∷ []) [])
        ∷ []))
filter_run_exports-Same_example =
    filter_run_exports-Same numbered matching named nothing_ignored (codes "host") entries _
      (Perm.swap _ _ [])

abbrev readable : Text × RunExportsJson → Bool
readable = is_readable numbered matching named nothing_ignored (codes "host")

filter_run_exports-IsExported_example :
    ((all readable entries ≡ true)
      × ((r : FilteredRunExports numbered) × (filtered numbered matching named nothing_ignored
              (codes "host")
              entries
            ≡ ok r)
          × IsExported numbered matching named nothing_ignored (codes "host") r entries))
    ⊎ ((all readable entries ≡ false)
        × ((e : Unit {0}) × (filtered numbered matching named nothing_ignored (codes "host") entries
              ≡ err e)))
filter_run_exports-IsExported_example =
    filter_run_exports-IsExported numbered matching named nothing_ignored (codes "host") entries
