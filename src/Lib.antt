-- ===== src/Lib.antt =====
-- A model of parts of qstar, a build system in C, and what is proved of it.
--
-- Prelude: what the files share, the Boolean tests on native numbers, lists, and C strings. A C string
-- is the list of its bytes without the NUL, and a pointer that may be NULL is an `Option` of it. An
-- `int` is an integer with the hypothesis that it fits 32 bits where that matters; a `size_t` is a
-- natural number.
--
-- Graph: the records of include/qstar/qstar.h (files Target, Tools, Project and State), with an array
-- and its length as a list and the capacities left out, and the look-ups by label of src/graph.c and
-- src/plan.c (Lookup): `target_index`, `has_target`, `graph_find_genrule` (`qstar_graph_find_genrule`)
-- and so on.
--
-- Label: src/label.c. `label_canonicalize`, `label_package_alias` and `label_package_path` are the
-- functions of these names with the prefix `qstar_`; the size of the destination is an argument, -1 is
-- `none`. Split is about the first `//` and the last colon, Canonical describes the labels that are the
-- result, Sound and Complete relate the code to that description.
--
-- Paths: the path functions at the end of src/graph.c, `qstar_dirname`, `qstar_path_join`,
-- `qstar_path_relative_between_dirs` and its helpers, and the test of package-relative paths with its
-- reasons, which are a data type in place of the texts. Text, Between and Leads are about the path
-- between two directories, Relative and Refusals about the test, Join about joining.
--
-- Headers: the validation of header lists in src/header.c, which uses Label, Paths and Graph.Lookup.
-- An error is a value that holds what the message is made of. Places is about where public headers are,
-- Rules about the whole validation.
--
-- Visibility: which targets may depend on a target, `target_visible_to_label` of src/source.c. Patterns
-- says what a pattern stands for, Rule what the whole test decides.
--
-- The module Plan is the dependency closure of src/plan.c, from `target_index` to `build_closure`. A target is its
-- index in the graph; the marks 0, 1, 2 of `state` are a data type. The recursion of `visit_target` runs
-- on fuel, which `build_closure` sets to one more than the number of targets: each call but the last
-- marks a target that was not visited before, so that this is enough, which the theorems about
-- `build_closure` contain: they exclude the outcomes `out_of_fuel` and `fault` (a read outside of
-- an array). Paths has the dependencies and orders, Spec the invariants, Lists and Step the proof for
-- one visit, Sorting and Ascending the order in which the whole graph is visited, Closure the results.
--
-- TestResources: the resources that tests share, of src/graph.c (`find_test_resource`,
-- `add_test_resource`, `add_test_resource_request`) and src/test_resources.c (`resources_available`,
-- `change_resources`). A pointer into the array is the position with the element; the array `used` is a
-- function of the position. Shares is about sums of requests, Rules the validation, Adding the requests.
--
-- Batch: `qstar_graph_execute_test_batch` of src/test_resources.c, which uses TestResources. The steps of
-- one run are in Batch.antt (`start_phase` to `start_attempt`), the loop in Loop: `scan` starts attempts,
-- `poll` ends phases, `round_of` is both. Whether a process starts, what waiting for it says and what the
-- clocks show is the argument `Env`. `execute_test_batch` runs on fuel, one for each round; the bound in
-- the theorem that it ends counts four steps for each attempt and the idle rounds until a timeout.
-- Invariant has what a run is in each phase, Phases, Attempts, Advance, Steps and Starts the steps of a
-- run, Single and Polling what a pass does to one run, Sums and Rounds what it does to all, Stuck a
-- round that changes nothing, Responsive and Termination the end of the loop, Beginning what
-- a scan starts, Outcome, Capacity, Verdict and Validated the results. The sums of amounts are integers
-- without a bound, where the code has `int`: the two agree as long as no sum overflows, which Capacity
-- is about.
--
-- TestSuites: src/test_suite.c, the declaration of suites, their validation (Validation) and
-- `resolve_test_suite_members`. `stack` is an argument of the recursion, since each call resets what it
-- sets. Fuel is one more than the number of suites in `validate_cycles`, and a hypothesis of the theorems
-- on resolving. Leaves says what a suite stands for, Resolving and Members are about the resolution,
-- Grounds, Cycles and Acyclic about the check for cycles and the two together. Selecting has the selection
-- by suites and tags and the memberships of a test, with the sort of the pointers to the suites (`qsort`)
-- as an argument; Tags, Chosen, Choice and Memberships are about
-- them.
--
-- Stella: the plan cache of src/stella_cache.c. File has a file that is written (its bytes, and the
-- room that the device has) and a file that is read, with the pieces `write_u64`, `read_str` and so on;
-- words are little-endian. Providers, Units, Targets, Toolsets and Rules have the records' writers and readers,
-- GraphFile the whole graph file; Json has `json_string`, `json_get_string` and `json_string_equals`.
-- Each RoundTrip says of a writer and a reader that they agree (`Carries`, in File/Carries), Local
-- that a reader depends on what it reads only, GraphFile/Truncated what follows for a file cut off.
-- The bounds are those of the code: `max_string` (16 MiB) and `max_count` (1000000 entries).
--
-- Samples: values to run the definitions on, with the instances of the theorems.
--
-- Assumed: allocation and `fclose` succeed; the arrays and strings that the code takes for not NULL
-- are not. A NULL magic of a graph file, which the code hands to `strcmp`, is a mismatch here; a package
-- name too long for the buffer of `qstar_label_canonicalize`, which the code does not test, gives `none`.
-- A buffer has less than 2 GiB, as the `(int)dstlen` of src/label.c takes for granted. No caller gives NULL
-- for the lists of `collect_test_suite_memberships`.
-- The sort of a toolset's roles, `qsort` in the code, is the insertion of each role.
--
-- Not modelled: the evaluation of Lua fragments (src/lua_runtime.c and the Lua library), the lowering
-- and dumping of plans (the rest of src/plan.c, src/ninja.c), execution and processes (src/executor.c,
-- src/platform_process.c, src/daemon.c), the action cache, the reports and logs of
-- tests, lint, the formatter and the language server, the other validations of src/source.c, and the
-- rest of src/graph.c and src/stella_cache.c (fingerprints, the manifest, the action file, the choice to
-- load or store).
pub mod Prelude
pub mod Graph
pub mod Label
pub mod Paths
pub mod Headers
pub mod Plan
pub mod TestResources
pub mod Batch
pub mod TestSuites
pub mod Visibility
pub mod Stella
pub mod Samples
