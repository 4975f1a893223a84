-- ===== src/Samples/Batches.antt =====
-- Runs of a batch of tests (src/test_resources.c).
use qstar.Prelude.{
  ℕ, pos, zero, suc, ◌≤ℤ◌, ◌++◌, ◌≡◌, ◌≢◌, ◌↔◌, refl, true, List, [], ◌∷◌, Option, none, some,
  Bytes, codes, arith, All, map, subst, some-eq_some,
}
use mathlib.Core.List.{Memᴰ}
use qstar.Graph.Target.{Target, TestResourceRequest}
use qstar.Graph.State.{Graph, TestResource}
use qstar.TestResources.{find_test_resource, add_test_resource_request}
use qstar.TestResources.Shares.{AreDistinct}
use qstar.TestResources.Rules.{
  validate_test_resources, validate_test_resources-HasRules, IsUsable, HasRules,
}
use qstar.TestResources.Adding.{add_test_resource_request-AreDistinct}
use qstar.Batch.{Wait, lost, busy, ended, exited, Run, Env}
use qstar.Batch.Loop.{
  BatchOptions, timeout_sec, scan, BatchEnd, wait_failed, out_of_fuel, finished, execute_test_batch,
  failed_count, first_shared, first_run, job_limit, count_done,
}
use qstar.Batch.Sums.{HasRequests}
use qstar.Batch.Responsive.{IsResponsive}
use qstar.Batch.Beginning.{Begun, scan-starts}
use qstar.Batch.Capacity.{HasSmallCapacities, BatchFits, Reached-BatchFits}
use qstar.Batch.Outcome.{HasCapacities, first, scanned, first-BatchOk}
use qstar.Batch.Verdict.{
  IsFinal, IsSuccess, steps_of, execute_test_batch-IsFinal, failed_count-execute_test_batch,
}
use qstar.Batch.Validated.{IsTest, execute_test_batch-validated}
use qstar.Samples.{bare_target, with_targets}

abbrev request : ℕ → TestResourceRequest
request n = record { name = some (codes "db"); amount = pos n }

-- A test with a cleanup and a retry, which takes all of the resource.
abbrev greedy : Target
greedy = record (bare_target (codes "//:greedy")) {
  kind = some (codes "test");
  test_resources = request 2 ∷ [];
  test_retry_on = codes "fail" ∷ [];
  test_retry_count = pos 1;
  test_cleanup = codes "sweep" ∷ [];
}

-- One that takes half of it, and has a second.
abbrev modest : Target
modest = record (bare_target (codes "//:modest")) {
  kind = some (codes "test");
  test_resources = request 1 ∷ [];
  test_timeout_sec = pos 1;
}

abbrev db : TestResource
db = record {
  name = some (codes "db");
  origin_file = some [];
  origin_line = pos 1;
  description = some [];
  capacity = pos 2;
}

abbrev shop : Graph
shop = record (with_targets (greedy ∷ modest ∷ [])) { test_resources = db ∷ [] }

abbrev two_jobs : Option BatchOptions
two_jobs = some (record { jobs = pos 2; include_manual = pos 0 })

-- The processes of the first test fail at once, those of the second never end.
abbrev answer : ℕ → Wait
answer zero = ended (exited (pos 1))
answer (suc i) = busy

-- A second for each round.
abbrev day : Env
day = record {
  starts = λ i n p. true;
  started_at = λ k i p. k;
  wait = λ k i. answer i;
  polled_at = λ k i. k;
}

answer-ne_lost : (i : ℕ) → answer i ≢ lost
answer-ne_lost zero e = cc
answer-ne_lost (suc i) e = cc

day-IsResponsive : IsResponsive day 1
day-IsResponsive = record {
  answers = λ k i. answer-ne_lost i;
  keeps_time = λ k n d i p h. omega arith;
}

shop-valid : validate_test_resources shop ≡ none
unfolding validate_test_resources
shop-valid = refl

greedy-HasRequests : HasRequests shop greedy
unfolding find_test_resource AreDistinct
greedy-HasRequests = record {
  distinct = (refl, tt);
  met = (
    record {
      index = 0;
      resource = db;
      found = refl;
      positive = omega arith;
      at_most = omega arith;
    },
    tt,
  );
}

abbrev both : List Target
both = greedy ∷ modest ∷ []

abbrev runs_of : BatchEnd → List Run
runs_of wait_failed = []
runs_of out_of_fuel = []
runs_of (finished runs) = runs

abbrev results : List Run → List (Bytes × ℕ)
results [] = []
results (r ∷ rs) = (r.status, r.attempt) ∷ results rs

-- The cleanup of the first test fails as well, so that it is not tried again.
shop-results :
    results (runs_of (execute_test_batch 30 shop day two_jobs both))
    ≡ (codes "error", 1) ∷ (codes "timeout", 1) ∷ []
unfolding execute_test_batch
shop-results = refl

shop_failures : failed_count (runs_of (execute_test_batch 30 shop day two_jobs both)) ≡ 2
unfolding execute_test_batch failed_count
shop_failures = refl

shop-HasCapacities : HasCapacities shop
shop-HasCapacities zero p e =
    subst (λ (q : TestResource). pos 0 ≤ℤ q.capacity) (some-eq_some e) (omega arith)
shop-HasCapacities (suc k) p e = cc

greedy_alone : All (HasRequests shop) (greedy ∷ [])
greedy_alone = (greedy-HasRequests, tt)

execute_test_batch-IsFinal_example :
    All IsFinal (runs_of (execute_test_batch 30 shop day two_jobs (greedy ∷ [])))
unfolding execute_test_batch
execute_test_batch-IsFinal_example =
    execute_test_batch-IsFinal shop day two_jobs 30 (greedy ∷ [])
      (runs_of (execute_test_batch 30 shop day two_jobs (greedy ∷ []))) shop-HasCapacities
      greedy_alone refl

failed_count-execute_test_batch_example :
    (failed_count (runs_of (execute_test_batch 30 shop day two_jobs (greedy ∷ []))) ≡ 0)
    ↔ All
        (λ r. IsSuccess r.status)
        (runs_of (execute_test_batch 30 shop day two_jobs (greedy ∷ [])))
unfolding execute_test_batch
failed_count-execute_test_batch_example =
    failed_count-execute_test_batch shop day two_jobs 30 (greedy ∷ [])
      (runs_of (execute_test_batch 30 shop day two_jobs (greedy ∷ []))) shop-HasCapacities
      greedy_alone refl

greedy-IsTest : IsTest shop 5 greedy
unfolding AreDistinct timeout_sec
greedy-IsTest = record { member = Memᴰ.head refl; distinct = (refl, tt); short = omega arith }

modest-IsTest : IsTest shop 5 modest
unfolding AreDistinct timeout_sec
modest-IsTest = record {
  member = Memᴰ.tail (Memᴰ.head refl);
  distinct = (refl, tt);
  short = omega arith;
}

execute_test_batch-validated_example :
    (last : List Run) × (execute_test_batch 78 shop day two_jobs both ≡ finished last)
    × (map (λ (r : Run). r.target) last ≡ both)
    × All IsFinal last
unfolding steps_of
execute_test_batch-validated_example =
    execute_test_batch-validated shop day two_jobs 1 5 78 both shop-valid
      (greedy-IsTest, (modest-IsTest, tt)) day-IsResponsive (omega arith)

-- The state behind the first scan, in which the first test holds all of the resource.
abbrev first_runs : List Run
first_runs = map (first_run two_jobs) (greedy ∷ [])

shop-HasSmallCapacities : HasSmallCapacities shop
shop-HasSmallCapacities zero p e =
    subst (λ (q : TestResource). (pos 0 ≤ℤ q.capacity) × (q.capacity ≤ℤ pos 1073741823))
      (some-eq_some e) (omega arith, omega arith)
shop-HasSmallCapacities (suc k) p e = cc

Reached-BatchFits_example :
    BatchFits shop day
      (job_limit two_jobs)
      0
      (scan shop day (job_limit two_jobs) 0 0 first_runs (first_shared first_runs)).0
      (scan shop day (job_limit two_jobs) 0 0 first_runs (first_shared first_runs)).1
unfolding count_done first_run
Reached-BatchFits_example =
    Reached-BatchFits shop day two_jobs (greedy ∷ []) true 0 _ _ shop-HasSmallCapacities
      greedy_alone (scanned 0 first_runs (first_shared first_runs) first (omega arith))

scan-starts_example : Begun shop day 2 0 0 first_runs (first_shared first_runs)
unfolding job_limit count_done first_run
scan-starts_example =
    scan-starts shop day 2 0 first_runs (first_shared first_runs)
      (first-BatchOk shop day two_jobs (greedy ∷ []) shop-HasCapacities greedy_alone) (omega arith)
      (omega arith) (refl, tt)

validate_test_resources-HasRules_example :
    (validate_test_resources shop ≡ none)
    ↔ (All IsUsable shop.test_resources × All (HasRules shop) shop.targets)
validate_test_resources-HasRules_example = validate_test_resources-HasRules shop

add_test_resource_request-AreDistinct_example :
    AreDistinct (request 2 ∷ record { name = some (codes "gpu"); amount = pos 1 } ∷ [])
    × (request 2 ∷ record { name = some (codes "gpu"); amount = pos 1 } ∷ []
        ≡ (request 2 ∷ []) ++ record { name = some (codes "gpu"); amount = pos 1 } ∷ [])
unfolding add_test_resource_request AreDistinct
add_test_resource_request-AreDistinct_example =
    add_test_resource_request-AreDistinct greedy (codes "gpu") (pos 1)
      (record greedy {
        test_resources = request 2 ∷ record { name = some (codes "gpu"); amount = pos 1 } ∷ [];
      })
      (refl, tt) refl
