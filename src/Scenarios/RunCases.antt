-- ===== src/Scenarios/RunCases.antt =====
-- The TestRun controller on concrete TestRuns and Tests.
use konfirm.Base.{
  none, some, Bool, true, false, not, zero, suc, ◌↔◌, ◌<◌, pos, ap, ◌≡◌, refl, String, some, List,
  [], ◌∷◌, All, arith, atoi, parse_unsigned, parse_digits,
}
use konfirm.Api.{Test, TestPhase, TestRun, TestRunPhase, RetainPolicy}
use konfirm.TestController.{test_finalizer}
use konfirm.RunController.{
  TestRunReconciler, Tally, no_results, new_test, tally_from, run_finalizer, map_tests, name_index,
  test_name, run_is_running, reconcile_run, panics,
}
use konfirm.RunController.Names.{name_index_iff}
use konfirm.RunController.Placed.{InOrder, map_tests-InOrder, run_is_running_panics}
use konfirm.RunController.Decided.{SetsVerdict, run_is_running_verdict}
use konfirm.RunController.Progress.{FollowsRunDiagram, reconcile_run-FollowsRunDiagram}
use konfirm.Cluster.Keeps.{WritesOn}
use konfirm.RunController.Ending.{WritesTest, reconcile_run_deleted_holds}
use konfirm.Cluster.{test_kind}
use konfirm.Sweep.{swept, is_gone, sweep}
use konfirm.Sweep.Live.{EndsLive, sweep-EndsLive}
use konfirm.RunController.Missing.{creations, AcceptsTests, tally_from-creates}
use konfirm.RunController.Reports.{Reports, run_is_running-Reports}
use konfirm.Scenarios.Sample.{accepting, named, held_by, deleted_at, template, smoke_test, request}

-- A TestRun with two templates.
abbrev nightly : TestRunPhase → TestRun
nightly phase = record {
  type = record { api_version = "konfirm.goraft.tech/v1alpha1"; kind = "TestRun" };
  meta = held_by run_finalizer (named "nightly");
  spec = record {
    retention_policy = RetainPolicy.never;
    tests =
        record { description = "login"; retention_policy = RetainPolicy.never; template = template }
        ∷ record {
          description = "logout";
          retention_policy = RetainPolicy.never;
          template = template;
        }
        ∷ [];
  };
  status = record { conditions = []; phase = phase; message = ""; results = [] };
}

abbrev indexed : String → TestPhase → Test
indexed name phase =
    smoke_test phase (record (held_by test_finalizer (named name)) { generate_name = name })

abbrev runner : TestRun → List Test → TestRunReconciler
runner run tests = record {
  client = accepting (smoke_test TestPhase.unset (named "smoke")) [] run tests;
  err_requeue_delay = 60;
}

abbrev both : List Test
both = indexed "nightly-0-" TestPhase.passed ∷ indexed "nightly-1-" TestPhase.failed ∷ []

abbrev running : TestRunReconciler
running = runner (nightly TestRunPhase.running) both

reconcile_run-FollowsRunDiagram_example : All FollowsRunDiagram (reconcile_run running request []).1
reconcile_run-FollowsRunDiagram_example = reconcile_run-FollowsRunDiagram running request [] tt

-- A TestRun that has no Tests yet.
abbrev pub fresh : TestRunReconciler
fresh = runner (nightly TestRunPhase.unset) []

abbrev dropped : TestRun
dropped = record (nightly TestRunPhase.running) {
  meta = deleted_at 9 (held_by run_finalizer (named "nightly"));
}

reconcile_run_deleted_holds_example :
    WritesOn WritesTest [] (reconcile_run (runner dropped both) request []).1
reconcile_run_deleted_holds_example =
    reconcile_run_deleted_holds (runner dropped both) request [] refl refl refl refl

abbrev with_deleted : List Test
with_deleted =
    smoke_test TestPhase.passed (deleted_at 9 (held_by run_finalizer (named "nightly-0-"))) ∷ both

abbrev is_live : Test → Bool
is_live t = not (is_gone (test_kind running.client) t)

deleted_is_dead : (t : Test) → is_gone (test_kind running.client) t ≡ true → is_live t ≡ false
deleted_is_dead t e = rw e refl

sweep-EndsLive_example :
    EndsLive
      (is_gone (test_kind running.client))
      is_live
      2
      (sweep (test_kind running.client) run_finalizer with_deleted []).0
unfolding test_kind
sweep-EndsLive_example =
    sweep-EndsLive (test_kind running.client) run_finalizer is_live deleted_is_dead with_deleted []

name_index_iff_example : (name_index (test_name "nightly" 12) ≡ some (pos 12)) ↔ (12 < 10)
name_index_iff_example = name_index_iff "nightly" 12 (ground arith)

first_index : name_index "nightly-0-" ≡ some (pos 0)
unfolding name_index atoi parse_unsigned parse_digits
first_index = refl

second_index : name_index "nightly-1-" ≡ some (pos 1)
unfolding name_index atoi parse_unsigned parse_digits
second_index = refl

both_indexed : InOrder both
both_indexed zero h = (_, refl, first_index)
both_indexed (suc zero) h = (_, refl, second_index)
both_indexed (suc (suc k)) h = absurd (omega arith)

both_placed :
    map_tests running 2 both []
    ≡ (swept (record { items = both; places = some 0 ∷ some 1 ∷ [] }), [])
both_placed = map_tests-InOrder running 2 both [] both_indexed (omega arith)

-- Only the Test of the second template is listed.
abbrev second_alone : Test
second_alone = indexed "nightly-1-" TestPhase.passed

run_is_running_panics_example :
    (run_is_running running (nightly TestRunPhase.running) (second_alone ∷ []) []).0 ≡ panics
run_is_running_panics_example =
    run_is_running_panics running (nightly TestRunPhase.running) second_alone [] [] second_index
      (omega arith) (omega arith)

run_is_running_verdict_example :
    All
      (SetsVerdict (some TestPhase.passed ∷ some TestPhase.failed ∷ []))
      (run_is_running running (nightly TestRunPhase.running) both []).1
run_is_running_verdict_example =
    run_is_running_verdict running (nightly TestRunPhase.running) both []
      (ap (λ x. x.0) both_placed) tt

running_accepts : AcceptsTests running
running_accepts h t = (t, refl)

tally_from-creates_example :
    (u : Tally) × ((tally_from running
        (nightly TestRunPhase.running)
        both
        0
        (nightly TestRunPhase.running).spec.tests
        (none ∷ some 1 ∷ [])
        no_results
        []).0
      ≡ swept u)
    × (creations
          (tally_from running
            (nightly TestRunPhase.running)
            both
            0
            (nightly TestRunPhase.running).spec.tests
            (none ∷ some 1 ∷ [])
            no_results
            []).1
        ≡ new_test (nightly TestRunPhase.running) 0 (record {
          description = "login";
          retention_policy = RetainPolicy.never;
          template = template;
        })
          ∷ [])
tally_from-creates_example =
    tally_from-creates running running_accepts (nightly TestRunPhase.running) both 0
      (nightly TestRunPhase.running).spec.tests (none ∷ some 1 ∷ []) no_results []
      (tt, (omega arith, tt))

run_is_running-Reports_example :
    Reports
      (nightly TestRunPhase.running)
      TestRunPhase.failed
      (run_is_running running (nightly TestRunPhase.running) both []).1
run_is_running-Reports_example =
    run_is_running-Reports running (nightly TestRunPhase.running) both [] running_accepts
      (ap (λ x. x.0) both_placed)
