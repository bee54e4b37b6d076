-- ===== src/Scenarios/SuiteCases.antt =====
-- The TestSuite controller on concrete TestSuites and TestRuns.
use konfirm.Base.{
  false, Option, if◌then◌else◌, ◌≡◌, ◌↔◌, refl, ℕ, ◌+◌, ◌<◌, ◌≤◌, String, false, some, none, List,
  [], ◌∷◌, All, pos, arith, length, ◌-◌,
}
use konfirm.Api.{
  OwnerReference, Secret, TestPhase, TestRun, TestRunPhase, TestSuite, TestSuitePhase, RetainPolicy,
}
use konfirm.Cluster.{
  Env, ok, patch_suite_status, suite_kind, ◌>>=◌, ask, emit, on_reply, on_error, on_some, call,
}
use konfirm.Helpers.{add_finalizer}
use konfirm.Sweep.{sweep}
use konfirm.HelmWatcher.{label_value, parse_helm_release_secret}
use konfirm.Indexes.{index_pod, index_test, index_run, children_indexed}
use konfirm.TestController.{new_pod}
use konfirm.RunController.{new_test}
use konfirm.SuiteController.{
  panics, finally, carry_on, or_later, patch_status_of, new_run, TestSuiteReconciler, SuiteTrigger,
  returns, next, suite_finalizer, schedule_annotation, with_next_run, helm_label, enforce_history,
  latest_release, new_version, observed, helm_trigger, missed_after, run_if_triggered,
  reconcile_suite,
}
use konfirm.SuiteController.Unschedule.{FlowsTo}
use konfirm.SuiteController.Progress.{FollowsSuiteDiagram, reconcile_suite-FollowsSuiteDiagram}
use konfirm.SuiteController.Metrics.{ReflectVerdicts, reconcile_suite-ReflectVerdicts}
use konfirm.SuiteController.Retention.{IsKept, Spares, enforce_history-KeepsYoungest}
use konfirm.SuiteController.Latest.{ComesFrom, Bounds, latest_release-IsLatest}
use konfirm.SuiteController.OnTime.{Starts, run_if_triggered-on_time}
use konfirm.SuiteController.Labels.{helm_label-label_value}
use konfirm.Cluster.Keeps.{WritesOn}
use konfirm.SuiteController.Ending.{WritesRun, reconcile_suite_deleted_holds}
use konfirm.SuiteController.Follows.{Current, listed, Follows}
use konfirm.SuiteController.Repeats.{helm_trigger-repeats}
use konfirm.Scenarios.Sample.{
  accepting, named, held_by, deleted_at, template, smoke_test, empty_run, request,
}
use konfirm.Scenarios.HelmCases.{shop_secret, shop}

-- Two Tests, a run kept, every day at a time.
abbrev nightly : TestSuitePhase → String → TestSuite
nightly phase current = record {
  type = record { api_version = "konfirm.goraft.tech/v1alpha1"; kind = "TestSuite" };
  meta = record (held_by suite_finalizer (named "nightly")) {
    annotations = (schedule_annotation, "@daily") ∷ [];
  };
  spec = record {
    history_limit = 1;
    set_up = record { helm = record { secret_name = ""; chart_key = ""; values_key = "" } };
    template = record {
      retention_policy = RetainPolicy.never;
      tests =
          record {
            description = "login";
            retention_policy = RetainPolicy.never;
            template = template;
          }
          ∷ [];
    };
    when = record { schedule = "@daily"; helm_release = "" };
  };
  trigger = record { needs_run = false };
  status = record {
    conditions = [];
    phase = phase;
    current_test_run = current;
    next_run = some 100;
  };
}

abbrev run_at : ℕ → String → TestRunPhase → TestRun
run_at time name phase = record empty_run {
  meta = record (held_by suite_finalizer (named name)) { creation_timestamp = time };
  status = record empty_run.status { phase = phase };
}

-- A server that keeps the status apart, a schedule of every thousand, and a clock that stands.
abbrev server : TestSuite → List TestRun → Env
server suite runs =
    record (accepting (smoke_test TestPhase.unset (named "smoke")) [] empty_run []) {
      get_suite = λ h req. ok suite;
      list_runs = λ h req. ok runs;
      patch_suite = λ h a b. ok (record b { status = a.status });
      patch_suite_status = λ h a b. ok (record a { status = b.status });
    }

abbrev suites : TestSuite → List TestRun → TestSuiteReconciler
suites suite runs = record {
  client = server suite runs;
  err_requeue_delay = 60;
  cron_parser = λ s. ok (λ t. t + 1000);
  clock = λ h. 105;
}

abbrev fresh : TestSuiteReconciler
fresh = suites (nightly TestSuitePhase.unset "") []

reconcile_suite-FollowsSuiteDiagram_example :
    All FollowsSuiteDiagram (reconcile_suite fresh request []).1
reconcile_suite-FollowsSuiteDiagram_example =
    reconcile_suite-FollowsSuiteDiagram fresh request [] (λ h a b. refl) tt

abbrev pub triggered : TestSuiteReconciler
triggered = suites (nightly TestSuitePhase.running "") []

abbrev lost : TestSuiteReconciler
lost = suites (nightly TestSuitePhase.running "nightly-z") []

-- The schedule is removed between the read and the patch that makes the suite Ready, whose answer has
-- none; the next run is still set, and overdue.
abbrev edited : TestSuiteReconciler
edited =
    let suite = nightly TestSuitePhase.pending "" in
    record (suites suite []) {
      client = record (server suite []) {
        patch_suite_status = λ h a b. ok (record b {
          spec = record b.spec { when = record { schedule = ""; helm_release = "" } };
        });
      };
      clock = λ h. 10000000200;
    }

edited_schedule_panics : (reconcile_suite edited request []).0 ≡ panics
unfolding reconcile_suite ◌>>=◌ ask emit on_reply on_error add_finalizer sweep finally call on_some
    carry_on or_later patch_status_of suite_kind
edited_schedule_panics = refl

abbrev three_runs : List TestRun
three_runs =
    run_at 1 "nightly-a" TestRunPhase.passed
    ∷ run_at 2 "nightly-b" TestRunPhase.failed
    ∷ run_at 3 "nightly-c" TestRunPhase.passed
    ∷ []

abbrev ended : TestSuiteReconciler
ended = suites (nightly TestSuitePhase.running "nightly-c") three_runs

reconcile_suite-ReflectVerdicts_example : ReflectVerdicts (reconcile_suite ended request []).1
reconcile_suite-ReflectVerdicts_example =
    reconcile_suite-ReflectVerdicts ended request [] (λ ns n. (refl, refl, refl))

abbrev dropped : TestSuite
dropped = record (nightly TestSuitePhase.ready "") {
  meta = deleted_at 9 (held_by suite_finalizer (named "nightly"));
}

reconcile_suite_deleted_holds_example :
    WritesOn WritesRun [] (reconcile_suite (suites dropped three_runs) request []).1
reconcile_suite_deleted_holds_example =
    reconcile_suite_deleted_holds (suites dropped three_runs) request [] refl refl refl

enforce_history-KeepsYoungest_example :
    FlowsTo
      (IsKept (nightly TestSuitePhase.ready "") three_runs)
      (enforce_history ended (nightly TestSuitePhase.ready "") three_runs []).0
    × All
        (Spares (length three_runs - 1) three_runs)
        (enforce_history ended (nightly TestSuitePhase.ready "") three_runs []).1
enforce_history-KeepsYoungest_example =
    enforce_history-KeepsYoungest ended (nightly TestSuitePhase.ready "") three_runs []
      ((omega arith, (omega arith, tt)), ((omega arith, tt), (tt, tt))) tt

abbrev secrets : List Secret
secrets = shop_secret ∷ record shop_secret { type = "Opaque" } ∷ []

latest_release-IsLatest_example :
    ComesFrom secrets (latest_release none secrets)
    × All (λ s. Bounds (latest_release none secrets) (parse_helm_release_secret (some s))) secrets
latest_release-IsLatest_example = latest_release-IsLatest secrets

abbrev controller_of : List OwnerReference → Option OwnerReference
controller_of [] = none
controller_of (o ∷ os) = let rest = controller_of os in if o.controller then some o else rest

children_indexed_example :
    (index_pod controller_of (new_pod (smoke_test TestPhase.unset (named "smoke"))) ≡ "smoke" ∷ [])
    × (index_test controller_of (
          new_test empty_run 3 (record {
            description = "login";
            retention_policy = RetainPolicy.never;
            template = template;
          }))
        ≡ "run" ∷ [])
    × (index_run controller_of (new_run ended (nightly TestSuitePhase.ready "")) ≡ "nightly" ∷ [])
children_indexed_example =
    children_indexed controller_of ended (smoke_test TestPhase.unset (named "smoke")) empty_run 3
      (record { description = "login"; retention_policy = RetainPolicy.never; template = template })
      (nightly TestSuitePhase.ready "") (λ o e. rw e refl) (record { version = refl; named = refl })
      (record { version = refl; named = refl }) (record { version = refl; named = refl })

-- The current run is the last of the three, which has passed.
abbrev following : TestSuite
following = nightly TestSuitePhase.running "nightly-c"

abbrev last_listed : Current "nightly-c" three_runs
last_listed =
    listed refl
      (run_at 1 "nightly-a" TestRunPhase.passed ∷ run_at 2 "nightly-b" TestRunPhase.failed ∷ [])
      (run_at 3 "nightly-c" TestRunPhase.passed) [] (refl, (refl, tt)) refl refl

abbrev ready : TestSuite
ready = nightly TestSuitePhase.ready ""

run_if_triggered-on_time_example :
    (105 < 100
      → run_if_triggered ended ready (some (λ t. t + 1000)) []
        ≡ (returns (record { requeue = false; requeue_after = pos (100 - 105) }) none, []))
    × (100 ≤ 105
        → 105 ≤ 100 + missed_after
        → Starts ready [] (run_if_triggered ended ready (some (λ t. t + 1000)) []).1)
    × (100 + missed_after < 105
        → (run_if_triggered ended ready (some (λ t. t + 1000)) []).1
          ≡ patch_suite_status ready (with_next_run (some (105 + 1000)) ready) ∷ [])
run_if_triggered-on_time_example =
    run_if_triggered-on_time ended ready (λ t. t + 1000) 100 [] refl refl refl

helm_label-label_value_example :
    (helm_label "default" "shop" ≡ label_value (some shop)) ↔ (shop.name ≡ shop.namespace)
helm_label-label_value_example = helm_label-label_value shop refl refl refl

helm_trigger-repeats_example :
    (t : SuiteTrigger) × ((helm_trigger ended ready "7" []).0 ≡ next (observed "7" ready, t))
    × (new_version (observed "7" ready) (some shop) ≡ some "7")
helm_trigger-repeats_example =
    helm_trigger-repeats ended ready (observed "7" ready) shop [] refl refl refl refl
