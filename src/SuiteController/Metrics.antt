-- ===== src/SuiteController/Metrics.antt =====
-- The gauges and the counter of a TestSuite, as the writes leave them.
use konfirm.Base.{
  ap, length, ◌≡◌, refl, ℕ, suc, String, Bool, Bool-cases, inl, inr, true, false, ◌&&◌, str_eq,
  List, [], ◌∷◌, if◌then◌else◌,
}
use konfirm.Api.{ObjectMeta, TestSuite}
use konfirm.Cluster.{
  History, SuiteMetric, NamespacedName, patch_suite_status, inc_suite, set_suite, event, ◌>>=◌,
  emit, pure,
}
use konfirm.Cluster.Keeps.{Keeps, Keeps-bind, Keeps-call, Keeps-pure, Keeps-on_reply}
use konfirm.SuiteController.Defs.{TestSuiteReconciler, patch_status_of}
use konfirm.SuiteController.Running.{run_ended, report_run, count_run, end_run}
use konfirm.SuiteController.Reconcile.{reconcile_suite}
use konfirm.SuiteController.Edges.{AllowsSuiteWrites}
use konfirm.SuiteController.Unschedule.{remove_schedule-Keeps_freely}
use konfirm.SuiteController.Flow.{reconcile_suite-Keeps}

abbrev same_metric : SuiteMetric → SuiteMetric → Bool
same_metric SuiteMetric.passing SuiteMetric.passing = true
same_metric SuiteMetric.failing SuiteMetric.failing = true
same_metric SuiteMetric.runs SuiteMetric.runs = true
same_metric _ _ = false

abbrev labelled : String → String → String → String → Bool
labelled ns n ns' n' = str_eq ns' ns && str_eq n' n

-- The value of a gauge: the latest that was set, and 0 at first.
abbrev pub gauge : SuiteMetric → String → String → History → ℕ
gauge m ns n [] = 0
gauge m ns n (set_suite m' ns' n' v ∷ h) =
    let before = gauge m ns n h in if same_metric m m' && labelled ns n ns' n' then v else before
gauge m ns n (_ ∷ h) = gauge m ns n h

-- How often the counter of runs was increased.
abbrev pub counted_runs : String → String → History → ℕ
counted_runs ns n [] = 0
counted_runs ns n (inc_suite SuiteMetric.runs ns' n' ∷ h) =
    let before = counted_runs ns n h in if labelled ns n ns' n' then suc before else before
counted_runs ns n (_ ∷ h) = counted_runs ns n h

-- The verdicts on a suite's runs, the latest first, as the recorder has them.
abbrev pub verdicts : String → String → History → List Bool
verdicts ns n [] = []
verdicts ns n (event m kind reason message ∷ h) =
    let before = verdicts ns n h in
    if labelled ns n m.namespace m.name
    then if str_eq reason "TestRunPassed"
      then true ∷ before
      else if str_eq reason "TestRunFailed"
      then false ∷ before
      else before
    else before
verdicts ns n (_ ∷ h) = verdicts ns n h

-- What the gauge for a verdict shows.
abbrev pub shows : Bool → List Bool → ℕ
shows v [] = 0
shows true (true ∷ vs) = 1
shows false (false ∷ vs) = 1
shows _ (_ ∷ vs) = 0

-- The metrics of every suite are those of its verdicts.
abbrev pub ReflectVerdicts : History → Type 0
ReflectVerdicts h =
    (ns n : String)
    → (counted_runs ns n h ≡ length (verdicts ns n h))
      × (gauge SuiteMetric.passing ns n h ≡ shows true (verdicts ns n h))
      × (gauge SuiteMetric.failing ns n h ≡ shows false (verdicts ns n h))

-- An event with another reason is no verdict.
unreported-ReflectVerdicts :
    (m : ObjectMeta) (kind reason message : String) (h : History)
    → str_eq reason "TestRunPassed" ≡ false
    → str_eq reason "TestRunFailed" ≡ false
    → ReflectVerdicts h
    → ReflectVerdicts (event m kind reason message ∷ h)
unreported-ReflectVerdicts m kind reason message h e f k ns n =
    elim (Bool-cases (labelled ns n m.namespace m.name)) [
      | inl same ↦ rw (same, e, f) (k ns n)
      | inr other ↦ rw other (k ns n)
    ]

module _ (r : TestSuiteReconciler) where
  report_run-ReflectVerdicts :
      (suite : TestSuite) (name : String) (passed : Bool) (h : History)
      → ReflectVerdicts h
      → ReflectVerdicts
          (report_run r suite name passed
            (inc_suite SuiteMetric.runs suite.meta.namespace suite.meta.name ∷ h)).1
  unfolding report_run ◌>>=◌ emit pure
  report_run-ReflectVerdicts suite name true h k ns n =
      elim (Bool-cases (labelled ns n suite.meta.namespace suite.meta.name)) [
        | inl same ↦ rw same (ap (λ (c : ℕ). suc c) (k ns n).0, refl, refl)
        | inr other ↦ rw other (k ns n)
      ]
  report_run-ReflectVerdicts suite name false h k ns n =
      elim (Bool-cases (labelled ns n suite.meta.namespace suite.meta.name)) [
        | inl same ↦ rw same (ap (λ (c : ℕ). suc c) (k ns n).0, refl, refl)
        | inr other ↦ rw other (k ns n)
      ]

  count_run-ReflectVerdicts :
      (suite : TestSuite) (name : String) (passed : Bool)
      → Keeps ReflectVerdicts (count_run r suite name passed)
  unfolding count_run ◌>>=◌ emit
  count_run-ReflectVerdicts suite name passed = record {
    at = λ h k. report_run-ReflectVerdicts suite name passed h k;
  }

  end_run-ReflectVerdicts :
      (suite : TestSuite) (name : String) (passed : Bool)
      → Keeps ReflectVerdicts (end_run r suite name passed)
  unfolding end_run patch_status_of
  end_run-ReflectVerdicts suite name passed =
      Keeps-bind _ _ (Keeps-call (patch_suite_status suite (run_ended r suite name)) _ (λ h k. k))
        λ reply.
          Keeps-on_reply reply _ _ (λ e. Keeps-pure _)
            (λ s. count_run-ReflectVerdicts s name passed)

  metric_writes : AllowsSuiteWrites r ReflectVerdicts
  metric_writes = record {
    patch_run = λ a b h k. k;
    delete_run = λ t h k. k;
    patch = λ a b h k. k;
    delete = λ t h k. k;
    touch = λ m ns n h k. k;
    triggered =
        λ m a h k. unreported-ReflectVerdicts m "Normal" "TestSuiteTriggered" a h refl refl k;
    started = λ m a h k. unreported-ReflectVerdicts m "Normal" "StartedTestRun" a h refl refl k;
    step = λ a b e h k. k;
    unschedule = λ suite. remove_schedule-Keeps_freely r suite (λ a b h k. k) (λ a b h k. k);
    create = λ req suite from e f h k. k;
    end = λ suite name passed e. end_run-ReflectVerdicts suite name passed;
  }

  -- At the end of each reconcile, whatever the server answers, the metrics of every TestSuite
  -- implement the list of the verdicts that were recorded as events of it, given that they did
  -- before: the counter is the length of the list, the gauge `passing` is 1 where the latest verdict
  -- is a pass, the gauge `failing` where it is a failure, and each is 0 otherwise.
  pub reconcile_suite-ReflectVerdicts :
      (req : NamespacedName) (h : History)
      → ReflectVerdicts h
      → ReflectVerdicts (reconcile_suite r req h).1
  reconcile_suite-ReflectVerdicts req h k = (reconcile_suite-Keeps metric_writes req).at h k
