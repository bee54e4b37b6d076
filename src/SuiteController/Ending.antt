-- ===== src/SuiteController/Ending.antt =====
-- What the TestSuite controller does with a TestSuite that is deleted.
use konfirm.Base.{◌≡◌, refl, true, List, [], ◌∷◌, is_some}
use konfirm.Api.{TestRun, TestSuite}
use konfirm.Cluster.{
  History, Effect, SuiteMetric, NamespacedName, ok, delete_run, patch_run, touch_suite, ◌>>=◌, ask,
  emit, on_reply, run_kind, Kind,
}
use konfirm.Cluster.Keeps.{keeps_rules, Keeps, Keeps-call, WritesOn, WritesOn-Allows}
use konfirm.Helpers.Keeps.{clean_up_all-Keeps}
use konfirm.SuiteController.Defs.{TestSuiteReconciler, suite_finalizer}
use konfirm.SuiteController.Reconcile.{delete_suite_runs, with_runs, with_suite, reconcile_suite}

-- A write to a TestRun that is there, or the initialisation of a metric.
abbrev pub WritesRun : Effect → Type 0
WritesRun (patch_run orig new) = Unit
WritesRun (delete_run t) = Unit
WritesRun (touch_suite m ns n) = Unit
WritesRun _ = ⊥

-- The history once the metrics of a TestSuite are initialised.
abbrev pub touched : TestSuite → History → History
touched suite h =
    let ns = suite.meta.namespace in
    let n = suite.meta.name in
    touch_suite SuiteMetric.failing ns n
    ∷ touch_suite SuiteMetric.passing ns n
    ∷ touch_suite SuiteMetric.runs ns n
    ∷ h

module _ (r : TestSuiteReconciler) (h : History) where
  patch_run-holds :
      (a b : TestRun) → Keeps (WritesOn WritesRun h) (Kind.patch (run_kind r.client) a b)
  unfolding run_kind
  patch_run-holds a b = Keeps-call (patch_run a b) _ (WritesOn-Allows (patch_run a b) tt)

  delete_run-holds :
      (t : TestRun) → Keeps (WritesOn WritesRun h) (Kind.delete (run_kind r.client) t)
  unfolding run_kind
  delete_run-holds t = Keeps-call (delete_run t) _ (WritesOn-Allows (delete_run t) tt)

  delete_suite_runs-holds :
      (suite : TestSuite) (t : TestRun) (ts : List TestRun)
      → Keeps (WritesOn WritesRun h) (delete_suite_runs r suite (t ∷ ts))
  unfolding delete_suite_runs
  delete_suite_runs-holds suite t ts = search (
    keeps_rules,
    clean_up_all-Keeps (run_kind r.client) patch_run-holds delete_run-holds r.client
        suite_finalizer,
  )

  touched-WritesOn : (suite : TestSuite) → WritesOn WritesRun h (touched suite h)
  touched-WritesOn suite =
      let ns = suite.meta.namespace in
      let n = suite.meta.name in
      (
        touch_suite SuiteMetric.failing ns n
            ∷ touch_suite SuiteMetric.passing ns n
            ∷ touch_suite SuiteMetric.runs ns n
            ∷ [],
        refl,
        (tt, (tt, (tt, tt))),
      )

-- While a TestRun of a deleted TestSuite is left, `Reconcile` initialises the suite's metrics, and
-- each other write is a patch or a deletion of a TestRun: the TestSuite keeps its finalizer and its
-- status, its metrics are not set, and nothing is created.
pub reconcile_suite_deleted_holds :
    (r : TestSuiteReconciler) (req : NamespacedName) (h : History) {suite : TestSuite} {t : TestRun}
    {ts : List TestRun}
    → r.client.get_suite h req ≡ ok suite
    → r.client.list_runs (touched suite h) req ≡ ok (t ∷ ts)
    → is_some suite.meta.deletion_timestamp ≡ true
    → WritesOn WritesRun h (reconcile_suite r req h).1
unfolding reconcile_suite with_suite with_runs ◌>>=◌ ask emit on_reply
reconcile_suite_deleted_holds r req h {suite} {t} {ts} got listed deleted =
    rw (got, listed, deleted)
      ((delete_suite_runs-holds r h suite t ts).at (touched suite h) (touched-WritesOn r h suite))
