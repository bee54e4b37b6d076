-- ===== src/RunController/Ending.antt =====
-- What the TestRun controller does with a TestRun that is deleted.
use konfirm.Base.{◌≡◌, true, false, List, ◌∷◌, arith, is_some}
use konfirm.Api.{Test, TestRun}
use konfirm.Cluster.{
  History, Effect, NamespacedName, ok, patch_test, delete_test, ◌>>=◌, ask, on_reply,
}
use konfirm.Cluster.Keeps.{WritesOn, WritesOn-Allows, WritesOn-none}
use konfirm.RunController.Sweep.{TestRunReconciler}
use konfirm.RunController.Reconcile.{
  run_unset, delete_run_tests, handle_run, ensure_run_phase, with_tests, reconcile_run,
}
use konfirm.RunController.Writes.{AllowsTestWrites}
use konfirm.RunController.Flow.{delete_held-Keeps}

-- A write to a Test that is there.
abbrev pub WritesTest : Effect → Type 0
WritesTest (patch_test orig new) = Unit
WritesTest (delete_test t) = Unit
WritesTest _ = ⊥

module _ (r : TestRunReconciler) where
  held_writes : (h : History) → AllowsTestWrites (WritesOn WritesTest h)
  held_writes h = record {
    patch = λ a b. WritesOn-Allows (patch_test a b) tt;
    delete = λ t. WritesOn-Allows (delete_test t) tt;
  }

  with_tests_deleted :
      (run : TestRun) (tests : List Test)
      → is_some run.meta.deletion_timestamp ≡ true
      → run_unset run.status.phase ≡ false
      → with_tests r run tests ≡ delete_run_tests r run tests
  unfolding with_tests ensure_run_phase handle_run
  with_tests_deleted run tests deleted set = ground arith

  -- While a Test of a deleted TestRun with a phase is left, each write of `Reconcile` is a patch or
  -- a deletion of a Test: the TestRun keeps its finalizer and its status, and nothing is created.
  pub reconcile_run_deleted_holds :
      (req : NamespacedName) (h : History) {run : TestRun} {t : Test} {ts : List Test}
      → r.client.get_run h req ≡ ok run
      → r.client.list_tests h req ≡ ok (t ∷ ts)
      → is_some run.meta.deletion_timestamp ≡ true
      → run_unset run.status.phase ≡ false
      → WritesOn WritesTest h (reconcile_run r req h).1
  unfolding reconcile_run ◌>>=◌ ask on_reply
  reconcile_run_deleted_holds req h {run} {t} {ts} got listed deleted set =
      rw (got, listed, with_tests_deleted run (t ∷ ts) deleted set)
        ((delete_held-Keeps (held_writes h) r run t ts).at h (WritesOn-none h))
