-- ===== src/RunController/Sweep.antt =====
-- The state of `TestRunReconciler`, and "Handle deleted tests" in its `Reconcile`.
use konfirm.Base.{ℕ, String, List}
use konfirm.Api.{Test}
use konfirm.Cluster.{Env, M, test_kind}
use konfirm.Sweep.{Swept, sweep}

pub record TestRunReconciler : Type 0 where
  pub client : Env
  pub err_requeue_delay : ℕ

abbrev pub run_finalizer : String
run_finalizer = "konfirm.goraft.tech/testrun-controller"

unfoldable pub sweep_tests : TestRunReconciler → List Test → M (Swept (List Test))
unfolding sweep
sweep_tests r items = sweep (test_kind r.client) run_finalizer items
