-- ===== src/RunController/Answers.antt =====
-- The TestRuns that the server answers with.
use konfirm.Base.{◌≡◌, ◌⊎◌, inl, inr}
use konfirm.Api.{TestRun}
use konfirm.Cluster.{History, NamespacedName, Reply, ok, err}
use konfirm.Cluster.Keeps.{Answers}
use konfirm.RunController.Sweep.{TestRunReconciler}

-- The server answered with this TestRun: to the read, to a patch of it or to a patch of its status.
abbrev pub IsRunAnswer : TestRunReconciler → NamespacedName → TestRun → Type 0
IsRunAnswer r req run =
    (g : History) × ((r.client.get_run g req ≡ ok run)
      ⊎ ((a : TestRun) × (b : TestRun) × ((r.client.patch_run g a b ≡ ok run)
            ⊎ (r.client.patch_run_status g a b ≡ ok run))))

module _ (r : TestRunReconciler) (req : NamespacedName) (g : History) where
  pub got-RunAnswers :
      (reply : Reply TestRun) → r.client.get_run g req ≡ reply → Answers (IsRunAnswer r req) reply
  got-RunAnswers (ok run) e = (g, inl e)
  got-RunAnswers (err x) e = tt

  pub patched-RunAnswers :
      (a b : TestRun) (reply : Reply TestRun)
      → r.client.patch_run g a b ≡ reply
      → Answers (IsRunAnswer r req) reply
  patched-RunAnswers a b (ok run) e = (g, inr (a, b, inl e))
  patched-RunAnswers a b (err x) e = tt

  pub status-RunAnswers :
      (a b : TestRun) (reply : Reply TestRun)
      → r.client.patch_run_status g a b ≡ reply
      → Answers (IsRunAnswer r req) reply
  status-RunAnswers a b (ok run) e = (g, inr (a, b, inr e))
  status-RunAnswers a b (err x) e = tt
