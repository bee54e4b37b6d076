-- ===== src/SuiteController/Answers.antt =====
-- The TestSuites that the server answers with.
use konfirm.Base.{◌≡◌, ◌⊎◌, inl, inr, refl}
use konfirm.Api.{TestSuite}
use konfirm.Cluster.{History, NamespacedName, Reply, ok, err}
use konfirm.Cluster.Keeps.{Answers}
use konfirm.SuiteController.Defs.{TestSuiteReconciler}

-- The server answered with this TestSuite: to the read, to a patch of it or to a patch of its status.
abbrev pub IsSuiteAnswer : TestSuiteReconciler → NamespacedName → TestSuite → Type 0
IsSuiteAnswer r req suite =
    (g : History) × ((r.client.get_suite g req ≡ ok suite)
      ⊎ ((a : TestSuite) × (b : TestSuite) × ((r.client.patch_suite g a b ≡ ok suite)
            ⊎ (r.client.patch_suite_status g a b ≡ ok suite))))

-- The server answered with the phase and the current run of this TestSuite.
abbrev pub HasAnswered : TestSuiteReconciler → NamespacedName → TestSuite → Type 0
HasAnswered r req suite =
    (a : TestSuite) × IsSuiteAnswer r req a
    × (suite.status.phase ≡ a.status.phase)
    × (suite.status.current_test_run ≡ a.status.current_test_run)

module _ (r : TestSuiteReconciler) (req : NamespacedName) (g : History) where
  pub got-Answered :
      (reply : Reply TestSuite)
      → r.client.get_suite g req ≡ reply
      → Answers (HasAnswered r req) reply
  got-Answered (ok suite) e = (suite, (g, inl e), refl, refl)
  got-Answered (err x) e = tt

  pub patched-Answered :
      (a b : TestSuite) (reply : Reply TestSuite)
      → r.client.patch_suite g a b ≡ reply
      → Answers (HasAnswered r req) reply
  patched-Answered a b (ok suite) e = (suite, (g, inr (a, b, inl e)), refl, refl)
  patched-Answered a b (err x) e = tt

  pub status-Answered :
      (a b : TestSuite) (reply : Reply TestSuite)
      → r.client.patch_suite_status g a b ≡ reply
      → Answers (HasAnswered r req) reply
  status-Answered a b (ok suite) e = (suite, (g, inr (a, b, inr e)), refl, refl)
  status-Answered a b (err x) e = tt
