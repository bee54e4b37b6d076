-- ===== src/TestController/Answers.antt =====
-- The Tests that the server answers with.
use konfirm.Base.{◌≡◌, ◌⊎◌, inl, inr}
use konfirm.Api.{Test}
use konfirm.Cluster.{History, NamespacedName, Reply, ok, err}
use konfirm.Cluster.Keeps.{Answers}
use konfirm.TestController.Pods.{TestReconciler}

-- The server answered with this Test: to the read, to a patch of it or to a patch of its status.
abbrev pub IsAnswer : TestReconciler → NamespacedName → Test → Type 0
IsAnswer r req t =
    (g : History) × ((r.client.get_test g req ≡ ok t)
      ⊎ ((a : Test) × (b : Test) × ((r.client.patch_test g a b ≡ ok t)
            ⊎ (r.client.patch_test_status g a b ≡ ok t))))

module _ (r : TestReconciler) (req : NamespacedName) (g : History) where
  pub got-Answers :
      (reply : Reply Test) → r.client.get_test g req ≡ reply → Answers (IsAnswer r req) reply
  got-Answers (ok t) e = (g, inl e)
  got-Answers (err x) e = tt

  pub patched-Answers :
      (a b : Test) (reply : Reply Test)
      → r.client.patch_test g a b ≡ reply
      → Answers (IsAnswer r req) reply
  patched-Answers a b (ok t) e = (g, inr (a, b, inl e))
  patched-Answers a b (err x) e = tt

  pub status-Answers :
      (a b : Test) (reply : Reply Test)
      → r.client.patch_test_status g a b ≡ reply
      → Answers (IsAnswer r req) reply
  status-Answers a b (ok t) e = (g, inr (a, b, inr e))
  status-Answers a b (err x) e = tt
