-- ===== src/TestController/Counted.antt =====
-- The counters of passed and failed Tests.
use konfirm.Base.{◌≡◌, refl, false, String, none, some, [], ◌∷◌}
use konfirm.Api.{Pod, PodPhase, Test, TestPhase, ObjectMeta, is_final}
use konfirm.Cluster.{
  History, Effect, Env, NamespacedName, Reply, ok, err, patch_test_status, event, inc, Counter, M,
  Outcome, call, pure, ◌>>◌, done, retry_after, ◌>>=◌, emit, on_reply,
}
use konfirm.Cluster.Keeps.{Keeps, Allows, keeps_rules, Keeps-call}
use konfirm.TestController.Pods.{TestReconciler}
use konfirm.TestController.Status.{patch_status, by_phase}
use konfirm.TestController.Reconcile.{reconcile}
use konfirm.TestController.Writes.{AllowsWrites, reconcile-Keeps}

-- The phase that a counter counts.
abbrev pub counted_phase : Counter → TestPhase
counted_phase Counter.passed = TestPhase.passed
counted_phase Counter.failed = TestPhase.failed

module _ (env : Env) where
  -- The write before an increment is a patch to the counted phase, which the server accepted.
  abbrev pub IsEarned : Counter → History → Type 0
  IsEarned c (patch_test_status orig new ∷ h) =
      (t : Test) × (env.patch_test_status h orig new ≡ ok t)
      × (new.status.phase ≡ counted_phase c)
      × (is_final orig.status.phase ≡ false)
  IsEarned c _ = ⊥

  abbrev pub AllEarned : History → Type 0
  AllEarned [] = Unit
  AllEarned (inc c ns ∷ h) = IsEarned c h × AllEarned h
  AllEarned (_ ∷ h) = AllEarned h

module _ (r : TestReconciler) where
  abbrev J : History → Type 0
  J = AllEarned r.client

  report_kept : (m : ObjectMeta) (a b c : String) → Allows J (event m a b c)
  report_kept m a b c h k = k

  status_kept : (a b : Test) → Keeps J (patch_status r a b)
  unfolding patch_status
  status_kept a b = Keeps-call (patch_test_status a b) _ (λ h k. k)

  -- The `else` branch of the patch to a final phase.
  abbrev count_and_report : Counter → (Test → Effect) → Test → M Outcome
  count_and_report c report t = do emit (inc c t.meta.namespace); emit (report t); pure (done, none)

  count_kept :
      (a b : Test) (c : Counter) (report : Test → ObjectMeta × String × String × String)
      → is_final a.status.phase ≡ false
      → b.status.phase ≡ counted_phase c
      → Keeps J (do
        reply ← patch_status r a b
        on_reply reply
            (λ e. pure (retry_after r.err_requeue_delay, some e))
            (count_and_report c (λ t. let (m, x, y, z) = report t in event m x y z)))
  unfolding patch_status ◌>>=◌ emit on_reply call
  count_kept a b c report live phase = record {
    at = λ h k. go h k (r.client.patch_test_status h a b) refl;
  }
    where
      go :
          (h : History)
          → J h
          → (reply : Reply Test) → r.client.patch_test_status h a b ≡ reply
          → J
              (on_reply reply
                (λ e. pure (retry_after r.err_requeue_delay, some e))
                (count_and_report c (λ t. let (m, x, y, z) = report t in event m x y z))
                (patch_test_status a b ∷ h)).1
      go h k (ok t) e = ((t, e, phase, live), k)
      go h k (err x) e = k

  by_phase_kept :
      (phase : PodPhase) (t : Test) (p : Pod)
      → is_final t.status.phase ≡ false
      → Keeps J (by_phase r phase t p)
  unfolding by_phase
  by_phase_kept PodPhase.pending t p e = search (keeps_rules, status_kept, report_kept) depth 8
  by_phase_kept PodPhase.running t p e = search (keeps_rules, status_kept) depth 8
  by_phase_kept PodPhase.succeeded t p e = count_kept t _ Counter.passed _ e refl
  by_phase_kept PodPhase.failed t p e = count_kept t _ Counter.failed _ e refl
  by_phase_kept _ t p e = search keeps_rules

  earned_writes : AllowsWrites r J
  earned_writes = record {
    pod_writes = record { patch = λ a b h k. k; delete = λ p h k. k };
    patch = λ a b h k. k;
    admit = λ t e h k. k;
    create = λ req t from e h k. k;
    report = report_kept;
    count = λ c ns h k. k;
    by_phase = by_phase_kept;
  }

  -- Each increment of a counter comes directly after a status patch that the server accepted, from a
  -- phase that is not final to Passed for the counter of passed Tests and to Failed for the other.
  pub reconcile-AllEarned :
      (req : NamespacedName) (h : History)
      → AllEarned r.client h
      → AllEarned r.client (reconcile r req h).1
  reconcile-AllEarned req h k = (reconcile-Keeps r earned_writes req).at h k
