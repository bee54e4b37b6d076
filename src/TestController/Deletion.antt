-- ===== src/TestController/Deletion.antt =====
-- What `Reconcile` does with a Test that is deleted.
use konfirm.Base.{◌≡◌, true, String, none, List, [], ◌∷◌, All, is_some, if◌then◌else◌}
use konfirm.Api.{Pod, Test}
use konfirm.Cluster.{
  Failure, Outcome, History, Effect, Kind, NamespacedName, ok, create_pod, patch_pod, delete_pod,
  patch_test, patch_test_status, inc, touch, Counter, ◌>>=◌, ask, on_reply, test_kind, done,
  retry_after,
}
use konfirm.Cluster.Keeps.{Keeps, Allows, keeps_rules, Keeps-call, WritesOn}
use konfirm.Helpers.Keeps.{remove_finalizer-Keeps}
use konfirm.Helpers.Finalizers.{contains, without}
use konfirm.TestController.Pods.{TestReconciler, test_finalizer}
use konfirm.TestController.Reconcile.{delete_test_pods, with_pods, found, reconcile}
use konfirm.TestController.Writes.{AllowsPodWrites, clean_pods-Keeps}

-- No write starts a pod, changes a Test's status or counts a result.
abbrev pub StartsNothing : Effect → Type 0
StartsNothing (create_pod p) = ⊥
StartsNothing (patch_test_status orig new) = ⊥
StartsNothing (inc c ns) = ⊥
StartsNothing _ = Unit

-- A write to a pod that is there, or the initialisation of a counter.
abbrev pub WritesPod : Effect → Type 0
WritesPod (patch_pod orig new) = Unit
WritesPod (delete_pod p) = Unit
WritesPod (touch c ns) = Unit
WritesPod _ = ⊥

-- The history once the counters of a Test's namespace are initialised.
abbrev pub touched : Test → History → History
touched t h = touch Counter.passed t.meta.namespace ∷ touch Counter.passed t.meta.namespace ∷ h

-- The Test without the controller's finalizer.
abbrev pub freed : Test → Test
freed t = record t {
  meta = record t.meta { finalizers = without test_finalizer t.meta.finalizers };
}

-- How a call for a deleted Test ends, by the errors of its pods' cleanups and the history behind
-- them. With none it succeeds, having freed a Test that its finalizer holds; with one it returns an
-- error, and has written to pods alone.
abbrev pub EndsDeletion :
    TestReconciler → Test → History → List Failure → History → Outcome × History → Type 0
EndsDeletion r t h [] cleaned out = out ≡ (
  (done, none),
  if contains test_finalizer t.meta.finalizers then patch_test t (freed t) ∷ cleaned else cleaned,
)
EndsDeletion r t h (e ∷ es) cleaned out =
    WritesOn WritesPod h out.1
    × (out.0.0 ≡ retry_after r.err_requeue_delay)
    × (is_some out.0.1 ≡ true)

module _ (r : TestReconciler) where
  pub patch_starts : (a b : Test) → Keeps (All StartsNothing) (Kind.patch (test_kind r.client) a b)
  unfolding test_kind
  patch_starts a b = Keeps-call (patch_test a b) _ (λ h k. (tt, k))

  pub pods_start : AllowsPodWrites (All StartsNothing)
  pods_start = record { patch = λ a b h k. (tt, k); delete = λ p h k. (tt, k) }

  pub touch_starts : (c : Counter) (ns : String) → Allows (All StartsNothing) (touch c ns)
  touch_starts c ns h k = (tt, k)

  pub delete_test_pods_starts :
      (t : Test) (ps : List Pod) → Keeps (All StartsNothing) (delete_test_pods r t ps)
  unfolding delete_test_pods
  delete_test_pods_starts t ps =
      search
        (
          keeps_rules,
          clean_pods-Keeps r pods_start,
          remove_finalizer-Keeps (test_kind r.client) patch_starts,
        )
        depth 8

  with_pods_starts :
      (t : Test) (ps : List Pod)
      → is_some t.meta.deletion_timestamp ≡ true
      → Keeps (All StartsNothing) (with_pods r t ps)
  unfolding with_pods
  with_pods_starts t ps e = rw e (delete_test_pods_starts t ps)

  found_starts :
      (req : NamespacedName) (t : Test)
      → is_some t.meta.deletion_timestamp ≡ true
      → Keeps (All StartsNothing) (found r req t)
  unfolding found
  found_starts req t e = search (keeps_rules, with_pods_starts, touch_starts) depth 9

  -- For a Test with a deletion timestamp `Reconcile` creates no pod, patches no status and counts
  -- no result.
  pub reconcile_deleted :
      (req : NamespacedName) (h : History) {t : Test}
      → r.client.get_test h req ≡ ok t
      → is_some t.meta.deletion_timestamp ≡ true
      → All StartsNothing h
      → All StartsNothing (reconcile r req h).1
  unfolding reconcile ◌>>=◌ ask on_reply
  reconcile_deleted req h {t} got e k = rw got ((found_starts req t e).at h k)
