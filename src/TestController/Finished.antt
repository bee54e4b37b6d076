-- ===== src/TestController/Finished.antt =====
-- What `Reconcile` does with a Test that has Passed or Failed.
use konfirm.Base.{
  ◌≡◌, true, false, Option, none, some, List, [], ◌∷◌, ◌++◌, All, arith, is_some, Bool-cases, inl,
  inr,
}
use konfirm.Api.{Pod, Test, is_final}
use konfirm.Cluster.{
  Failure, History, NamespacedName, Reply, ok, err, ◌>>=◌, pure, ask, on_reply, on_error, test_kind,
  done,
}
use konfirm.Cluster.Keeps.{
  Keeps, keeps_rules, Keeps-bind_returns, Keeps-on_error, Keeps-pure, Returns,
}
use konfirm.Helpers.{add_finalizer, set_finalizers}
use konfirm.Helpers.Keeps.{add_finalizer-Keeps}
use konfirm.TestController.Pods.{TestReconciler, test_finalizer}
use konfirm.TestController.Reconcile.{ensure_phase, is_unset, retry, with_pods, found, reconcile}
use konfirm.TestController.Writes.{is_complete-Keeps}
use konfirm.TestController.Deletion.{
  StartsNothing, patch_starts, pods_start, touch_starts, delete_test_pods_starts,
}

-- The status is a subresource: a patch of the Test itself answers with the status as it is.
abbrev pub LeavesPhase : Test → Reply Test → Type 0
LeavesPhase new (ok t) = t.status.phase ≡ new.status.phase
LeavesPhase new (err e) = Unit

module _ (r : TestReconciler)
    (leaves : (h : History) (a b : Test) → LeavesPhase b (r.client.patch_test h a b)) where
  add_finalizer_phase :
      (t : Test)
      → Returns
          (λ x. x.2.status.phase ≡ t.status.phase)
          (add_finalizer (test_kind r.client) test_finalizer t)
  unfolding add_finalizer test_kind ◌>>=◌ on_reply
  add_finalizer_phase t = record {
    at = λ h. ground (
      arith,
      leaves h t (set_finalizers (test_kind r.client) (t.meta.finalizers ++ test_finalizer ∷ []) t),
    );
  }

  ensure_phase_final :
      (t : Test) (ps : List Pod)
      → is_final t.status.phase ≡ true
      → Keeps (All StartsNothing) (ensure_phase r t ps)
  unfolding ensure_phase
  ensure_phase_final t ps e =
      let known : is_unset t.status.phase ≡ false = ground arith in
      rw (known, e) (is_complete-Keeps r (pods_start r) t ps)

  after_finalizer :
      (t : Test) (ps : List Pod) (failure : Option Failure) (t' : Test)
      → is_final t.status.phase ≡ true
      → t'.status.phase ≡ t.status.phase
      → Keeps (All StartsNothing) (
          on_error failure
            (λ e.
              on_error (r.client.ignore_not_found e) (λ e'. retry r (some e')) (pure (done, none)))
            (ensure_phase r t' ps))
  after_finalizer t ps failure t' final same =
      Keeps-on_error failure _ _
        (λ e. Keeps-on_error (r.client.ignore_not_found e) _ _ (λ e'. Keeps-pure _) (Keeps-pure _))
        (ensure_phase_final t' ps (rw same final))

  with_pods_final :
      (t : Test) (ps : List Pod)
      → is_final t.status.phase ≡ true
      → Keeps (All StartsNothing) (with_pods r t ps)
  unfolding with_pods
  with_pods_final t ps final = elim (Bool-cases (is_some t.meta.deletion_timestamp)) [
    | inl e ↦ rw e (delete_test_pods_starts r t ps)
    | inr e ↦ rw e (
        Keeps-bind_returns _ (add_finalizer (test_kind r.client) test_finalizer t) _
          (add_finalizer-Keeps (test_kind r.client) (patch_starts r) test_finalizer t)
          (add_finalizer_phase t) (λ x same. after_finalizer t ps x.1 x.2 final same))
  ]

  found_final :
      (req : NamespacedName) (t : Test)
      → is_final t.status.phase ≡ true
      → Keeps (All StartsNothing) (found r req t)
  unfolding found
  found_final req t e = search (keeps_rules, with_pods_final, touch_starts r) depth 9

  -- For a Test that has Passed or Failed `Reconcile` creates no pod, patches no status and counts no
  -- result, provided that a patch of the Test itself answers with the phase that it was sent.
  pub reconcile_final :
      (req : NamespacedName) (h : History) {t : Test}
      → r.client.get_test h req ≡ ok t
      → is_final t.status.phase ≡ true
      → All StartsNothing h
      → All StartsNothing (reconcile r req h).1
  unfolding reconcile ◌>>=◌ ask on_reply
  reconcile_final req h {t} got e k = rw got ((found_final req t e).at h k)
