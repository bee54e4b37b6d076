-- ===== src/TestController/Reconcile.antt =====
-- `Reconcile`, `isRunning` and `isComplete` of `TestReconciler`.
use konfirm.Base.{Bool, true, false, Option, none, some, List, [], ◌∷◌, is_some, if◌then◌else◌}
use konfirm.Api.{Pod, Test, TestPhase, RetainPolicy, is_final}
use konfirm.Cluster.{
  Failure, NamespacedName, touch, event, create_pod, Counter, Outcome, M, pure, ◌>>=◌, ◌>>◌, emit,
  call, ask, on_error, on_reply, pod_kind, test_kind, done, retry_after,
}
use konfirm.Helpers.{
  ErrorList, no_errors, has_error, join_errors, add_finalizer, remove_finalizer, clean_each,
}
use konfirm.TestController.Pods.{
  TestReconciler, test_finalizer, usable_pods, select_pod, free_deleted_pods, new_pod,
}
use konfirm.TestController.Status.{with_phase, patch_status, by_phase}

abbrev pub is_unset : TestPhase → Bool
is_unset TestPhase.unset = true
is_unset _ = false

-- `policy == RetainNever || (policy == RetainOnFailure && phase == TestPassed)`
abbrev pub drops_pods : RetainPolicy → TestPhase → Bool
drops_pods RetainPolicy.never phase = true
drops_pods RetainPolicy.on_failure TestPhase.passed = true
drops_pods _ _ = false

module _ (r : TestReconciler) where
  -- `return ctrl.Result{Requeue: true, RequeueAfter: r.ErrRequeueDelay}, err`
  abbrev pub retry : Option Failure → M Outcome
  retry failure = pure (retry_after r.err_requeue_delay, failure)

  -- `if errs.HasError() { return … }`, and the code behind it.
  abbrev pub unless_errors : ErrorList → M Outcome → M Outcome
  unless_errors errs rest = if has_error errs then retry (join_errors errs.errors) else rest

  -- The cleanup loop of `Reconcile` and `isComplete`, whose `modified` nobody reads.
  unfoldable pub clean_pods : List Pod → M (Bool × ErrorList)
  clean_pods pods = clean_each (pod_kind r.client) r.client test_finalizer false no_errors pods

  -- "Apply retention policy"
  unfoldable pub retain : Test → List Pod → M Outcome
  unfolding clean_pods
  retain test pods =
      if drops_pods test.spec.retention_policy test.status.phase
      then (do (_, errs) ← clean_pods pods; unless_errors errs (pure (done, none)))
      else pure (done, none)

  unfoldable pub is_complete : Test → List Pod → M Outcome
  unfolding retain
  is_complete test pods = do
    (errs, pods') ← free_deleted_pods r no_errors [] pods
    unless_errors errs (retain test pods')

  -- "If a usable pod does not exist, create one"
  unfoldable pub create_test_pod : Test → M Outcome
  create_test_pod test = do
    reply ← call (create_pod (new_pod test)) (λ h. r.client.create_pod h (new_pod test))
    on_reply reply
        (λ e.
          emit (
            event test.meta "Warning" "ErrorCreatingPod"
              "An error occurred while creating a test pod")
          >> retry (some e))
        (λ pod. by_phase r pod.status.phase test pod)

  -- The part of `isRunning` behind its first loop.
  unfoldable pub run_on : Test → List Pod → M Outcome
  unfolding create_test_pod
  run_on test [] = create_test_pod test
  run_on test (first ∷ others) = do
    (errs, pod) ← select_pod r first no_errors others
    unless_errors errs (by_phase r pod.status.phase test pod)

  -- With no pods at all both loops do nothing, as under the source's `l > 0`.
  unfoldable pub is_running : Test → List Pod → M Outcome
  unfolding run_on
  is_running test pods = do
    (errs, new_pods) ← usable_pods r no_errors [] pods
    unless_errors errs (run_on test new_pods)

  -- "Handle the current phase"
  unfoldable pub handle_phase : Test → List Pod → M Outcome
  unfolding is_running is_complete
  handle_phase test pods =
      if is_final test.status.phase then is_complete test pods else is_running test pods

  -- "If Test status is empty, make Pending"
  unfoldable pub ensure_phase : Test → List Pod → M Outcome
  unfolding handle_phase
  ensure_phase test pods =
      if is_unset test.status.phase
      then (do
        reply ← patch_status r test (with_phase r TestPhase.pending test)
        on_reply reply (λ e. retry (some e)) (λ t. handle_phase t pods))
      else handle_phase test pods

  -- "If deleted, clean up". The error of the last `removeFinalizer` lives in an inner `err`, and the
  -- bare `return` gives back the outer one, which is nil.
  unfoldable pub delete_test_pods : Test → List Pod → M Outcome
  unfolding clean_pods
  delete_test_pods test pods = do
    (_, errs) ← clean_pods pods
    unless_errors errs
        (remove_finalizer (test_kind r.client) test_finalizer test >> pure (done, none))

  unfoldable pub with_pods : Test → List Pod → M Outcome
  unfolding delete_test_pods ensure_phase
  with_pods test pods =
      if is_some test.meta.deletion_timestamp then delete_test_pods test pods else do
        (_, failure, test') ← add_finalizer (test_kind r.client) test_finalizer test
        on_error failure
            (λ e.
              on_error (r.client.ignore_not_found e) (λ e'. retry (some e')) (pure (done, none)))
            (ensure_phase test' pods)

  -- "Ensure the namespaced counters are initialized": both lines name `passed`.
  unfoldable pub found : NamespacedName → Test → M Outcome
  unfolding with_pods
  found req test = do
    emit (touch Counter.passed test.meta.namespace)
    emit (touch Counter.passed test.meta.namespace)
    reply ← ask (λ h. r.client.list_pods h req)
    on_reply reply (λ e. retry (some e)) (λ pods. with_pods test pods)

  -- `TestReconciler.Reconcile`
  unfoldable pub reconcile : NamespacedName → M Outcome
  unfolding found
  reconcile req = do
    reply ← ask (λ h. r.client.get_test h req)
    on_reply reply
        (λ e. on_error (r.client.ignore_not_found e) (λ e'. retry (some e')) (pure (done, none)))
        (λ test. found req test)
