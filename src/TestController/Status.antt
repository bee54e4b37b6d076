-- ===== src/TestController/Status.antt =====
-- The `switch` at the end of `TestReconciler.isRunning`: the pod's phase becomes the test's.
use konfirm.Base.{
  String, Bool, true, false, none, some, List, [], ◌∷◌, concat, insert, if◌then◌else◌,
}
use konfirm.Api.{ContainerStatus, Pod, PodPhase, Test, TestPhase}
use konfirm.Cluster.{
  patch_test_status, event, inc, Counter, Outcome, Reply, M, pure, ◌>>=◌, ◌>>◌, emit, call,
  on_reply, done, retry_after,
}
use konfirm.TestController.Pods.{TestReconciler, pod_created_condition, test_completed_condition}

-- `make(map[string]string)` and the loop over the container statuses.
abbrev pub messages_from : List (String × String) → List ContainerStatus → List (String × String)
messages_from m [] = m
messages_from m (c ∷ cs) =
    messages_from (elim (c.terminated) [ none ↦ m | some text ↦ insert c.name text m ]) cs

abbrev is_starting : TestPhase → Bool
is_starting TestPhase.starting = true
is_starting _ = false

abbrev is_running_phase : TestPhase → Bool
is_running_phase TestPhase.running = true
is_running_phase _ = false

module _ (r : TestReconciler) where
  -- `meta.SetStatusCondition(&test.Status.Conditions, …)`
  abbrev pub with_condition : String → String → String → String → Test → Test
  with_condition type status reason message test = record test {
    status = record test.status {
      conditions =
          r.client.set_status_condition
            (record {
              type = type;
              status = status;
              observed_generation = test.meta.generation;
              reason = reason;
              message = message;
            })
            test.status.conditions;
    };
  }

  abbrev pub with_phase : TestPhase → Test → Test
  with_phase phase test = record test { status = record test.status { phase = phase } }

  abbrev pub with_messages : Pod → Test → Test
  with_messages pod test = record test {
    status = record test.status { messages = messages_from [] pod.status.container_statuses };
  }

  -- `r.Status().Patch(ctx, test, client.MergeFrom(orig))`
  unfoldable pub patch_status : Test → Test → M (Reply Test)
  patch_status orig test =
      call (patch_test_status orig test) (λ h. r.client.patch_test_status h orig test)

  abbrev pub started : String → Pod → Test → Test
  started state pod test =
      with_condition test_completed_condition "False" "PodNotCompleted"
        (concat ("Pod " ∷ pod.meta.name ∷ " is " ∷ state ∷ []))
        (with_condition pod_created_condition "True" "PodCreated"
          (concat ("Created pod " ∷ pod.meta.name ∷ [])) test)

  -- `case v1.PodPending`: the event is recorded whether or not the patch succeeds.
  unfoldable pub pod_pending : Test → Pod → M Outcome
  unfolding patch_status
  pod_pending test pod = if is_starting test.status.phase then pure (done, none) else do
    let test' = started "pending" pod (with_phase TestPhase.starting test)
    let message = concat ("Created pod " ∷ pod.meta.name ∷ [])
    reply ← patch_status test test'
    on_reply reply
        (λ e.
          emit (event test'.meta "Normal" "PodCreated" message)
          >> pure (retry_after r.err_requeue_delay, some e))
        (λ t. emit (event t.meta "Normal" "PodCreated" message) >> pure (done, none))

  -- `case v1.PodRunning`
  unfoldable pub pod_running : Test → Pod → M Outcome
  unfolding patch_status
  pod_running test pod = if is_running_phase test.status.phase then pure (done, none) else do
    reply ← patch_status test (started "running" pod (with_phase TestPhase.running test))
    on_reply reply (λ e. pure (retry_after r.err_requeue_delay, some e)) (λ t. pure (done, none))

  -- `case v1.PodSucceeded`
  unfoldable pub pod_succeeded : Test → Pod → M Outcome
  unfolding patch_status
  pod_succeeded test pod = do
    reply ← patch_status test (
        with_condition test_completed_condition "True" "PodSucceeded"
          (concat ("Pod " ∷ pod.meta.name ∷ " completed successfully" ∷ []))
          (with_messages pod (with_phase TestPhase.passed test)))
    on_reply reply (λ e. pure (retry_after r.err_requeue_delay, some e))
        λ t. do
          emit (inc Counter.passed t.meta.namespace)
          emit (
              event t.meta "Normal" "TestPassed"
                (concat ("Pod " ∷ pod.meta.name ∷ " succeeded" ∷ [])))
          pure (done, none)

  -- `case v1.PodFailed`
  unfoldable pub pod_failed : Test → Pod → M Outcome
  unfolding patch_status
  pod_failed test pod = do
    reply ← patch_status test (
        with_condition test_completed_condition "True" "PodFailed"
          (concat ("Pod " ∷ pod.meta.name ∷ " failed" ∷ []))
          (with_messages pod (with_phase TestPhase.failed test)))
    on_reply reply (λ e. pure (retry_after r.err_requeue_delay, some e))
        λ t. do
          emit (inc Counter.failed t.meta.namespace)
          emit (
              event t.meta "Normal" "TestFailed" (concat ("Pod " ∷ pod.meta.name ∷ " failed" ∷ [])))
          pure (done, none)

  unfoldable pub by_phase : PodPhase → Test → Pod → M Outcome
  unfolding pod_pending pod_running pod_succeeded pod_failed
  by_phase PodPhase.pending test pod = pod_pending test pod
  by_phase PodPhase.running test pod = pod_running test pod
  by_phase PodPhase.succeeded test pod = pod_succeeded test pod
  by_phase PodPhase.failed test pod = pod_failed test pod
  by_phase _ test pod = pure (done, none)
