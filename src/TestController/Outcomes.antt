-- ===== src/TestController/Outcomes.antt =====
-- What `TestReconciler.Reconcile` returns: a request to be called again comes with every error, and
-- with nothing else.
use konfirm.Base.{ℕ, ◌≡◌, refl, true, Option, none, some, List, [], ◌∷◌, arith}
use konfirm.Api.{Pod, PodPhase, Test}
use konfirm.Cluster.{Failure, Result, Outcome, History, NamespacedName, M, done, retry_after}
use konfirm.Cluster.Keeps.{Returns, returns_rules, Returns-pure}
use konfirm.Helpers.{ErrorList, has_error, join_errors}
use konfirm.TestController.Pods.{TestReconciler}
use konfirm.TestController.Status.{by_phase}
use konfirm.TestController.Reconcile.{
  retry, is_complete, create_test_pod, run_on, is_running, handle_phase, ensure_phase,
  delete_test_pods, with_pods, found, reconcile,
}

-- The result that belongs to an error, or to none.
abbrev pub result_for : ℕ → Option Failure → Result
result_for delay none = done
result_for delay (some e) = retry_after delay

abbrev pub Matches : ℕ → Outcome → Type 0
Matches delay (res, failure) = res ≡ result_for delay failure

module _ (r : TestReconciler) where
  abbrev Q : Outcome → Type 0
  Q = Matches r.err_requeue_delay

  retry_found :
      (errs : ErrorList) → has_error errs ≡ true → Returns Q (retry r (join_errors errs.errors))
  unfolding join_errors
  retry_found errs h = Returns-pure _ (go errs.errors h)
    where
      go :
          (es : List Failure)
          → has_error (record { errors = es }) ≡ true
          → Q (retry_after r.err_requeue_delay, join_errors es)
      go [] h = ground arith
      go (e ∷ es) h = refl

  retry_some : (e : Failure) → Returns Q (retry r (some e))
  retry_some e = Returns-pure _ refl

  finished : Returns Q (konfirm.Cluster.pure (done, none))
  finished = Returns-pure _ refl

  ruleset outcomes = (returns_rules, retry_found, retry_some, finished)

  by_phase-Returns : (phase : PodPhase) (t : Test) (p : Pod) → Returns Q (by_phase r phase t p)
  unfolding by_phase
  by_phase-Returns PodPhase.pending t p = search outcomes depth 8
  by_phase-Returns PodPhase.running t p = search outcomes depth 8
  by_phase-Returns PodPhase.succeeded t p = search outcomes depth 8
  by_phase-Returns PodPhase.failed t p = search outcomes depth 8
  by_phase-Returns _ t p = search outcomes

  is_complete-Returns : (t : Test) (ps : List Pod) → Returns Q (is_complete r t ps)
  unfolding is_complete
  is_complete-Returns t ps = search outcomes depth 8

  create_test_pod-Returns : (t : Test) → Returns Q (create_test_pod r t)
  unfolding create_test_pod
  create_test_pod-Returns t = search (outcomes, by_phase-Returns) depth 8

  run_on-Returns : (t : Test) (ps : List Pod) → Returns Q (run_on r t ps)
  unfolding run_on
  run_on-Returns t [] = create_test_pod-Returns t
  run_on-Returns t (p ∷ ps) = search (outcomes, by_phase-Returns) depth 8

  is_running-Returns : (t : Test) (ps : List Pod) → Returns Q (is_running r t ps)
  unfolding is_running
  is_running-Returns t ps = search (outcomes, run_on-Returns) depth 8

  ensure_phase-Returns : (t : Test) (ps : List Pod) → Returns Q (ensure_phase r t ps)
  unfolding ensure_phase
  ensure_phase-Returns t ps = search (outcomes, handle_phase-Returns) depth 8
    where
      handle_phase-Returns : (t' : Test) → Returns Q (handle_phase r t' ps)
      handle_phase-Returns t' = search (outcomes, is_complete-Returns, is_running-Returns) depth 8

  delete_test_pods-Returns : (t : Test) (ps : List Pod) → Returns Q (delete_test_pods r t ps)
  unfolding delete_test_pods
  delete_test_pods-Returns t ps = search outcomes depth 8

  with_pods-Returns : (t : Test) (ps : List Pod) → Returns Q (with_pods r t ps)
  unfolding with_pods
  with_pods-Returns t ps = search (outcomes, delete_test_pods-Returns, ensure_phase-Returns) depth 8

  found-Returns : (req : NamespacedName) (t : Test) → Returns Q (found r req t)
  unfolding found
  found-Returns req t = search (outcomes, with_pods-Returns) depth 9

  reconcile-Returns : (req : NamespacedName) → Returns Q (reconcile r req)
  unfolding reconcile
  reconcile-Returns req = search (outcomes, found-Returns) depth 9

  -- On every path `Reconcile` asks to be called again after the delay exactly when it returns an
  -- error, and otherwise returns the empty result.
  pub reconcile-Matches :
      (req : NamespacedName) (h : History) → Matches r.err_requeue_delay (reconcile r req h).0
  reconcile-Matches req h = (reconcile-Returns req).at h
