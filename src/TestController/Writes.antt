-- ===== src/TestController/Writes.antt =====
-- What the Test controller writes, program by program, for an invariant that every write
-- to a pod keeps: the lemmas behind the modules below.
use konfirm.Base.{◌≡◌, refl, none, some, true, false, String, List, [], ◌∷◌}
use konfirm.Api.{Pod, Test, TestPhase, PodPhase, ObjectMeta, is_final}
use konfirm.Cluster.{
  Failure, History, Kind, done, pure, call, on_error, create_pod, patch_pod, delete_pod, patch_test,
  patch_test_status, event, touch, Counter, pod_kind, test_kind, NamespacedName,
}
use konfirm.Cluster.Keeps.{
  Answers, Keeps, Allows, Returns, keeps_rules, Keeps-call, Keeps-pure, Keeps-ask, Keeps-if,
  Keeps-answered, Keeps-bind_returns, Returns-call, Returns-ask,
}
use konfirm.Helpers.Leads.{Kept, Keeps-kept, add_finalizer-Kept}
use konfirm.TestController.Answers.{IsAnswer, got-Answers, patched-Answers, status-Answers}
use konfirm.Helpers.{ErrorList, add_finalizer}
use konfirm.Helpers.Keeps.{
  remove_finalizer-Keeps, add_finalizer-Keeps, clean_up-Keeps, clean_each-Keeps,
}
use konfirm.TestController.Pods.{
  test_finalizer, TestReconciler, usable_pods, select_pod, free_deleted_pods, new_pod,
}
use konfirm.TestController.Status.{patch_status, by_phase, with_phase}
use konfirm.TestController.Reconcile.{
  retry, clean_pods, is_complete, is_unset, create_test_pod, run_on, is_running, handle_phase,
  ensure_phase, delete_test_pods, with_pods, found, reconcile,
}

-- The writes to pods that the controller makes in every phase.
pub record AllowsPodWrites (I : History → Type 0) : Type 0 where
  pub patch : (orig new : Pod) → Allows I (patch_pod orig new)
  pub delete : (p : Pod) → Allows I (delete_pod p)

module _ {I : History → Type 0} (r : TestReconciler) (allows : AllowsPodWrites I) where
  on_patch : (orig new : Pod) → Keeps I (Kind.patch (pod_kind r.client) orig new)
  unfolding pod_kind
  on_patch orig new = Keeps-call (patch_pod orig new) _ (allows.patch orig new)

  on_delete : (p : Pod) → Keeps I (Kind.delete (pod_kind r.client) p)
  unfolding pod_kind
  on_delete p = Keeps-call (delete_pod p) _ (allows.delete p)

  pub usable_pods-Keeps :
      (errs : ErrorList) (seen ps : List Pod) → Keeps I (usable_pods r errs seen ps)
  unfolding usable_pods
  usable_pods-Keeps errs seen [] = search keeps_rules
  usable_pods-Keeps errs seen (p ∷ ps) = search (
    keeps_rules,
    remove_finalizer-Keeps (pod_kind r.client) on_patch,
    λ (e : ErrorList) (s : List Pod). usable_pods-Keeps e s ps,
  )

  pub select_pod-Keeps :
      (p : Pod) (errs : ErrorList) (ps : List Pod) → Keeps I (select_pod r p errs ps)
  unfolding select_pod
  select_pod-Keeps q errs [] = search keeps_rules
  select_pod-Keeps q errs (p ∷ ps) = search (
    keeps_rules,
    clean_up-Keeps (pod_kind r.client) on_patch on_delete,
    λ (q' : Pod) (e : ErrorList). select_pod-Keeps q' e ps,
  )

  pub free_deleted_pods-Keeps :
      (errs : ErrorList) (seen ps : List Pod) → Keeps I (free_deleted_pods r errs seen ps)
  unfolding free_deleted_pods
  free_deleted_pods-Keeps errs seen [] = search keeps_rules
  free_deleted_pods-Keeps errs seen (p ∷ ps) = search (
    keeps_rules,
    remove_finalizer-Keeps (pod_kind r.client) on_patch,
    λ (e : ErrorList) (s : List Pod). free_deleted_pods-Keeps e s ps,
  )

  pub clean_pods-Keeps : (ps : List Pod) → Keeps I (clean_pods r ps)
  unfolding clean_pods
  clean_pods-Keeps ps = clean_each-Keeps (pod_kind r.client) on_patch on_delete _ _ _ _ ps

  pub is_complete-Keeps : (t : Test) (ps : List Pod) → Keeps I (is_complete r t ps)
  unfolding is_complete
  is_complete-Keeps t ps = search (keeps_rules, free_deleted_pods-Keeps, clean_pods-Keeps) depth 9

module _ {I : History → Type 0} (r : TestReconciler) (pods : AllowsPodWrites I)
    (patch : (orig new : Test) → Allows I (patch_test orig new)) where
  pub on_patch_test : (a b : Test) → Keeps I (Kind.patch (test_kind r.client) a b)
  unfolding test_kind
  on_patch_test a b = Keeps-call (patch_test a b) _ (patch a b)

  pub delete_test_pods-Keeps : (t : Test) (ps : List Pod) → Keeps I (delete_test_pods r t ps)
  unfolding delete_test_pods
  delete_test_pods-Keeps t ps =
      search
        (
          keeps_rules,
          clean_pods-Keeps r pods,
          remove_finalizer-Keeps (test_kind r.client) on_patch_test,
        )
        depth 8

-- What an invariant has to allow so that `reconcile` keeps it.
pub record AllowsWrites (r : TestReconciler) (I : History → Type 0) : Type 0 where
  pub pod_writes : AllowsPodWrites I
  pub patch : (orig new : Test) → Allows I (patch_test orig new)
  pub admit :
      (t : Test)
      → is_unset t.status.phase ≡ true
      → Allows I (patch_test_status t (with_phase r TestPhase.pending t))
  pub create :
      (req : NamespacedName) (t : Test)
      → IsAnswer r req t
      → is_final t.status.phase ≡ false
      → Allows I (create_pod (new_pod t))
  pub report :
      (m : ObjectMeta) (type reason message : String) → Allows I (event m type reason message)
  pub count : (c : Counter) (ns : String) → Allows I (touch c ns)
  pub by_phase :
      (phase : PodPhase) (t : Test) (p : Pod)
      → is_final t.status.phase ≡ false
      → Keeps I (by_phase r phase t p)

module _ {I : History → Type 0} (r : TestReconciler) (w : AllowsWrites r I)
    (req : NamespacedName) where
  admit-Keeps :
      (t : Test)
      → is_unset t.status.phase ≡ true
      → Keeps I (patch_status r t (with_phase r TestPhase.pending t))
  unfolding patch_status
  admit-Keeps t e =
      Keeps-call (patch_test_status t (with_phase r TestPhase.pending t)) _ (w.admit t e)

  admit-Answers : (a b : Test) → Returns (Answers (IsAnswer r req)) (patch_status r a b)
  unfolding patch_status
  admit-Answers a b = Returns-call _ _ (λ h. status-Answers r req h a b _ refl)

  create_test_pod-Keeps :
      (t : Test)
      → IsAnswer r req t
      → is_final t.status.phase ≡ false
      → Keeps I (create_test_pod r t)
  unfolding create_test_pod
  create_test_pod-Keeps t from e =
      search (keeps_rules, w.by_phase, w.create req t from e, w.report) depth 8

  run_on-Keeps :
      (t : Test) (ps : List Pod)
      → IsAnswer r req t
      → is_final t.status.phase ≡ false
      → Keeps I (run_on r t ps)
  unfolding run_on
  run_on-Keeps t [] from e = create_test_pod-Keeps t from e
  run_on-Keeps t (p ∷ ps) from e =
      search (keeps_rules, select_pod-Keeps r w.pod_writes, w.by_phase) depth 8

  is_running-Keeps :
      (t : Test) (ps : List Pod)
      → IsAnswer r req t
      → is_final t.status.phase ≡ false
      → Keeps I (is_running r t ps)
  unfolding is_running
  is_running-Keeps t ps from e =
      search
        (
          keeps_rules,
          usable_pods-Keeps r w.pod_writes,
          λ (ps' : List Pod). run_on-Keeps t ps' from e,
        )
        depth 8

  handle_phase-Keeps : (t : Test) (ps : List Pod) → IsAnswer r req t → Keeps I (handle_phase r t ps)
  unfolding handle_phase
  handle_phase-Keeps t ps from =
      Keeps-if _ _ _ (λ final. is_complete-Keeps r w.pod_writes t ps)
        (λ going. is_running-Keeps t ps from going)

  ensure_phase-Keeps : (t : Test) (ps : List Pod) → IsAnswer r req t → Keeps I (ensure_phase r t ps)
  unfolding ensure_phase
  ensure_phase-Keeps t ps from =
      Keeps-if _ _ _
        (λ unset.
          Keeps-bind_returns (Answers (IsAnswer r req)) _ _ (admit-Keeps t unset)
            (admit-Answers t (with_phase r TestPhase.pending t))
            (λ reply q.
              Keeps-answered (IsAnswer r req) reply _ _ q (λ e. Keeps-pure _)
                (λ t' from'. handle_phase-Keeps t' ps from')))
        (λ set. handle_phase-Keeps t ps from)

  hold-Kept :
      (t : Test)
      → IsAnswer r req t
      → Returns (Kept (IsAnswer r req)) (add_finalizer (test_kind r.client) test_finalizer t)
  unfolding test_kind call
  hold-Kept t from =
      add_finalizer-Kept (test_kind r.client) (IsAnswer r req) test_finalizer t from
        (λ new h. patched-Answers r req h t new _ refl)

  ignored-Keeps :
      (e : Failure)
      → Keeps I
          (on_error (r.client.ignore_not_found e) (λ e'. retry r (some e')) (pure (done, none)))
  ignored-Keeps e = search keeps_rules

  with_pods-Keeps : (t : Test) (ps : List Pod) → IsAnswer r req t → Keeps I (with_pods r t ps)
  unfolding with_pods
  with_pods-Keeps t ps from =
      Keeps-if _ _ _ (λ deleted. delete_test_pods-Keeps r w.pod_writes w.patch t ps)
        (λ live.
          Keeps-bind_returns (Kept (IsAnswer r req)) _ _
            (add_finalizer-Keeps (test_kind r.client) (on_patch_test r w.pod_writes w.patch)
              test_finalizer t)
            (hold-Kept t from)
            (λ x q.
              Keeps-kept (IsAnswer r req) x.0 x.1 x.2 _ _ q ignored-Keeps
                (λ from'. ensure_phase-Keeps x.2 ps from')))

  found-Keeps : (t : Test) → IsAnswer r req t → Keeps I (found r req t)
  unfolding found
  found-Keeps t from =
      search (keeps_rules, λ (ps : List Pod). with_pods-Keeps t ps from, w.count) depth 9

  pub reconcile-Keeps : Keeps I (reconcile r req)
  unfolding reconcile
  reconcile-Keeps =
      Keeps-bind_returns (Answers (IsAnswer r req)) _ _ (Keeps-ask _)
        (Returns-ask _ (λ h. got-Answers r req h _ refl))
        (λ reply q. Keeps-answered (IsAnswer r req) reply _ _ q ignored-Keeps found-Keeps)
