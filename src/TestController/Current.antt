-- ===== src/TestController/Current.antt =====
-- `Reconcile` of a Test where its reads are current: the stored phase on the way to a status patch.
use konfirm.Base.{◌≡◌, refl, sym, false, String, none, some, List, [], ◌∷◌, is_some, same_text}
use konfirm.Api.{Pod, PodPhase, Test, TestPhase, ObjectMeta, is_final}
use konfirm.Cluster.{
  Failure, Outcome, retry_after, Reply, ok, err, History, NamespacedName, Counter, M, pure, ◌>>=◌,
  call, ask, on_error, done, emit, create_pod, patch_test, patch_test_status, event, inc, touch,
  test_kind,
}
use konfirm.Cluster.Keeps.{
  Keeps, Allows, keeps_rules, Keeps-call, Keeps-pure, Keeps-emit, Keeps-ask,
}
use konfirm.Cluster.Leads.{
  Answered, Leads-answered, Leads, Leads-Keeps, Leads-from, Leads-bind, Leads-then, Leads-gives,
  Leads-on_reply, Leads-if,
}
use konfirm.Helpers.Leads.{Held, Leads-kept, add_finalizer-Held}
use konfirm.Helpers.{ErrorList, has_error, join_errors, add_finalizer}
use konfirm.TestController.Pods.{TestReconciler, test_finalizer, new_pod}
use konfirm.TestController.Status.{patch_status, by_phase, with_phase}
use konfirm.TestController.Reconcile.{
  retry, delete_test_pods, unless_errors, create_test_pod, run_on, is_running, handle_phase,
  ensure_phase, with_pods, found, reconcile,
}
use konfirm.TestController.Writes.{
  AllowsPodWrites, usable_pods-Keeps, select_pod-Keeps, is_complete-Keeps, delete_test_pods-Keeps,
}
use konfirm.TestController.Phases.{PhaseEdge, admit_edge, start, run, pass, fail}
use konfirm.TestController.Stored.{stored, IsCurrent}

-- What an invariant has to allow: every write but a status patch of a Test, and such a patch from the
-- stored phase along an edge.
pub record AllowsCurrent (r : TestReconciler) (before : String → TestPhase) (I : History → Type 0)
    : Type 0 where
  pub pods : AllowsPodWrites I
  pub create : (p : Pod) → Allows I (create_pod p)
  pub patch : (a b : Test) → Allows I (patch_test a b)
  pub report : (m : ObjectMeta) (a b c : String) → Allows I (event m a b c)
  pub touch : (c : Counter) (ns : String) → Allows I (touch c ns)
  pub count : (c : Counter) (ns : String) → Allows I (inc c ns)
  pub step :
      (a b : Test) (h : History)
      → a.status.phase ≡ stored r.client.patch_test_status before a.meta.uid h
      → PhaseEdge a.status.phase b.status.phase
      → I h
      → I (patch_test_status a b ∷ h)

module _ (r : TestReconciler) (before : String → TestPhase) (current : IsCurrent r.client before)
    {I : History → Type 0} (allows : AllowsCurrent r before I) where
  -- `t` has the phase that is stored.
  abbrev Is : Test → History → Type 0
  Is t h = I h × (t.status.phase ≡ stored r.client.patch_test_status before t.meta.uid h)

  forget : (t : Test) (h : History) → Is t h → I h
  forget t h p = p.0

  pods_kept : (t : Test) → AllowsPodWrites (Is t)
  pods_kept t = record {
    patch = λ a b h p. (allows.pods.patch a b h p.0, p.1);
    delete = λ q h p. (allows.pods.delete q h p.0, p.1);
  }

  report_kept : (t : Test) (m : ObjectMeta) (a b c : String) → Allows (Is t) (event m a b c)
  report_kept t m a b c h p = (allows.report m a b c h p.0, p.1)

  pure-Leads : {A : Type 0} (t : Test) (a : A) → Leads (Is t) I (pure a)
  pure-Leads t a = Leads-Keeps _ (forget t) (Keeps-pure a)

  patch_status-Leads :
      (t b : Test) → PhaseEdge t.status.phase b.status.phase → Leads (Is t) I (patch_status r t b)
  unfolding patch_status call
  patch_status-Leads t b e = record { at = λ h p. allows.step t b h p.1 e p.0 }

  -- A status patch, and code that leaves the phase alone.
  settle-Leads :
      {A : Type 0} (t b : Test) (f : Reply Test → M A)
      → PhaseEdge t.status.phase b.status.phase
      → ((reply : Reply Test) → Keeps I (f reply))
      → Leads (Is t) I (patch_status r t b >>= f)
  settle-Leads t b f e kf = Leads-then _ f (patch_status-Leads t b e) kf

  by_phase-Leads :
      (phase : PodPhase) (t : Test) (p : Pod)
      → is_final t.status.phase ≡ false
      → Leads (Is t) I (by_phase r phase t p)
  unfolding by_phase
  by_phase-Leads PodPhase.pending t p e =
      search (keeps_rules, Leads-if, settle-Leads, pure-Leads, start, allows.report) depth 9
  by_phase-Leads PodPhase.running t p e =
      search (keeps_rules, Leads-if, settle-Leads, pure-Leads, run) depth 9
  by_phase-Leads PodPhase.succeeded t p e =
      search (keeps_rules, settle-Leads, pass, allows.report, allows.count) depth 9
  by_phase-Leads PodPhase.failed t p e =
      search (keeps_rules, settle-Leads, fail, allows.report, allows.count) depth 9
  by_phase-Leads PodPhase.unknown t p e = pure-Leads t _
  by_phase-Leads (PodPhase.other _) t p e = pure-Leads t _

  unless_errors-Leads :
      (t : Test) (errs : ErrorList) (m : M Outcome)
      → Leads (Is t) I m
      → Leads (Is t) I (unless_errors r errs m)
  unless_errors-Leads t errs m lm =
      Leads-if (has_error errs) (retry r (join_errors errs.errors)) m
        (λ failing. pure-Leads t (retry_after r.err_requeue_delay, join_errors errs.errors))
        (λ clean. lm)

  create_test_pod-Leads :
      (t : Test) → is_final t.status.phase ≡ false → Leads (Is t) I (create_test_pod r t)
  unfolding create_test_pod
  create_test_pod-Leads t e =
      Leads-bind _ _
        (Keeps-call (create_pod (new_pod t)) _ (λ h p. (allows.create (new_pod t) h p.0, p.1)))
        (λ reply.
          Leads-on_reply reply _ _
            (λ failure. Leads-bind _ _ (Keeps-emit _ (report_kept t _ _ _ _)) (λ u. pure-Leads t _))
            (λ pod. by_phase-Leads pod.status.phase t pod e))

  run_on-Leads :
      (t : Test) (ps : List Pod) → is_final t.status.phase ≡ false → Leads (Is t) I (run_on r t ps)
  unfolding run_on
  run_on-Leads t [] e = create_test_pod-Leads t e
  run_on-Leads t (p ∷ ps) e =
      Leads-bind _ _ (select_pod-Keeps r (pods_kept t) p _ ps)
        (λ x. unless_errors-Leads t x.0 _ (by_phase-Leads x.1.status.phase t x.1 e))

  is_running-Leads :
      (t : Test) (ps : List Pod)
      → is_final t.status.phase ≡ false
      → Leads (Is t) I (is_running r t ps)
  unfolding is_running
  is_running-Leads t ps e =
      Leads-bind _ _ (usable_pods-Keeps r (pods_kept t) _ [] ps)
        (λ x. unless_errors-Leads t x.0 _ (run_on-Leads t x.1 e))

  handle_phase-Leads : (t : Test) (ps : List Pod) → Leads (Is t) I (handle_phase r t ps)
  unfolding handle_phase
  handle_phase-Leads t ps =
      Leads-if _ _ _ (λ final. Leads-from _ (forget t) (is_complete-Keeps r allows.pods t ps))
        (λ going. is_running-Leads t ps going)

  ignored-Leads :
      (e : Failure)
      → Leads I I
          (on_error (r.client.ignore_not_found e) (λ e'. retry r (some e')) (pure (done, none)))
  ignored-Leads e = Leads-Keeps _ (λ h i. i) (search keeps_rules)

  answered :
      (t b : Test) (h : History) (reply : Reply Test)
      → r.client.patch_test_status h t b ≡ reply
      → I (patch_test_status t b ∷ h)
      → Answered I Is reply (patch_test_status t b ∷ h)
  answered t b h (ok t') e i =
      (i, rw (same_text _ _ (sym (current.patch_status h t b t' e)), e) refl)
  answered t b h (err e') e i = i

  ensure_phase-Leads : (t : Test) (ps : List Pod) → Leads (Is t) I (ensure_phase r t ps)
  unfolding ensure_phase patch_status call
  ensure_phase-Leads t ps =
      Leads-if _ _ _
        (λ unset.
          Leads-gives (Answered I Is) _ _
            (λ h p. answered t (with_phase r TestPhase.pending t) h _ refl (
              allows.step t (with_phase r TestPhase.pending t) h p.1
                (admit_edge t.status.phase unset) p.0))
            (λ reply.
              Leads-answered Is reply _ _ (λ e. Leads-Keeps _ (λ h i. i) (Keeps-pure _))
                (λ t'. handle_phase-Leads t' ps)))
        (λ set. handle_phase-Leads t ps)

  patched :
      (t b : Test) (h : History) (reply : Reply Test)
      → r.client.patch_test h t b ≡ reply
      → Is t h
      → Answered I Is reply (patch_test t b ∷ h)
  patched t b h (ok t') e p = (allows.patch t b h p.0, current.patch h t b t' e)
  patched t b h (err e') e p = allows.patch t b h p.0

  add_finalizer-gives :
      (t : Test) (h : History)
      → Is t h
      → Held I Is
          (add_finalizer (test_kind r.client) test_finalizer t h).0
          (add_finalizer (test_kind r.client) test_finalizer t h).1
  unfolding test_kind call
  add_finalizer-gives t =
      add_finalizer-Held (test_kind r.client) I Is test_finalizer t
        (λ b h p. patched t b h _ refl p)

  with_pods-Leads : (t : Test) (ps : List Pod) → Leads (Is t) I (with_pods r t ps)
  unfolding with_pods
  with_pods-Leads t ps =
      Leads-if (is_some t.meta.deletion_timestamp) (delete_test_pods r t ps) _
        (λ deleted.
          Leads-from _ (forget t) (delete_test_pods-Keeps r allows.pods allows.patch t ps))
        (λ live.
          Leads-gives (Held I Is) (add_finalizer (test_kind r.client) test_finalizer t) _
            (add_finalizer-gives t)
            (λ x. Leads-kept Is x.0 x.1 x.2 _ _ ignored-Leads (ensure_phase-Leads x.2 ps)))

  touch_kept : (t : Test) (c : Counter) (ns : String) → Keeps (Is t) (emit (touch c ns))
  touch_kept t c ns = Keeps-emit (touch c ns) (λ h p. (allows.touch c ns h p.0, p.1))

  found-Leads : (req : NamespacedName) (t : Test) → Leads (Is t) I (found r req t)
  unfolding found
  found-Leads req t = Leads-bind _ _ (touch_kept t _ _) λ u. Leads-bind _ _ (touch_kept t _ _) λ u'.
      Leads-bind _ _ (Keeps-ask _)
        λ reply. Leads-on_reply reply _ _ (λ e. pure-Leads t _) (λ ps. with_pods-Leads t ps)

  asked :
      (h : History) (req : NamespacedName) (reply : Reply Test)
      → r.client.get_test h req ≡ reply
      → I h
      → Answered I Is reply h
  asked h req (ok t) e i = (i, current.get h req t e)
  asked h req (err e') e i = i

  pub reconcile-Leads : (req : NamespacedName) (h : History) → I h → I (reconcile r req h).1
  unfolding reconcile ask
  reconcile-Leads req =
      (Leads-gives {P = I} {R = I} (Answered I Is) _ _ (λ h i. asked h req _ refl i)
        (λ reply. Leads-answered Is reply _ _ ignored-Leads (found-Leads req))).at
