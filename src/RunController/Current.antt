-- ===== src/RunController/Current.antt =====
-- `Reconcile` of a TestRun where its reads are current: the stored phase on the way to a status
-- patch.
use konfirm.Base.{
  ◌≡◌, refl, sym, ℕ, false, not, ◌&&◌, String, some, List, ◌∷◌, is_some, same_text, Bool-cases, inl,
  inr, length, ◌==◌,
}
use konfirm.Api.{ObjectMeta, Test, TestRun, TestRunPhase, run_is_final}
use konfirm.Cluster.{
  done, Failure, Reply, ok, err, History, NamespacedName, M, pure, ◌>>=◌, call, ask, on_reply,
  create_test, patch_run, patch_run_status, event, run_kind,
}
use konfirm.Cluster.Keeps.{Keeps, Allows, keeps_rules, Keeps-pure, Keeps-emit, Keeps-ask}
use konfirm.Cluster.Leads.{
  Leads, Leads-Keeps, Leads-from, Leads-bind, Leads-then, Leads-gives, Leads-on_reply, Leads-if,
  Answered, Leads-answered,
}
use konfirm.Helpers.{add_finalizer}
use konfirm.Helpers.Leads.{Held, Leads-kept, add_finalizer-Held}
use konfirm.Sweep.{Swept, swept, failed, out_of_range}
use konfirm.RunController.Sweep.{TestRunReconciler, run_finalizer}
use konfirm.RunController.Results.{Tally, no_results, new_test}
use konfirm.RunController.Reconcile.{
  Exit, returns, after, run_unset, with_status, patch_status_of, in_progress, verdict, complete,
  conclude, run_is_running, delete_run_tests, handle_run, ensure_run_phase, with_tests,
  reconcile_run, retry_found,
}
use konfirm.RunController.Writes.{
  AllowsTestWrites, map_tests-Keeps, tally_from-Keeps, sweep_tests-Keeps,
}
use konfirm.RunController.Flow.{run_is_complete-Keeps, delete_run_tests-Keeps}
use konfirm.RunController.Concluded.{emit_choice}
use konfirm.RunController.Progress.{RunEdge, proceed, pass, fail, run_admit_edge}
use konfirm.RunController.Stored.{stored, IsCurrent}

-- What an invariant has to allow: every write but a status patch of a TestRun, and such a patch from
-- the stored phase along an edge.
pub record AllowsCurrentRun (r : TestRunReconciler) (before : String → TestRunPhase)
    (I : History → Type 0) : Type 0 where
  pub tests : AllowsTestWrites I
  pub create : (t : Test) → Allows I (create_test t)
  pub patch : (a b : TestRun) → Allows I (patch_run a b)
  pub report : (m : ObjectMeta) (a b c : String) → Allows I (event m a b c)
  pub step :
      (a b : TestRun) (h : History)
      → a.status.phase ≡ stored r.client.patch_run_status before a.meta.uid h
      → RunEdge a.status.phase b.status.phase
      → I h
      → I (patch_run_status a b ∷ h)

verdict_edge :
    (r : TestRunReconciler) (p : TestRunPhase) (run : TestRun) (t : Tally)
    → run_is_final p ≡ false
    → RunEdge p (verdict r run t).status.phase
verdict_edge r p run t e = elim (Bool-cases (t.failures == 0)) [
  | inl none_failed ↦ rw none_failed (pass e)
  | inr some_failed ↦ rw some_failed (fail e)
]

module _ (r : TestRunReconciler) (before : String → TestRunPhase)
    (current : IsCurrent r.client before) {I : History → Type 0}
    (allows : AllowsCurrentRun r before I) where
  -- `run` has the phase that is stored.
  abbrev Is : TestRun → History → Type 0
  Is run h = I h × (run.status.phase ≡ stored r.client.patch_run_status before run.meta.uid h)

  forget : (run : TestRun) (h : History) → Is run h → I h
  forget run h p = p.0

  tests_kept : (run : TestRun) → AllowsTestWrites (Is run)
  tests_kept run = record {
    patch = λ a b h p. (allows.tests.patch a b h p.0, p.1);
    delete = λ t h p. (allows.tests.delete t h p.0, p.1);
  }

  report_kept : (run : TestRun) (m : ObjectMeta) (a b c : String) → Allows (Is run) (event m a b c)
  report_kept run m a b c h p = (allows.report m a b c h p.0, p.1)

  pure-Leads : {A : Type 0} (run : TestRun) (a : A) → Leads (Is run) I (pure a)
  pure-Leads run a = Leads-Keeps _ (forget run) (Keeps-pure a)

  patch_status-Leads :
      (run b : TestRun)
      → RunEdge run.status.phase b.status.phase
      → Leads (Is run) I (patch_status_of r run b)
  unfolding patch_status_of call
  patch_status-Leads run b e = record { at = λ h p. allows.step run b h p.1 e p.0 }

  settle-Leads :
      {A : Type 0} (run b : TestRun) (f : Reply TestRun → M A)
      → RunEdge run.status.phase b.status.phase
      → ((reply : Reply TestRun) → Keeps I (f reply))
      → Leads (Is run) I (patch_status_of r run b >>= f)
  settle-Leads run b f e kf = Leads-then _ f (patch_status-Leads run b e) kf

  in_progress-Leads :
      (run b : TestRun) (n : ℕ) (t : Tally)
      → run_is_final run.status.phase ≡ false
      → Leads (Is run) I (in_progress r run b n t)
  unfolding in_progress
  in_progress-Leads run b n t e = search (keeps_rules, settle-Leads, proceed) depth 9

  complete-Leads :
      (run b : TestRun) (t : Tally)
      → run_is_final run.status.phase ≡ false
      → Leads (Is run) I (complete r run b t)
  unfolding complete
  complete-Leads run b t e =
      Leads-bind _ _
        (Keeps-emit _
          (emit_choice (t.failures == 0) _ _ (report_kept run _ _ _ _) (report_kept run _ _ _ _)))
        (λ u.
          settle-Leads run (verdict r b t) _ (verdict_edge r run.status.phase b t e)
            (λ reply. search keeps_rules depth 8))

  conclude-Leads :
      (run : TestRun) (n : ℕ) (t : Tally)
      → run_is_final run.status.phase ≡ false
      → Leads (Is run) I (conclude r run n t)
  unfolding conclude
  conclude-Leads run n t e =
      let results = record run { status = record run.status { results = t.results } } in
      Leads-if (not (n == t.completions)) _ _ (λ open_tests. in_progress-Leads run results n t e)
        (λ none_open. complete-Leads run results t e)

  after-Leads :
      {A : Type 0} (run : TestRun) (x : Swept A) (f : A → M Exit)
      → ((a : A) → Leads (Is run) I (f a))
      → Leads (Is run) I (after r x f)
  unfolding after
  after-Leads run (swept a) f lf = lf a
  after-Leads run (failed e) f lf = pure-Leads run _
  after-Leads run out_of_range f lf = pure-Leads run _

  run_is_running-Leads :
      (run : TestRun) (tests : List Test)
      → run_is_final run.status.phase ≡ false
      → Leads (Is run) I (run_is_running r run tests)
  unfolding run_is_running
  run_is_running-Leads run tests e =
      Leads-bind _ _ (map_tests-Keeps (tests_kept run) r _ tests) λ mapped.
        after-Leads run mapped _ λ m.
          Leads-bind _ _
            (tally_from-Keeps (tests_kept run) r run
              (λ i t found h p. (allows.create (new_test run i t) h p.0, p.1)) (report_kept run)
              m.items 0 run.spec.tests m.places no_results refl)
            (λ tally. after-Leads run tally _ (λ t. conclude-Leads run (length m.places) t e))

  handle_run-Leads : (run : TestRun) (tests : List Test) → Leads (Is run) I (handle_run r run tests)
  unfolding handle_run
  handle_run-Leads run tests =
      Leads-if (is_some run.meta.deletion_timestamp) (delete_run_tests r run tests) _
        (λ deleted.
          Leads-from _ (forget run) (delete_run_tests-Keeps r allows.tests allows.patch run tests))
        λ live. Leads-bind _ _ (sweep_tests-Keeps (tests_kept run) r tests) λ remaining.
          after-Leads run remaining _ λ ts.
            Leads-if (run_is_final run.status.phase) _ _
              (λ final. Leads-from _ (forget run) (run_is_complete-Keeps r allows.tests run ts))
              (λ going. run_is_running-Leads run ts going)

  failing : (m : M Exit) → Keeps I m → Leads I I m
  failing m km = Leads-Keeps m (λ h i. i) km

  answered :
      (a b : TestRun) (h : History) (reply : Reply TestRun)
      → r.client.patch_run_status h a b ≡ reply
      → I (patch_run_status a b ∷ h)
      → Answered I Is reply (patch_run_status a b ∷ h)
  answered a b h (ok t) e i = (i, rw (same_text _ _ (sym (current.patch_status h a b t e)), e) refl)
  answered a b h (err e') e i = i

  ensure_run_phase-Leads :
      (run : TestRun) (tests : List Test) → Leads (Is run) I (ensure_run_phase r run tests)
  unfolding ensure_run_phase patch_status_of call
  ensure_run_phase-Leads run tests =
      let started = with_status r TestRunPhase.starting "Test Run is starting" run in
      Leads-if (run_unset run.status.phase) _ _
        (λ unset.
          Leads-gives (Answered I Is) _ _
            (λ h p.
              answered run started h _ refl
                (allows.step run started h p.1 (run_admit_edge run.status.phase unset) p.0))
            (λ reply.
              Leads-answered Is reply _ _ (λ e. failing _ (search keeps_rules))
                (λ t.
                  Leads-bind _ _ (Keeps-emit _ (report_kept t _ _ _ _))
                    (λ u. handle_run-Leads t tests))))
        (λ set. handle_run-Leads run tests)

  patched :
      (a b : TestRun) (h : History) (reply : Reply TestRun)
      → r.client.patch_run h a b ≡ reply
      → Is a h
      → Answered I Is reply (patch_run a b ∷ h)
  patched a b h (ok t) e p = (allows.patch a b h p.0, current.patch h a b t e)
  patched a b h (err e') e p = allows.patch a b h p.0

  add_finalizer-gives :
      (run : TestRun) (h : History)
      → Is run h
      → Held I Is
          (add_finalizer (run_kind r.client) run_finalizer run h).0
          (add_finalizer (run_kind r.client) run_finalizer run h).1
  unfolding run_kind call
  add_finalizer-gives run =
      add_finalizer-Held (run_kind r.client) I Is run_finalizer run
        (λ b h p. patched run b h _ refl p)

  retry_found-Leads : (e : Failure) → Leads I I (retry_found r e)
  retry_found-Leads e = failing _ (search keeps_rules)

  with_tests-Leads : (run : TestRun) (tests : List Test) → Leads (Is run) I (with_tests r run tests)
  unfolding with_tests
  with_tests-Leads run tests =
      Leads-if (not (run_is_final run.status.phase) && not (is_some run.meta.deletion_timestamp)) _
        (ensure_run_phase r run tests)
        (λ holds.
          Leads-gives (Held I Is) (add_finalizer (run_kind r.client) run_finalizer run) _
            (add_finalizer-gives run)
            (λ x.
              Leads-kept Is x.0 x.1 x.2 _ _ retry_found-Leads (ensure_run_phase-Leads x.2 tests)))
        (λ free. ensure_run_phase-Leads run tests)

  asked :
      (h : History) (req : NamespacedName) (reply : Reply TestRun)
      → r.client.get_run h req ≡ reply
      → I h
      → Answered I Is reply h
  asked h req (ok t) e i = (i, current.get h req t e)
  asked h req (err e') e i = i

  listed-Leads :
      (req : NamespacedName) (run : TestRun)
      → Leads (Is run) I (
          ask (λ h. r.client.list_tests h req) >>= λ listed.
          on_reply listed (λ e. pure (returns (done, some e))) (λ tests. with_tests r run tests))
  listed-Leads req run = Leads-bind _ _ (Keeps-ask _) (λ listed.
      Leads-on_reply listed _ _ (λ e. pure-Leads run _) (λ tests. with_tests-Leads run tests))

  pub reconcile_run-Leads : (req : NamespacedName) (h : History) → I h → I (reconcile_run r req h).1
  unfolding reconcile_run ask
  reconcile_run-Leads req =
      (Leads-gives {P = I} {R = I} (Answered I Is) (ask (λ h. r.client.get_run h req)) _
        (λ h i. asked h req _ refl i)
        (λ reply. Leads-answered Is reply _ _ retry_found-Leads (listed-Leads req))).at
