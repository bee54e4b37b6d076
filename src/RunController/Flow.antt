-- ===== src/RunController/Flow.antt =====
-- The invariants of the history that `TestRunReconciler.Reconcile` keeps, call by call.
use konfirm.Base.{ℕ, ◌≡◌, refl, String, true, false, Option, some, List, [], ◌∷◌, get_elem?, length}
use konfirm.Api.{ObjectMeta, Test, TestTemplate, TestRun, TestRunPhase, run_is_final}
use konfirm.Cluster.{
  Failure, History, on_error, NamespacedName, create_test, patch_run, patch_run_status, event, M,
  ask, call, pure, done, on_reply, ◌>>=◌, run_kind, Kind,
}
use konfirm.Cluster.Keeps.{
  Answers, Returns, Returns-call, Returns-ask, Keeps-ask, Keeps-answered, Keeps-bind_returns, Keeps,
  Allows, keeps_rules, Keeps-call, Keeps-emit, Keeps-pure, Keeps-bind, Keeps-if, Keeps-on_error,
}
use konfirm.Helpers.Keeps.{remove_finalizer-Keeps, add_finalizer-Keeps}
use konfirm.Helpers.Leads.{Kept, Keeps-kept, add_finalizer-Kept}
use konfirm.Helpers.{add_finalizer}
use konfirm.RunController.Answers.{
  IsRunAnswer, got-RunAnswers, patched-RunAnswers, status-RunAnswers,
}
use konfirm.RunController.Sweep.{TestRunReconciler, run_finalizer}
use konfirm.Sweep.{Swept, swept, failed, out_of_range}
use konfirm.RunController.Results.{Tally, no_results, new_test}
use konfirm.RunController.Reconcile.{
  Exit, after, drops_tests, conclude, run_unset, with_status, run_is_running, run_is_complete,
  delete_run_tests, handle_run, ensure_run_phase, with_tests, reconcile_run, patch_status_of,
  finish, retry_run, retry_found, returns,
}
use konfirm.RunController.Writes.{
  AllowsTestWrites, map_tests-Keeps, tally_from-Keeps, sweep_tests-Keeps, clean_tests-Keeps,
}

-- What `Reconcile` may write, and when.
pub record AllowsRunWrites (r : TestRunReconciler) (I : History → Type 0) : Type 0 where
  pub test_writes : AllowsTestWrites I
  pub patch : (a b : TestRun) → Allows I (patch_run a b)
  pub admit :
      (a : TestRun)
      → run_unset a.status.phase ≡ true
      → Allows I (patch_run_status a (with_status r TestRunPhase.starting "Test Run is starting" a))
  pub create :
      (req : NamespacedName) (run : TestRun) (i : ℕ) (template : TestTemplate)
      → IsRunAnswer r req run
      → run_is_final run.status.phase ≡ false
      → get_elem? run.spec.tests i ≡ some template
      → Allows I (create_test (new_test run i template))
  pub report : (m : ObjectMeta) (a b c : String) → Allows I (event m a b c)
  pub conclude :
      (run : TestRun) (n : ℕ) (t : Tally)
      → run_is_final run.status.phase ≡ false
      → Keeps I (conclude r run n t)

-- The code behind a loop runs where the loop has ended with a value.
pub after-Keeps :
    {A : Type 0} {I : History → Type 0} (r : TestRunReconciler) (x : Swept A) (f : A → M Exit)
    → ((a : A) → x ≡ swept a → Keeps I (f a))
    → Keeps I (after r x f)
unfolding after
after-Keeps r (swept a) f kf = kf a refl
after-Keeps r (failed e) f kf = Keeps-pure _
after-Keeps r out_of_range f kf = Keeps-pure _

-- `return` with a retry where a call has failed.
retry_failed-Keeps :
    {I : History → Type 0} (r : TestRunReconciler) (failure : Option Failure)
    → Keeps I (on_error failure (λ e. retry_run r e) finish)
retry_failed-Keeps r failure = Keeps-on_error failure _ _ (λ e. Keeps-pure _) (Keeps-pure _)

-- While Tests are left, the deletion of a TestRun writes to Tests alone.
pub delete_held-Keeps :
    {I : History → Type 0} (writes : AllowsTestWrites I) (r : TestRunReconciler) (run : TestRun)
    (t : Test) (ts : List Test)
    → Keeps I (delete_run_tests r run (t ∷ ts))
unfolding delete_run_tests
delete_held-Keeps writes r run t ts =
    Keeps-bind _ _ (clean_tests-Keeps writes r (t ∷ ts)) (λ x. retry_failed-Keeps r x.1)

module _ {I : History → Type 0} (r : TestRunReconciler) (writes : AllowsTestWrites I) where
  pub run_is_complete-Keeps :
      (run : TestRun) (tests : List Test) → Keeps I (run_is_complete r run tests)
  unfolding run_is_complete
  run_is_complete-Keeps run tests =
      Keeps-if (drops_tests run.spec.retention_policy run.status.phase) _ finish
        (λ drops. Keeps-bind _ _ (clean_tests-Keeps writes r tests) (λ x. retry_failed-Keeps r x.1))
        (λ keeps. Keeps-pure _)

  pub patch_run-Keeps :
      ((a b : TestRun) → Allows I (patch_run a b))
      → (a b : TestRun) → Keeps I (Kind.patch (run_kind r.client) a b)
  unfolding run_kind
  patch_run-Keeps patch a b = Keeps-call (patch_run a b) _ (patch a b)

  pub delete_run_tests-Keeps :
      ((a b : TestRun) → Allows I (patch_run a b))
      → (run : TestRun) (tests : List Test) → Keeps I (delete_run_tests r run tests)
  unfolding delete_run_tests
  delete_run_tests-Keeps patch run [] =
      search (keeps_rules, remove_finalizer-Keeps (run_kind r.client) (patch_run-Keeps patch))
  delete_run_tests-Keeps patch run (t ∷ ts) = delete_held-Keeps writes r run t ts

module _ {r : TestRunReconciler} {I : History → Type 0} (allows : AllowsRunWrites r I)
    (req : NamespacedName) where
  run_is_running-Keeps :
      (run : TestRun) (tests : List Test)
      → IsRunAnswer r req run
      → run_is_final run.status.phase ≡ false
      → Keeps I (run_is_running r run tests)
  unfolding run_is_running
  run_is_running-Keeps run tests from e =
      Keeps-bind _ _ (map_tests-Keeps allows.test_writes r _ tests) λ mapped.
        after-Keeps r mapped _ λ m ended.
          Keeps-bind _ _
            (tally_from-Keeps allows.test_writes r run
              (λ i t found. allows.create req run i t from e found) allows.report m.items 0
              run.spec.tests m.places no_results refl)
            (λ tally. after-Keeps r tally _ (λ t summed. allows.conclude run (length m.places) t e))

  handle_run-Keeps :
      (run : TestRun) (tests : List Test) → IsRunAnswer r req run → Keeps I (handle_run r run tests)
  unfolding handle_run
  handle_run-Keeps run tests from =
      Keeps-if _ _ _ (λ deleted. delete_run_tests-Keeps r allows.test_writes allows.patch run tests)
        λ live. Keeps-bind _ _ (sweep_tests-Keeps allows.test_writes r tests) λ remaining.
          after-Keeps r remaining _ λ ts ended.
            Keeps-if _ _ _ (λ final. run_is_complete-Keeps r allows.test_writes run ts)
              (λ going. run_is_running-Keeps run ts from going)

  admit-Answers : (a b : TestRun) → Returns (Answers (IsRunAnswer r req)) (patch_status_of r a b)
  unfolding patch_status_of
  admit-Answers a b = Returns-call _ _ (λ h. status-RunAnswers r req h a b _ refl)

  ignored-Keeps : (e : Failure) → Keeps I (retry_found r e)
  ignored-Keeps e = search keeps_rules

  ensure_run_phase-Keeps :
      (run : TestRun) (tests : List Test)
      → IsRunAnswer r req run
      → Keeps I (ensure_run_phase r run tests)
  unfolding ensure_run_phase patch_status_of
  ensure_run_phase-Keeps run tests from =
      Keeps-if _ _ _
        (λ unset.
          Keeps-bind_returns (Answers (IsRunAnswer r req)) _ _
            (Keeps-call _ _ (allows.admit run unset)) (admit-Answers run _)
            λ reply q.
              Keeps-answered (IsRunAnswer r req) reply _ _ q
                (λ e.
                  Keeps-on_error (r.client.ignore_not_found e) _ _ (λ e'. Keeps-pure _)
                    (Keeps-pure _))
                λ t from'.
                  Keeps-bind _ _ (Keeps-emit _ (allows.report _ _ _ _))
                    (λ u. handle_run-Keeps t tests from'))
        (λ set. handle_run-Keeps run tests from)

  hold-Kept :
      (run : TestRun)
      → IsRunAnswer r req run
      → Returns (Kept (IsRunAnswer r req)) (add_finalizer (run_kind r.client) run_finalizer run)
  unfolding run_kind call
  hold-Kept run from =
      add_finalizer-Kept (run_kind r.client) (IsRunAnswer r req) run_finalizer run from
        (λ new h. patched-RunAnswers r req h run new _ refl)

  with_tests-Keeps :
      (run : TestRun) (tests : List Test) → IsRunAnswer r req run → Keeps I (with_tests r run tests)
  unfolding with_tests
  with_tests-Keeps run tests from =
      Keeps-if _ _ _
        (λ going.
          Keeps-bind_returns (Kept (IsRunAnswer r req)) _ _
            (add_finalizer-Keeps (run_kind r.client)
              (patch_run-Keeps r allows.test_writes allows.patch) run_finalizer run)
            (hold-Kept run from)
            (λ x q.
              Keeps-kept (IsRunAnswer r req) x.0 x.1 x.2 _ _ q ignored-Keeps
                (λ from'. ensure_run_phase-Keeps x.2 tests from')))
        (λ ending. ensure_run_phase-Keeps run tests from)

  found-Keeps :
      (run : TestRun)
      → IsRunAnswer r req run
      → Keeps I (
          ask (λ h. r.client.list_tests h req) >>= λ listed.
          on_reply listed (λ e. pure (returns (done, some e))) (λ tests. with_tests r run tests))
  found-Keeps run from =
      search (keeps_rules, λ (tests : List Test). with_tests-Keeps run tests from) depth 9

  pub reconcile_run-Keeps : Keeps I (reconcile_run r req)
  unfolding reconcile_run
  reconcile_run-Keeps =
      Keeps-bind_returns (Answers (IsRunAnswer r req)) _ _ (Keeps-ask _)
        (Returns-ask _ (λ h. got-RunAnswers r req h _ refl))
        (λ reply q. Keeps-answered (IsRunAnswer r req) reply _ _ q ignored-Keeps found-Keeps)
