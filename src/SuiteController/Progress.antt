-- ===== src/SuiteController/Progress.antt =====
-- The phases of a TestSuite, and the TestRuns that its controller creates.
use konfirm.Base.{◌≡◌, refl, sym, subst, ℕ, String, Bool, true, some, [], ◌∷◌, concat, lookup, All}
use konfirm.Api.{suite_is_running, ObjectMeta, OwnerReference, TestRun, TestRunPhase, TestSuite}
use konfirm.Cluster.{
  History, Effect, SuiteMetric, NamespacedName, create_run, patch_suite_status, inc_suite,
  set_suite, event,
}
use konfirm.Cluster.Keeps.{Answers, keeps_rules, Keeps, Allows, Keeps-call}
use konfirm.Helpers.{compute_test_run_hash}
use konfirm.SuiteController.Defs.{TestSuiteReconciler, suite_finalizer, patch_status_of}
use konfirm.SuiteController.Answers.{HasAnswered}
use konfirm.SuiteController.Running.{new_run, run_ended, report_run, count_run, end_run}
use konfirm.SuiteController.Reconcile.{reconcile_suite}
use konfirm.SuiteController.Edges.{AllowsSuiteWrites, SuiteEdge, stay, conclude_edge}
use konfirm.SuiteController.Unschedule.{remove_annotation-FlowsTo, remove_schedule-Keeps}
use konfirm.SuiteController.Flow.{reconcile_suite-Keeps}

-- A status patch goes from the phase of the object it was based on along an edge.
abbrev pub FollowsSuiteDiagram : Effect → Type 0
FollowsSuiteDiagram (patch_suite_status orig new) = SuiteEdge orig.status.phase new.status.phase
FollowsSuiteDiagram _ = Unit

-- The status is a subresource: a patch of a TestSuite itself answers with the phase it began with.
abbrev pub PatchKeepsPhase : TestSuiteReconciler → Type 0
PatchKeepsPhase r =
    (h : History) (a b : TestSuite)
    → Answers (λ c. c.status.phase ≡ a.status.phase) (r.client.patch_suite h a b)

-- A TestRun made from the template of a TestSuite: the suite is its one controlling owner, the
-- controller's finalizer holds it, and an annotation has the template's hash.
pub record IsSuiteRun (r : TestSuiteReconciler) (suite : TestSuite) (t : TestRun) : Type 0 where
  pub placed : t.meta.namespace ≡ suite.meta.namespace
  pub named : t.meta.generate_name ≡ concat (suite.meta.name ∷ "-" ∷ [])
  pub specified : t.spec ≡ suite.spec.template
  pub fresh : t.status.phase ≡ TestRunPhase.unset
  pub held : t.meta.finalizers ≡ suite_finalizer ∷ []
  pub hashed :
      lookup "konfirm.goraft.tech/template" t.meta.annotations
      ≡ some (compute_test_run_hash r.client suite.spec.template)
  pub one_owner :
      (o : OwnerReference) × (t.meta.owner_references ≡ o ∷ [])
      × (o.uid ≡ suite.meta.uid)
      × (o.name ≡ suite.meta.name)
      × (o.controller ≡ true)

-- A TestRun is created for a TestSuite that is Running and names no run, as the server answered.
abbrev pub CreatesSuiteRun : TestSuiteReconciler → Effect → Type 0
CreatesSuiteRun r (create_run t) =
    (req : NamespacedName) × (suite : TestSuite) × HasAnswered r req suite
    × (suite_is_running suite.status.phase ≡ true)
    × (suite.status.current_test_run ≡ "")
    × IsSuiteRun r suite t
CreatesSuiteRun r _ = Unit

pub new_run-IsSuiteRun :
    (r : TestSuiteReconciler) (suite : TestSuite) → IsSuiteRun r suite (new_run r suite)
unfolding new_run
new_run-IsSuiteRun r suite = record {
  placed = refl;
  named = refl;
  specified = refl;
  fresh = refl;
  held = refl;
  hashed = refl;
  one_owner = (_, refl, refl, refl, refl);
}

-- What the end of a run keeps where everything that it writes is allowed.
pub end_run-Keeps :
    {I : History → Type 0} (r : TestSuiteReconciler) (suite : TestSuite) (name : String)
    (passed : Bool)
    → Allows I (patch_suite_status suite (run_ended r suite name))
    → ((m : SuiteMetric) (a b : String) → Allows I (inc_suite m a b))
    → ((m : SuiteMetric) (a b : String) (n : ℕ) → Allows I (set_suite m a b n))
    → ((m : ObjectMeta) (a b c : String) → Allows I (event m a b c))
    → Keeps I (end_run r suite name passed)
unfolding end_run count_run report_run patch_status_of
end_run-Keeps r suite name passed patch inc set report =
    search (keeps_rules, patch, inc, set, report) depth 12

module _ (r : TestSuiteReconciler) where
  diagram_writes : PatchKeepsPhase r → AllowsSuiteWrites r (All FollowsSuiteDiagram)
  unfolding patch_status_of
  diagram_writes keeps_phase = record {
    patch_run = λ a b h k. (tt, k);
    delete_run = λ t h k. (tt, k);
    patch = λ a b h k. (tt, k);
    delete = λ t h k. (tt, k);
    touch = λ m ns n h k. (tt, k);
    triggered = λ m a h k. (tt, k);
    started = λ m a h k. (tt, k);
    step = λ a b e h k. (e, k);
    unschedule = λ suite.
        remove_schedule-Keeps r (λ c. c.status.phase ≡ suite.status.phase) suite
          (λ a b h k. (tt, k))
          (remove_annotation-FlowsTo r _ suite refl (λ h b. keeps_phase h suite b))
          (λ s same.
            Keeps-call _ _ λ h k. (subst (SuiteEdge suite.status.phase) (sym same) stay, k));
    create = λ req suite from e f h k. (tt, k);
    end = λ suite name passed e.
        end_run-Keeps r suite name passed (λ h k. (conclude_edge suite.status.phase e, k))
          (λ m a b h k. (tt, k)) (λ m a b n h k. (tt, k)) (λ m a b c h k. (tt, k));
  }

  -- Where a patch of a TestSuite itself leaves its phase, every status patch that the TestSuite
  -- controller sends goes along an edge of the phase diagram, whatever the server answers to the
  -- others: to Pending from an empty phase alone, to Ready from Pending or Running alone, to Running
  -- from any phase, and otherwise to the phase that it is from.
  pub reconcile_suite-FollowsSuiteDiagram :
      (req : NamespacedName) (h : History)
      → PatchKeepsPhase r
      → All FollowsSuiteDiagram h
      → All FollowsSuiteDiagram (reconcile_suite r req h).1
  reconcile_suite-FollowsSuiteDiagram req h keeps_phase k =
      (reconcile_suite-Keeps (diagram_writes keeps_phase) req).at h k
