-- ===== src/SuiteController/Unschedule.antt =====
-- `Reconcile` of a TestSuite without a schedule: what its two patches keep.
use konfirm.Base.{is_some, lookup, remove}
use konfirm.Api.{TestSuite}
use konfirm.Cluster.{History, ok, err, Reply, patch_suite, patch_suite_status, on_reply, M}
use konfirm.Cluster.Keeps.{
  Answers, Keeps, Allows, Keeps-call, Keeps-pure, Keeps-bind, Keeps-bind_returns, Returns,
  Returns-pure, Returns-call, Returns-bind_returns, Returns-if,
}
use konfirm.SuiteController.Defs.{
  TestSuiteReconciler, Flow, next, stop, carry_on, or_later, patch_suite_of, patch_status_of,
  with_annotations, schedule_annotation,
}
use konfirm.SuiteController.Prepare.{remove_annotation, remove_schedule, unscheduled}
use konfirm.SuiteController.Writes.{flow_rules, or_later-Keeps}

-- The value for the code behind, where there is one, satisfies `Q`.
abbrev pub FlowsTo : {A : Type 0} → (A → Type 0) → Flow A → Type 0
FlowsTo Q (next a) = Q a
FlowsTo Q (stop e) = Unit

flows_anywhere : (x : Flow TestSuite) → FlowsTo (λ s. Unit {0}) x
flows_anywhere (next s) = tt
flows_anywhere (stop e) = tt

module _ (r : TestSuiteReconciler) where
  pub or_later-FlowsTo :
      {A : Type 0} (Q : A → Type 0) (x : Reply A) → Answers Q x → Returns (FlowsTo Q) (or_later r x)
  unfolding or_later on_reply
  or_later-FlowsTo Q (ok a) q = Returns-pure _ q
  or_later-FlowsTo Q (err e) q = Returns-pure _ tt

  pub remove_annotation-FlowsTo :
      (Q : TestSuite → Type 0) (suite : TestSuite)
      → Q suite
      → ((h : History) (b : TestSuite) → Answers Q (r.client.patch_suite h suite b))
      → Returns (FlowsTo Q) (remove_annotation r suite)
  unfolding remove_annotation patch_suite_of
  remove_annotation-FlowsTo Q suite here answered =
      Returns-if (is_some (lookup schedule_annotation suite.meta.annotations)) _ _
        (λ annotated.
          Returns-bind_returns (Answers Q)
            (patch_suite_of r suite
              (with_annotations (remove schedule_annotation suite.meta.annotations) suite))
            (λ reply. or_later r reply) (Returns-call _ _ (λ h. answered h _))
            (λ reply q. or_later-FlowsTo Q reply q))
        (λ free. Returns-pure (next suite) here)

module _ {I : History → Type 0} where
  carry_on-Keeps_returned :
      {A B : Type 0} (Q : A → Type 0) (x : Flow A) (f : A → M (Flow B))
      → FlowsTo Q x
      → ((a : A) → Q a → Keeps I (f a))
      → Keeps I (carry_on x f)
  unfolding carry_on
  carry_on-Keeps_returned Q (next a) f q k = k a q
  carry_on-Keeps_returned Q (stop e) f q k = Keeps-pure _

  remove_annotation-Keeps :
      (r : TestSuiteReconciler) (suite : TestSuite)
      → ((a b : TestSuite) → Allows I (patch_suite a b))
      → Keeps I (remove_annotation r suite)
  unfolding remove_annotation patch_suite_of
  remove_annotation-Keeps r suite patches = search (flow_rules, patches)

  pub remove_schedule-Keeps :
      (r : TestSuiteReconciler) (Q : TestSuite → Type 0) (suite : TestSuite)
      → ((a b : TestSuite) → Allows I (patch_suite a b))
      → Returns (FlowsTo Q) (remove_annotation r suite)
      → ((s : TestSuite) → Q s → Keeps I (patch_status_of r suite (unscheduled r s)))
      → Keeps I (remove_schedule r suite)
  unfolding remove_schedule
  remove_schedule-Keeps r Q suite patches flows patched =
      Keeps-bind_returns (FlowsTo Q) _ _ (remove_annotation-Keeps r suite patches) flows λ x q.
        carry_on-Keeps_returned Q x _ q
          λ s p. Keeps-bind _ _ (patched s p) (λ reply. or_later-Keeps r reply)

  -- Where any status patch is allowed.
  pub remove_schedule-Keeps_freely :
      (r : TestSuiteReconciler) (suite : TestSuite)
      → ((a b : TestSuite) → Allows I (patch_suite a b))
      → ((a b : TestSuite) → Allows I (patch_suite_status a b))
      → Keeps I (remove_schedule r suite)
  unfolding patch_status_of
  remove_schedule-Keeps_freely r suite patches statuses =
      remove_schedule-Keeps r (λ s. Unit {0}) suite patches
        (record { at = λ h. flows_anywhere (remove_annotation r suite h).0 })
        (λ s p. Keeps-call _ _ (statuses suite (unscheduled r s)))
