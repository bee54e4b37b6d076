-- ===== src/TestController/Phases.antt =====
-- The phase diagram of a Test, and that `Reconcile` patches statuses only along it.
use konfirm.Base.{◌≡◌, true, false, String, All, arith}
use konfirm.Api.{Pod, PodPhase, Test, TestPhase, ObjectMeta, is_final, from_pod_phase}
use konfirm.Cluster.{History, Effect, NamespacedName, patch_test_status, event, inc, Counter}
use konfirm.Cluster.Keeps.{Keeps, Allows, keeps_rules, Keeps-call}
use konfirm.TestController.Pods.{TestReconciler}
use konfirm.TestController.Status.{patch_status, by_phase}
use konfirm.TestController.Reconcile.{reconcile, is_unset}
use konfirm.TestController.Writes.{AllowsWrites, reconcile-Keeps}

-- A Test begins Pending, and moves among its phases until it has Passed or Failed.
pub data PhaseEdge : TestPhase → TestPhase → Type 0 where
  admit : PhaseEdge TestPhase.unset TestPhase.pending
  start : {p : TestPhase} → is_final p ≡ false → PhaseEdge p TestPhase.starting
  run : {p : TestPhase} → is_final p ≡ false → PhaseEdge p TestPhase.running
  pass : {p : TestPhase} → is_final p ≡ false → PhaseEdge p TestPhase.passed
  fail : {p : TestPhase} → is_final p ≡ false → PhaseEdge p TestPhase.failed

-- A status patch goes from the phase of the object it was based on along an edge.
abbrev pub FollowsDiagram : Effect → Type 0
FollowsDiagram (patch_test_status orig new) = PhaseEdge orig.status.phase new.status.phase
FollowsDiagram _ = Unit

pub admit_edge : (p : TestPhase) → is_unset p ≡ true → PhaseEdge p TestPhase.pending
admit_edge TestPhase.unset e = admit
admit_edge _ e = absurd (ground arith)

-- The `switch` on the pod's phase, where a status patch along an edge is allowed.
module _ {I : History → Type 0} (r : TestReconciler)
    (step : (a b : Test)
      → PhaseEdge a.status.phase b.status.phase
      → Allows I (patch_test_status a b))
    (report : (m : ObjectMeta) (a b c : String) → Allows I (event m a b c))
    (count : (c : Counter) (ns : String) → Allows I (inc c ns)) where
  patch_status-Keeps :
      (a b : Test) → PhaseEdge a.status.phase b.status.phase → Keeps I (patch_status r a b)
  unfolding patch_status
  patch_status-Keeps a b e = Keeps-call (patch_test_status a b) _ (step a b e)

  pub by_phase-Keeps :
      (phase : PodPhase) (t : Test) (p : Pod)
      → is_final t.status.phase ≡ false
      → Keeps I (by_phase r phase t p)
  unfolding by_phase
  by_phase-Keeps PodPhase.pending t p e =
      search (keeps_rules, patch_status-Keeps, start, report) depth 8
  by_phase-Keeps PodPhase.running t p e = search (keeps_rules, patch_status-Keeps, run) depth 8
  by_phase-Keeps PodPhase.succeeded t p e =
      search (keeps_rules, patch_status-Keeps, pass, report, count) depth 8
  by_phase-Keeps PodPhase.failed t p e =
      search (keeps_rules, patch_status-Keeps, fail, report, count) depth 8
  by_phase-Keeps _ t p e = search keeps_rules

module _ (r : TestReconciler) where
  abbrev I : History → Type 0
  I = All FollowsDiagram

  report_follows : (m : ObjectMeta) (a b c : String) → Allows I (event m a b c)
  report_follows m a b c h k = (tt, k)

  diagram_writes : AllowsWrites r I
  diagram_writes = record {
    pod_writes = record { patch = λ a b h k. (tt, k); delete = λ p h k. (tt, k) };
    patch = λ a b h k. (tt, k);
    admit = λ t e h k. (admit_edge t.status.phase e, k);
    create = λ req t from e h k. (tt, k);
    report = report_follows;
    count = λ c ns h k. (tt, k);
    by_phase = by_phase-Keeps r (λ a b e h k. (e, k)) report_follows (λ c ns h k. (tt, k));
  }

  -- Every status patch that `Reconcile` sends, whatever the server answers, goes along an edge of the
  -- phase diagram: an empty phase becomes Pending, and no patch starts from Passed or Failed.
  pub reconcile-FollowsDiagram :
      (req : NamespacedName) (h : History)
      → All FollowsDiagram h
      → All FollowsDiagram (reconcile r req h).1
  reconcile-FollowsDiagram req h k = (reconcile-Keeps r diagram_writes req).at h k

-- A status patch sets the phase that `FromPodPhase` gives for the pod's.
abbrev pub TakesPodPhase : PodPhase → Effect → Type 0
TakesPodPhase phase (patch_test_status orig new) = new.status.phase ≡ from_pod_phase phase
TakesPodPhase phase _ = Unit

module _ (r : TestReconciler) (phase : PodPhase) where
  takes_event :
      (m : ObjectMeta) (a b c : String) → Allows (All (TakesPodPhase phase)) (event m a b c)
  takes_event m a b c h k = (tt, k)

  takes_inc : (c : Counter) (ns : String) → Allows (All (TakesPodPhase phase)) (inc c ns)
  takes_inc c ns h k = (tt, k)

  takes_status :
      (a b : Test)
      → b.status.phase ≡ from_pod_phase phase
      → Keeps (All (TakesPodPhase phase)) (patch_status r a b)
  unfolding patch_status
  takes_status a b e = Keeps-call (patch_test_status a b) _ (λ h k. (e, k))

module _ (r : TestReconciler) where
  by_phase-Keeps_phase :
      (phase : PodPhase) (t : Test) (p : Pod)
      → Keeps (All (TakesPodPhase phase)) (by_phase r phase t p)
  unfolding by_phase from_pod_phase
  by_phase-Keeps_phase PodPhase.pending t p =
      search (keeps_rules, takes_event r PodPhase.pending, takes_status r PodPhase.pending) depth 8
  by_phase-Keeps_phase PodPhase.running t p =
      search (keeps_rules, takes_status r PodPhase.running) depth 8
  by_phase-Keeps_phase PodPhase.succeeded t p =
      search
        (
          keeps_rules,
          takes_event r PodPhase.succeeded,
          takes_inc r PodPhase.succeeded,
          takes_status r PodPhase.succeeded,
        )
        depth 8
  by_phase-Keeps_phase PodPhase.failed t p =
      search
        (
          keeps_rules,
          takes_event r PodPhase.failed,
          takes_inc r PodPhase.failed,
          takes_status r PodPhase.failed,
        )
        depth 8
  by_phase-Keeps_phase _ t p = search keeps_rules

  -- The `switch` on the pod's phase patches the Test's phase to what `TestPhase.FromPodPhase` gives
  -- for it, if it patches it at all.
  pub by_phase-TakesPodPhase :
      (phase : PodPhase) (t : Test) (p : Pod) (h : History)
      → All (TakesPodPhase phase) h
      → All (TakesPodPhase phase) (by_phase r phase t p h).1
  by_phase-TakesPodPhase phase t p h k = (by_phase-Keeps_phase phase t p).at h k
