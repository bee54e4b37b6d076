-- ===== src/Scenarios/TestCases.antt =====
-- The Test controller on concrete Tests and pods.
use konfirm.Base.{◌≡◌, ◌⊎◌, length, refl, none, some, [], ◌∷◌, All}
use konfirm.Helpers.CleanUp.{each, failures}
use konfirm.Api.{Pod, Test, PodPhase, TestPhase}
use konfirm.Cluster.{done, pod_kind, test_kind, call, ◌>>=◌, on_error, on_reply, emit, ask}
use konfirm.Helpers.{no_errors, add_finalizer, remove_finalizer, clean_up}
use konfirm.TestController.{
  TestReconciler, new_pod, test_finalizer, usable_pods, select_pod, reconcile, patch_status,
  by_phase,
}
use konfirm.TestController.Phases.{FollowsDiagram, reconcile-FollowsDiagram}
use konfirm.TestController.Outcomes.{Matches, reconcile-Matches}
use konfirm.TestController.Creates.{creations, CreatesNone, CreatesOne, reconcile-creates}
use konfirm.TestController.Counted.{AllEarned, reconcile-AllEarned}
use konfirm.TestController.Selection.{deletions, IsUsable, select_pod_lem, deciding_pod-IsUsable}
use konfirm.TestController.Deletion.{StartsNothing, touched, reconcile_deleted}
use konfirm.TestController.Finished.{reconcile_final}
use konfirm.Scenarios.Sample.{
  accepting, named, held_by, deleted_at, smoke_test, pod_in, request, tester, refused, empty_run,
}

-- A Test that is running, and its pod that has succeeded.
abbrev finishing : TestReconciler
finishing =
    tester (smoke_test TestPhase.running (held_by test_finalizer (named "smoke")))
      (pod_in PodPhase.succeeded (held_by test_finalizer (named "smoke-1")) ∷ [])

-- A new Test with no pod.
abbrev pub starting : TestReconciler
starting = tester (smoke_test TestPhase.unset (named "smoke")) []

passing_pod_ends_well : (reconcile finishing request []).0 ≡ (done, none)
unfolding reconcile usable_pods select_pod ◌>>=◌ ask emit on_reply on_error remove_finalizer
    add_finalizer patch_status call test_kind by_phase
passing_pod_ends_well = refl

reconcile-FollowsDiagram_example : All FollowsDiagram (reconcile finishing request []).1
reconcile-FollowsDiagram_example = reconcile-FollowsDiagram finishing request [] tt

reconcile-creates_example :
    CreatesNone [] (reconcile starting request []).1
    ⊎ CreatesOne starting request [] (reconcile starting request []).1
reconcile-creates_example = reconcile-creates starting request []

starting_creates : length (creations (reconcile starting request []).1) ≡ 1
unfolding reconcile usable_pods ◌>>=◌ ask emit on_reply on_error add_finalizer patch_status call
    test_kind by_phase new_pod
starting_creates = refl

reconcile-AllEarned_example : AllEarned finishing.client (reconcile finishing request []).1
reconcile-AllEarned_example = reconcile-AllEarned finishing request [] tt

reconcile-Matches_example : Matches 60 (reconcile finishing request []).0
reconcile-Matches_example = reconcile-Matches finishing request []

abbrev gone : Pod
gone = pod_in PodPhase.failed (deleted_at 9 (held_by test_finalizer (named "smoke-0")))

abbrev first : Pod
first = pod_in PodPhase.running (held_by test_finalizer (named "smoke-1"))

abbrev second : Pod
second = pod_in PodPhase.pending (held_by test_finalizer (named "smoke-2"))

select_pod_lem_example :
    ((select_pod finishing gone no_errors (first ∷ second ∷ []) []).0.1 ≡ first)
    × (deletions (select_pod finishing gone no_errors (first ∷ second ∷ []) []).1 ≡ second ∷ [])
select_pod_lem_example = select_pod_lem finishing gone no_errors (first ∷ second ∷ []) []

gone_kept :
    (usable_pods finishing no_errors [] (gone ∷ second ∷ []) []).0.1
    ≡ record gone { meta = record gone.meta { finalizers = [] } } ∷ second ∷ []
unfolding usable_pods ◌>>=◌ remove_finalizer pod_kind call on_reply
gone_kept = refl

deciding_pod-IsUsable_example :
    IsUsable finishing
      (select_pod finishing
        (record gone { meta = record gone.meta { finalizers = [] } })
        no_errors
        (second ∷ [])
        []).0.1
deciding_pod-IsUsable_example =
    deciding_pod-IsUsable finishing (gone ∷ second ∷ [])
      (record gone { meta = record gone.meta { finalizers = [] } }) (second ∷ []) no_errors [] []
      gone_kept

-- A deleted Test with a pod; the server refuses every deletion.
abbrev deleting : TestReconciler
deleting = record {
  client =
      record (accepting
        (smoke_test TestPhase.running (deleted_at 9 (held_by test_finalizer (named "smoke"))))
        (first ∷ []) empty_run []) { delete_pod = λ h p. some refused };
  err_requeue_delay = 60;
}

reconcile_deleted_example : All StartsNothing (reconcile deleting request []).1
reconcile_deleted_example = reconcile_deleted deleting request [] refl refl tt

abbrev leaving : Test
leaving = smoke_test TestPhase.running (deleted_at 9 (held_by test_finalizer (named "smoke")))

deleting_fails :
    failures
      (each
        (pod_kind deleting.client)
        deleting.client
        test_finalizer
        (first ∷ [])
        (touched leaving [])).0
    ≡ refused ∷ []
unfolding each ◌>>=◌ clean_up on_error pod_kind call
deleting_fails = refl

abbrev finished : TestReconciler
finished = tester (smoke_test TestPhase.passed (named "smoke")) (first ∷ [])

reconcile_final_example : All StartsNothing (reconcile finished request []).1
reconcile_final_example = reconcile_final finished (λ h a b. refl) request [] refl refl tt
