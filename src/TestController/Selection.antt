-- ===== src/TestController/Selection.antt =====
-- Which pod decides a Test, and which pods `isRunning` deletes.
use konfirm.Base.{◌≡◌, true, false, List, [], ◌∷◌, ◌++◌, ◌⊎◌, All, if◌then◌else◌, arith}
use konfirm.Api.{Pod}
use konfirm.Cluster.{History, delete_pod, pod_kind, on_error, on_reply, ◌>>=◌}
use konfirm.Helpers.{ErrorList, no_errors, clean_up, remove_finalizer}
use konfirm.TestController.Pods.{
  TestReconciler, test_finalizer, is_deleted, has_completed, usable_pods, select_pod, collect_found,
}

-- The first pod that is not deleted, or the given one where there is none.
abbrev pub first_live : Pod → List Pod → Pod
first_live q [] = q
first_live q (p ∷ ps) = if is_deleted p then first_live q ps else p

-- The pods that are not deleted.
abbrev pub live : List Pod → List Pod
live [] = []
live (p ∷ ps) = let rest = live ps in if is_deleted p then rest else p ∷ rest

module _ (r : TestReconciler) where
  select_pod-eq-first_live :
      (q : Pod) (errs : ErrorList) (ps : List Pod) (h : History)
      → (select_pod r q errs ps h).0.1 ≡ first_live q (q ∷ ps)
  unfolding select_pod ◌>>=◌
  select_pod-eq-first_live q errs [] h = ground arith
  select_pod-eq-first_live q errs (p ∷ ps) h =
      let (m, failure, _) = (clean_up (pod_kind r.client) r.client test_finalizer p h).0 in
      let h' = (clean_up (pod_kind r.client) r.client test_finalizer p h).1 in
      ground (
        arith,
        select_pod-eq-first_live p errs ps h,
        select_pod-eq-first_live q (collect_found r.client errs failure) ps h',
      )

-- The pods that a history deletes, the latest first.
abbrev pub deletions : History → List Pod
deletions [] = []
deletions (delete_pod p ∷ h) = p ∷ deletions h
deletions (_ ∷ h) = deletions h

-- `ps` in reverse, before `ds`.
abbrev pub rev_onto : List Pod → List Pod → List Pod
rev_onto [] ds = ds
rev_onto (p ∷ ps) ds = rev_onto ps (p ∷ ds)

abbrev pub rest : List Pod → List Pod
rest [] = []
rest (p ∷ ps) = ps

module _ (r : TestReconciler) where
  deletions-remove_finalizer :
      (p : Pod) (h : History)
      → deletions (remove_finalizer (pod_kind r.client) test_finalizer p h).1 ≡ deletions h
  unfolding remove_finalizer pod_kind ◌>>=◌ on_reply
  deletions-remove_finalizer p h = ground arith

  deletions-clean_up :
      (p : Pod) (h : History)
      → deletions (clean_up (pod_kind r.client) r.client test_finalizer p h).1
        ≡ (if is_deleted p then deletions h else p ∷ deletions h)
  unfolding clean_up ◌>>=◌ on_error pod_kind
  deletions-clean_up p h =
      ground
        (arith, deletions-remove_finalizer p h, deletions-remove_finalizer p (delete_pod p ∷ h))

  select_pod_deletes :
      (q : Pod) (errs : ErrorList) (ps : List Pod) (h : History)
      → deletions (select_pod r q errs ps h).1 ≡ rev_onto (rest (live (q ∷ ps))) (deletions h)
  unfolding select_pod ◌>>=◌
  select_pod_deletes q errs [] h = ground arith
  select_pod_deletes q errs (p ∷ ps) h =
      let (m, failure, _) = (clean_up (pod_kind r.client) r.client test_finalizer p h).0 in
      let h' = (clean_up (pod_kind r.client) r.client test_finalizer p h).1 in
      ground (
        arith,
        deletions-clean_up p h,
        select_pod_deletes p errs ps h,
        select_pod_deletes q (collect_found r.client errs failure) ps h',
      )

  -- Of the pods at hand, `isRunning` settles on the first one that is not deleted, and on the first of
  -- all where every one is; and it sends a deletion for each other one that is not deleted yet, in
  -- order, whatever the server answers to the deletions before.
  pub select_pod_lem :
      (q : Pod) (errs : ErrorList) (ps : List Pod) (h : History)
      → ((select_pod r q errs ps h).0.1 ≡ first_live q (q ∷ ps))
        × (deletions (select_pod r q errs ps h).1 ≡ rev_onto (rest (live (q ∷ ps))) (deletions h))
  select_pod_lem q errs ps h =
      (select_pod-eq-first_live r q errs ps h, select_pod_deletes q errs ps h)

  -- A pod that may decide a Test: one that is not deleted, or one that has completed.
  abbrev pub IsUsable : Pod → Type 0
  IsUsable p = (is_deleted p ≡ false) ⊎ (has_completed p.status.phase ≡ true)

  All-snoc : (p : Pod) (ps : List Pod) → All IsUsable ps → IsUsable p → All IsUsable (ps ++ p ∷ [])
  All-snoc p [] a u = (u, tt)
  All-snoc p (q ∷ ps) a u = (a.0, All-snoc p ps a.1 u)

  usable_pods_kept :
      (errs : ErrorList) (seen ps : List Pod) (h : History)
      → All IsUsable seen
      → All IsUsable (usable_pods r errs seen ps h).0.1
  unfolding usable_pods ◌>>=◌
  usable_pods_kept errs seen [] h a = a
  usable_pods_kept errs seen (p ∷ ps) h a =
      let (m, failure, p') = (remove_finalizer (pod_kind r.client) test_finalizer p h).0 in
      let h' = (remove_finalizer (pod_kind r.client) test_finalizer p h).1 in
      ground (
        arith,
        All-snoc p seen a,
        All-snoc p' seen a,
        usable_pods_kept errs (seen ++ p ∷ []) ps h,
        usable_pods_kept (collect_found r.client errs failure) (seen ++ p' ∷ []) ps h',
        usable_pods_kept (collect_found r.client errs failure) seen ps h',
      )

  IsUsable-first_live :
      (q : Pod) (ps : List Pod) → IsUsable q → All IsUsable ps → IsUsable (first_live q ps)
  IsUsable-first_live q [] u a = u
  IsUsable-first_live q (p ∷ ps) u a = ground (arith, IsUsable-first_live q ps u a.1)

  -- The pod whose phase `isRunning` hands on to the Test is one that is not deleted or that has
  -- completed: a pod that is deleted while it runs decides nothing.
  pub deciding_pod-IsUsable :
      (pods : List Pod) (q : Pod) (others : List Pod) (errs : ErrorList) (h h' : History)
      → (usable_pods r no_errors [] pods h).0.1 ≡ q ∷ others
      → IsUsable (select_pod r q errs others h').0.1
  deciding_pod-IsUsable pods q others errs h h' e =
      let kept : All IsUsable (q ∷ others) = rw e at (usable_pods_kept no_errors [] pods h tt) in
      rw select_pod-eq-first_live (IsUsable-first_live q (q ∷ others) kept.0 kept)
