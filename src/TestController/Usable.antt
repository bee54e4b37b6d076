-- ===== src/TestController/Usable.antt =====
-- What the first loop of `isRunning` leaves out.
use konfirm.Base.{
  ◌≡◌, Bool, true, false, List, [], ◌∷◌, ◌++◌, All, Bool-cases, inl, inr, arith, if◌then◌else◌,
}
use konfirm.Api.{Pod}
use konfirm.Cluster.{History, pure, ◌>>=◌, pod_kind}
use konfirm.Helpers.{ErrorList, remove_finalizer}
use konfirm.TestController.Pods.{
  TestReconciler, test_finalizer, is_deleted, has_completed, collect_found, usable_pods,
}

-- Each of the pods has a deletion timestamp.
abbrev pub AllDeleted : List Pod → Type 0
AllDeleted = All (λ p. is_deleted p ≡ true)

not_empty : (ps : List Pod) (p : Pod) → ps ++ p ∷ [] ≡ [] → ⊥
not_empty [] p e = ground (arith, e)
not_empty (q ∷ ps) p e = ground (arith, e)

kept_empty : (b : Bool) (ps : List Pod) (p : Pod) → (if b then ps ++ p ∷ [] else ps) ≡ [] → ps ≡ []
kept_empty true ps p e = absurd (not_empty ps p e)
kept_empty false ps p e = e

-- The first loop of `isRunning` keeps every pod that is not deleted.
pub none_usable :
    (r : TestReconciler) (errs : ErrorList) (seen ps : List Pod) (h : History)
    → (usable_pods r errs seen ps h).0.1 ≡ []
    → (seen ≡ []) × AllDeleted ps
unfolding usable_pods ◌>>=◌ pure
none_usable r errs seen [] h e = (e, tt)
none_usable r errs seen (p ∷ ps) h e = elim (Bool-cases (is_deleted p)) [
  | inr live ↦ absurd (not_empty seen p (none_usable r errs (seen ++ p ∷ []) ps h (rw live at e)).0)
  | inl gone ↦
      let (m, failure, p') = (remove_finalizer (pod_kind r.client) test_finalizer p h).0 in
      let h' = (remove_finalizer (pod_kind r.client) test_finalizer p h).1 in
      let errs' = collect_found r.client errs failure in
      let e' = rw gone at e in
      let added = if has_completed p'.status.phase then seen ++ p' ∷ [] else seen in
      let (empty, others) = none_usable r errs' added ps h' e' in
      (kept_empty (has_completed p'.status.phase) seen p' empty, (gone, others))
]
