-- ===== src/TestController/Creates.antt =====
-- How many pods a call of `Reconcile` creates, and when.
use konfirm.Base.{◌≡◌, refl, false, ◌⊎◌, inl, inr, String, none, some, List, [], ◌∷◌, is_some, ap}
use konfirm.Api.{ObjectMeta, Pod, PodPhase, Test, TestPhase, is_final}
use konfirm.Cluster.{
  done, Failure, Outcome, Reply, ok, err, History, NamespacedName, Counter, Kind, M, pure, call,
  ask, emit, on_error, on_reply, create_pod, patch_test, event, touch, test_kind,
}
use konfirm.Cluster.Keeps.{
  Answers, Keeps, Allows, keeps_rules, Keeps-pure, Keeps-bind, Keeps-emit, Keeps-if,
}
use konfirm.Cluster.Leads.{
  Leads, Answered, Leads-Keeps, Leads-bind, Leads-then, Leads-gives, Leads-if,
}
use konfirm.Helpers.{ErrorList, no_errors, has_error, join_errors, add_finalizer}
use konfirm.Helpers.Leads.{Held, Leads-kept, add_finalizer-Held}
use konfirm.TestController.Pods.{TestReconciler, test_finalizer, usable_pods, new_pod}
use konfirm.TestController.Status.{patch_status, by_phase, with_phase}
use konfirm.TestController.Reconcile.{
  is_unset, retry, unless_errors, create_test_pod, run_on, is_running, handle_phase, ensure_phase,
  delete_test_pods, with_pods, found, reconcile,
}
use konfirm.TestController.Writes.{
  AllowsPodWrites, usable_pods-Keeps, select_pod-Keeps, is_complete-Keeps, delete_test_pods-Keeps,
}
use konfirm.TestController.Phases.{by_phase-Keeps}
use konfirm.TestController.Answers.{IsAnswer, got-Answers, patched-Answers, status-Answers}
use konfirm.TestController.Usable.{AllDeleted, none_usable}

-- The pods that a history creates, the latest first.
abbrev pub creations : History → List Pod
creations [] = []
creations (create_pod p ∷ h) = p ∷ creations h
creations (_ ∷ h) = creations h

-- Nothing was created on top of `base`.
abbrev pub CreatesNone : List Pod → History → Type 0
CreatesNone base h = creations h ≡ base

-- One pod was created on top of `base`: for a Test that the server answered with and that has not
-- finished, whose listed pods are all deleted.
abbrev pub CreatesOne : TestReconciler → NamespacedName → List Pod → History → Type 0
CreatesOne r req base h =
    (t : Test) × (g : History) × (pods : List Pod) × (r.client.list_pods g req ≡ ok pods)
    × AllDeleted pods
    × IsAnswer r req t
    × (is_final t.status.phase ≡ false)
    × (creations h ≡ new_pod t ∷ base)

module _ (r : TestReconciler) (req : NamespacedName) (base : List Pod) where
  abbrev Ends : History → Type 0
  Ends h = CreatesNone base h ⊎ CreatesOne r req base h

  -- Of the listed pods.
  abbrev Listed : List Pod → Type 0
  Listed ps = (g : History) × (r.client.list_pods g req ≡ ok ps)

  pods_free : AllowsPodWrites (CreatesNone base)
  pods_free = record { patch = λ a b h k. k; delete = λ p h k. k }

  stays : {A : Type 0} (m : M A) → Keeps (CreatesNone base) m → Leads (CreatesNone base) Ends m
  stays m km = Leads-Keeps m (λ h k. inl k) km

  by_phase-Ends :
      (phase : PodPhase) (t : Test) (p : Pod)
      → is_final t.status.phase ≡ false
      → Keeps Ends (by_phase r phase t p)
  by_phase-Ends = by_phase-Keeps r (λ a b e h k. k) (λ m a b c h k. k) (λ c ns h k. k)

  by_phase-CreatesNone :
      (phase : PodPhase) (t : Test) (p : Pod)
      → is_final t.status.phase ≡ false
      → Keeps (CreatesNone base) (by_phase r phase t p)
  by_phase-CreatesNone = by_phase-Keeps r (λ a b e h k. k) (λ m a b c h k. k) (λ c ns h k. k)

  report_Ends : (m : ObjectMeta) (a b c : String) → Allows Ends (event m a b c)
  report_Ends m a b c h k = k

  unless_errors-Keeps :
      (errs : ErrorList) (m : M Outcome)
      → Keeps (CreatesNone base) m
      → Keeps (CreatesNone base) (unless_errors r errs m)
  unless_errors-Keeps errs m km =
      Keeps-if (has_error errs) (retry r (join_errors errs.errors)) m (λ failing. Keeps-pure _)
        (λ clean. km)

  create_test_pod-Leads :
      (t : Test) (ps : List Pod)
      → Listed ps
      → AllDeleted ps
      → IsAnswer r req t
      → is_final t.status.phase ≡ false
      → Leads (CreatesNone base) Ends (create_test_pod r t)
  unfolding create_test_pod call
  create_test_pod-Leads t ps (g, listed) gone from e =
      Leads-then _ _
        (record {
          at = λ h k. inr (t, g, ps, listed, gone, from, e, ap (λ (l : List Pod). new_pod t ∷ l) k);
        })
        (λ reply. search (keeps_rules, by_phase-Ends, report_Ends) depth 8)

  run_on-Leads :
      (t : Test) (ps kept : List Pod)
      → Listed ps
      → (kept ≡ [] → AllDeleted ps)
      → IsAnswer r req t
      → is_final t.status.phase ≡ false
      → Leads (CreatesNone base) Ends (run_on r t kept)
  unfolding run_on
  run_on-Leads t ps [] listed gone from e = create_test_pod-Leads t ps listed (gone refl) from e
  run_on-Leads t ps (p ∷ others) listed gone from e = stays _ (
      Keeps-bind _ _ (select_pod-Keeps r pods_free p _ others)
        (λ x. unless_errors-Keeps x.0 _ (by_phase-CreatesNone x.1.status.phase t x.1 e)))

  -- Behind the first loop.
  unless-Leads :
      (errs : ErrorList) (kept : List Pod) (t : Test) (ps : List Pod)
      → Listed ps
      → IsAnswer r req t
      → is_final t.status.phase ≡ false
      → Leads
          (λ h. CreatesNone base h × (kept ≡ [] → AllDeleted ps))
          Ends
          (unless_errors r errs (run_on r t kept))
  unless-Leads errs kept t ps listed from e = record {
    at = λ h k.
        (Leads-if (has_error errs) (retry r (join_errors errs.errors)) (run_on r t kept)
            (λ failing. stays _ (Keeps-pure _))
            (λ clean. run_on-Leads t ps kept listed k.1 from e)).at
          h k.0;
  }

  is_running-Leads :
      (t : Test) (ps : List Pod)
      → Listed ps
      → IsAnswer r req t
      → is_final t.status.phase ≡ false
      → Leads (CreatesNone base) Ends (is_running r t ps)
  unfolding is_running
  is_running-Leads t ps listed from e =
      Leads-gives (λ x h. CreatesNone base h × (x.1 ≡ [] → AllDeleted ps))
        (usable_pods r no_errors [] ps) _
        (λ h k. (
          (usable_pods-Keeps r pods_free no_errors [] ps).at h k,
          λ empty. (none_usable r no_errors [] ps h empty).1,
        ))
        (λ x. unless-Leads x.0 x.1 t ps listed from e)

  handle_phase-Leads :
      (t : Test) (ps : List Pod)
      → Listed ps
      → IsAnswer r req t
      → Leads (CreatesNone base) Ends (handle_phase r t ps)
  unfolding handle_phase
  handle_phase-Leads t ps listed from =
      Leads-if _ _ _ (λ final. stays _ (is_complete-Keeps r pods_free t ps))
        (λ going. is_running-Leads t ps listed from going)

  -- Behind a call that is answered with a Test.
  answered-Leads :
      (reply : Reply Test) (f : Failure → M Outcome) (m : Test → M Outcome)
      → ((e : Failure) → Leads (CreatesNone base) Ends (f e))
      → ((t : Test) → IsAnswer r req t → Leads (CreatesNone base) Ends (m t))
      → Leads (λ h. CreatesNone base h × Answers (IsAnswer r req) reply) Ends (on_reply reply f m)
  unfolding on_reply
  answered-Leads (ok t) f m lf lm = record { at = λ h k. (lm t k.1).at h k.0 }
  answered-Leads (err e) f m lf lm = record { at = λ h k. (lf e).at h k.0 }

  ensure_phase-Leads :
      (t : Test) (ps : List Pod)
      → Listed ps
      → IsAnswer r req t
      → Leads (CreatesNone base) Ends (ensure_phase r t ps)
  unfolding ensure_phase patch_status call
  ensure_phase-Leads t ps listed from =
      let pending = with_phase r TestPhase.pending t in
      Leads-if (is_unset t.status.phase) _ _
        (λ unset.
          Leads-gives (λ reply h. CreatesNone base h × Answers (IsAnswer r req) reply)
            (patch_status r t pending) _
            (λ h k.
              let reply = r.client.patch_test_status h t pending in
              (k, status-Answers r req h t pending reply refl))
            (λ reply.
              answered-Leads reply _ _ (λ e. stays _ (Keeps-pure _))
                (λ t' from'. handle_phase-Leads t' ps listed from')))
        (λ set. handle_phase-Leads t ps listed from)

  patch_free : (a b : Test) → Allows (CreatesNone base) (patch_test a b)
  patch_free a b h k = k

  ignored :
      (e : Failure)
      → Keeps
          (CreatesNone base)
          (on_error (r.client.ignore_not_found e) (λ e'. retry r (some e')) (pure (done, none)))
  ignored e = search keeps_rules

  abbrev KeptAnswer : Test → History → Type 0
  KeptAnswer t h = CreatesNone base h × IsAnswer r req t

  brings :
      (reply : Reply Test) (h : History)
      → CreatesNone base h
      → Answers (IsAnswer r req) reply
      → Answered (CreatesNone base) KeptAnswer reply h
  brings (ok t) h k from = (k, from)
  brings (err e) h k from = k

  patch_brings :
      (t new : Test) (h : History)
      → KeptAnswer t h
      → Answered
          (CreatesNone base)
          KeptAnswer
          (Kind.patch (test_kind r.client) t new h).0
          (Kind.patch (test_kind r.client) t new h).1
  unfolding test_kind call
  patch_brings t new h k =
      let reply = r.client.patch_test h t new in
      brings reply (patch_test t new ∷ h) k.0 (patched-Answers r req h t new reply refl)

  with_pods-Leads :
      (t : Test) (ps : List Pod)
      → Listed ps
      → IsAnswer r req t
      → Leads (CreatesNone base) Ends (with_pods r t ps)
  unfolding with_pods
  with_pods-Leads t ps listed from =
      Leads-if (is_some t.meta.deletion_timestamp) (delete_test_pods r t ps) _
        (λ deleted. stays _ (delete_test_pods-Keeps r pods_free patch_free t ps))
        (λ live.
          Leads-gives (Held (CreatesNone base) KeptAnswer)
            (add_finalizer (test_kind r.client) test_finalizer t) _
            (λ h k.
              add_finalizer-Held (test_kind r.client) (CreatesNone base) KeptAnswer test_finalizer t
                (patch_brings t) h (k, from))
            (λ x.
              Leads-kept KeptAnswer x.0 x.1 x.2 _ _ (λ e. stays _ (ignored e))
                (record { at = λ h k. (ensure_phase-Leads x.2 ps listed k.1).at h k.0 })))

  listed-Leads :
      (t : Test) (reply : Reply (List Pod))
      → IsAnswer r req t
      → Leads
          (λ h. CreatesNone base h × ((g : History) × (r.client.list_pods g req ≡ reply)))
          Ends
          (on_reply reply (λ e. retry r (some e)) (λ ps. with_pods r t ps))
  unfolding on_reply
  listed-Leads t (ok ps) from = record { at = λ h k. (with_pods-Leads t ps k.1 from).at h k.0 }
  listed-Leads t (err e) from = record { at = λ h k. (stays _ (Keeps-pure _)).at h k.0 }

  touch_free : (c : Counter) (ns : String) → Keeps (CreatesNone base) (emit (touch c ns))
  touch_free c ns = Keeps-emit (touch c ns) (λ h k. k)

  found-Leads : (t : Test) → IsAnswer r req t → Leads (CreatesNone base) Ends (found r req t)
  unfolding found ask
  found-Leads t from = Leads-bind _ _ (touch_free _ _) λ u. Leads-bind _ _ (touch_free _ _) λ u'.
      Leads-gives
        (λ reply h. CreatesNone base h × ((g : History) × (r.client.list_pods g req ≡ reply)))
        (ask (λ h. r.client.list_pods h req)) _ (λ h k. (k, (h, refl)))
        (λ reply. listed-Leads t reply from)

  reconcile-Leads : Leads (CreatesNone base) Ends (reconcile r req)
  unfolding reconcile ask
  reconcile-Leads =
      Leads-gives (λ reply h. CreatesNone base h × Answers (IsAnswer r req) reply)
        (ask (λ h. r.client.get_test h req)) _
        (λ h k. (k, got-Answers r req h (r.client.get_test h req) refl))
        (λ reply. answered-Leads reply _ _ (λ e. stays _ (ignored e)) found-Leads)

-- A call of `Reconcile` creates at most one pod. Where it creates one, it is made from a Test that
-- the server answered with, to the read or to a patch, and whose phase in that answer is not final;
-- and all pods that the call listed are deleted: as long as one is not, no further one is created.
pub reconcile-creates :
    (r : TestReconciler) (req : NamespacedName) (h : History)
    → CreatesNone (creations h) (reconcile r req h).1
      ⊎ CreatesOne r req (creations h) (reconcile r req h).1
reconcile-creates r req h = (reconcile-Leads r req (creations h)).at h refl
