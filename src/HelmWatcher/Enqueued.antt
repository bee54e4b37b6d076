-- ===== src/HelmWatcher/Enqueued.antt =====
-- The queue after a Helm release that is exported everywhere.
use konfirm.Base.{◌≡◌, refl, true, some, List, [], ◌∷◌, ◌++◌}
use konfirm.Api.{Secret, TestSuite, HelmPolicy}
use konfirm.Cluster.{ok, History, enqueue, pure, ◌>>=◌, ask, on_reply, emit}
use konfirm.HelmWatcher.Release.{HelmReleaseMeta, label_value, parse_helm_release_secret}
use konfirm.HelmWatcher.Handle.{
  EnqueueForHelmTrigger, request_for, exports_everywhere, enqueue_suites, enqueue_elsewhere,
  handle_release, on_parsed, handle,
}

-- A request for each of the TestSuites, in their order.
abbrev pub enqueued : List TestSuite → History → History
enqueued [] h = h
enqueued (s ∷ suites) h =
    enqueued suites (enqueue (record { namespace = s.meta.namespace; name = s.meta.name }) ∷ h)

enqueue_suites-eq :
    (suites : List TestSuite) (h : History) → enqueue_suites suites h ≡ (tt, enqueued suites h)
unfolding enqueue_suites ◌>>=◌ emit pure
enqueue_suites-eq [] h = refl
enqueue_suites-eq (s ∷ suites) h = enqueue_suites-eq suites (enqueue (request_for s) ∷ h)

enqueued-append :
    (own others : List TestSuite) (h : History)
    → enqueued others (enqueued own h) ≡ enqueued (own ++ others) h
enqueued-append [] others h = refl
enqueued-append (s ∷ own) others h = enqueued-append own others (enqueue (request_for s) ∷ h)

-- Where every call succeeds, a release whose policy exports it everywhere enqueues each TestSuite
-- that is listed, those of its namespace first and the others behind them, in the lists' order.
pub handle-everywhere :
    (w : EnqueueForHelmTrigger) (secret : Secret) {release : HelmReleaseMeta} (h : History)
    {own others : List TestSuite} {policy : HelmPolicy}
    → parse_helm_release_secret (some secret) ≡ (some release, true)
    → w.list_suites h release.namespace (label_value (some release)) ≡ ok own
    → w.get_policy (enqueued own h) (record { namespace = release.namespace; name = release.name })
      ≡ ok policy
    → exports_everywhere policy.spec.export_to ≡ true
    → w.list_other_suites (enqueued own h) release.namespace (label_value (some release))
      ≡ ok others
    → (handle w secret h).1 ≡ enqueued (own ++ others) h
unfolding handle on_parsed handle_release enqueue_elsewhere ◌>>=◌ ask on_reply
handle-everywhere w secret {release} h {own} {others} {policy} parsed listed found all other =
    let h' = enqueued own h in
    rw (parsed, listed, enqueue_suites-eq own h, found, all, other, enqueue_suites-eq others h')
      (enqueued-append own others h)
