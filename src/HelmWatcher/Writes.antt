-- ===== src/HelmWatcher/Writes.antt =====
-- What the watcher writes.
use konfirm.Base.{String, Bool, Option, List, [], ◌∷◌, true, false, some, none}
use konfirm.Api.{Secret, TestSuite, HelmPolicy}
use konfirm.Cluster.{History, NamespacedName, enqueue}
use konfirm.Cluster.Keeps.{
  Keeps, Allows, keeps_rules, Keeps-bind, Keeps-emit, Keeps-ask, Keeps-on_reply, Keeps-pure,
}
use konfirm.HelmWatcher.Release.{HelmReleaseMeta, parse_helm_release_secret}
use konfirm.HelmWatcher.Handle.{
  EnqueueForHelmTrigger, request_for, enqueue_suites, enqueue_exported, enqueue_elsewhere,
  handle_release, on_parsed, handle, HelmEvent, created, updated, deleted, generic, on_event,
}

module _ {I : History → Type 0} (w : EnqueueForHelmTrigger)
    (queue : (req : NamespacedName) → Allows I (enqueue req)) where
  enqueue_suites-Keeps : (suites : List TestSuite) → Keeps I (enqueue_suites suites)
  unfolding enqueue_suites
  enqueue_suites-Keeps [] = search keeps_rules
  enqueue_suites-Keeps (s ∷ suites) =
      Keeps-bind _ _ (Keeps-emit _ (queue (request_for s))) (λ u. enqueue_suites-Keeps suites)

  enqueue_exported-Keeps :
      (label : String) (namespaces : List String) → Keeps I (enqueue_exported w label namespaces)
  unfolding enqueue_exported
  enqueue_exported-Keeps label [] = search keeps_rules
  enqueue_exported-Keeps label (ns ∷ namespaces) = Keeps-bind _ _ (Keeps-ask _) λ reply.
      Keeps-on_reply reply _ _ (λ e. Keeps-pure _)
        (λ suites.
          Keeps-bind _ _ (enqueue_suites-Keeps suites)
            (λ u. enqueue_exported-Keeps label namespaces))

  enqueue_elsewhere-Keeps :
      (release : HelmReleaseMeta) (policy : HelmPolicy)
      → Keeps I (enqueue_elsewhere w release policy)
  unfolding enqueue_elsewhere
  enqueue_elsewhere-Keeps release policy =
      search (keeps_rules, enqueue_suites-Keeps, enqueue_exported-Keeps) depth 8

  handle_release-Keeps : (release : HelmReleaseMeta) → Keeps I (handle_release w release)
  unfolding handle_release
  handle_release-Keeps release =
      search (keeps_rules, enqueue_suites-Keeps, enqueue_elsewhere-Keeps) depth 9

  on_parsed-Keeps : (parsed : Option HelmReleaseMeta × Bool) → Keeps I (on_parsed w parsed)
  unfolding on_parsed
  on_parsed-Keeps (none, b) = Keeps-pure _
  on_parsed-Keeps (some release, false) = Keeps-pure _
  on_parsed-Keeps (some release, true) = handle_release-Keeps release

  handle-Keeps : (secret : Secret) → Keeps I (handle w secret)
  unfolding handle
  handle-Keeps secret = on_parsed-Keeps (parse_helm_release_secret (some secret))

  pub on_event-Keeps : (e : HelmEvent) → Keeps I (on_event w e)
  unfolding on_event
  on_event-Keeps (created secret) = handle-Keeps secret
  on_event-Keeps (updated secret) = search keeps_rules
  on_event-Keeps (deleted secret) = search keeps_rules
  on_event-Keeps (generic secret) = search keeps_rules
