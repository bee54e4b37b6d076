-- ===== src/HelmWatcher/Handle.antt =====
-- `EnqueueForHelmTrigger`.
use konfirm.Base.{String, Bool, true, false, Option, some, List, [], ◌∷◌, str_eq, if◌then◌else◌}
use konfirm.Api.{Secret, TestSuite, HelmPolicy}
use konfirm.Cluster.{
  Reply, NamespacedName, History, enqueue, M, pure, ◌>>=◌, ◌>>◌, emit, ask, on_reply,
}
use konfirm.HelmWatcher.Release.{HelmReleaseMeta, label_value, parse_helm_release_secret}

-- The client, as far as the watcher uses it. The lists are of the TestSuites whose Helm trigger
-- label has a value: those of a namespace, and those of all namespaces but one.
pub record EnqueueForHelmTrigger : Type 0 where
  pub list_suites : History → String → String → Reply (List TestSuite)
  pub list_other_suites : History → String → String → Reply (List TestSuite)
  pub get_policy : History → NamespacedName → Reply HelmPolicy

-- `req.Namespace = ts.Namespace; req.Name = ts.Name`
abbrev pub request_for : TestSuite → NamespacedName
request_for suite = record { namespace = suite.meta.namespace; name = suite.meta.name }

-- The loops over the items of a list. In other namespaces a request goes through a channel, which
-- keeps the order.
unfoldable pub enqueue_suites : List TestSuite → M (Unit {0})
enqueue_suites [] = pure tt
enqueue_suites (suite ∷ suites) = do emit (enqueue (request_for suite)); enqueue_suites suites

-- `len(policy.Spec.ExportTo) == 1 && policy.Spec.ExportTo[0] == "*"`
abbrev pub exports_everywhere : List String → Bool
exports_everywhere (ns ∷ []) = str_eq ns "*"
exports_everywhere _ = false

module _ (w : EnqueueForHelmTrigger) where
  -- The loop over `policy.Spec.ExportTo`: it stops at a list that fails.
  unfoldable pub enqueue_exported : String → List String → M (Unit {0})
  unfolding enqueue_suites
  enqueue_exported label [] = pure tt
  enqueue_exported label (namespace ∷ namespaces) =
      let rest = enqueue_exported label namespaces in
      (do
        reply ← ask (λ h. w.list_suites h namespace label)
        on_reply reply (λ e. pure tt) (λ suites. do enqueue_suites suites; rest))

  -- "Enqueue subscribed test suites in other namespaces"
  unfoldable pub enqueue_elsewhere : HelmReleaseMeta → HelmPolicy → M (Unit {0})
  unfolding enqueue_suites enqueue_exported
  enqueue_elsewhere release policy =
      if exports_everywhere policy.spec.export_to
      then (do
        reply ← ask (λ h. w.list_other_suites h release.namespace (label_value (some release)))
        on_reply reply (λ e. pure tt) (λ suites. enqueue_suites suites))
      else enqueue_exported (label_value (some release)) policy.spec.export_to

  -- `handle` behind the parsing of the secret. An error of `Get`, be it that the policy does not
  -- exist or another, ends it.
  unfoldable pub handle_release : HelmReleaseMeta → M (Unit {0})
  unfolding enqueue_suites enqueue_elsewhere
  handle_release release = do
    reply ← ask (λ h. w.list_suites h release.namespace (label_value (some release)))
    on_reply reply (λ e. pure tt)
        (λ suites. do
          enqueue_suites suites
          policy ←
              ask (λ h.
                w.get_policy h (record { namespace = release.namespace; name = release.name }))
          on_reply policy (λ e. pure tt) (λ p. enqueue_elsewhere release p))

  -- `if r, ok := ParseHelmReleaseSecret(obj.(*v1.Secret)); ok`
  unfoldable pub on_parsed : Option HelmReleaseMeta × Bool → M (Unit {0})
  unfolding handle_release
  on_parsed (some release, true) = handle_release release
  on_parsed (_, _) = pure tt

  -- `handle`. The object is a Secret, by the predicate `IsHelmRelease`.
  unfoldable pub handle : Secret → M (Unit {0})
  unfolding on_parsed parse_helm_release_secret
  handle secret = on_parsed (parse_helm_release_secret (some secret))

-- The events of the informer, with the object that the handler's methods are given.
pub data HelmEvent : Type 0 where
  created updated deleted generic : Secret → HelmEvent

-- The methods `Create`, `Update`, `Delete` and `Generic`.
unfoldable pub on_event : EnqueueForHelmTrigger → HelmEvent → M (Unit {0})
unfolding handle
on_event w (created secret) = handle w secret
on_event w _ = pure tt
