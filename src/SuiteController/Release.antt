-- ===== src/SuiteController/Release.antt =====
-- "Determine the current Helm release" in `TestSuiteReconciler.notRunning`.
use konfirm.Base.{
  ◌+◌, String, Bool, true, false, not, ◌||◌, Option, none, some, List, [], ◌∷◌, codes, length,
  index_of, take_text, drop_text, str_eq, ltb, int_lt, if◌then◌else◌,
}
use konfirm.Api.{Secret, TestSuite}
use konfirm.Cluster.{on_some, NamespacedName, M, pure, ◌>>=◌, ask, on_reply, on_error}
use konfirm.HelmWatcher.{HelmReleaseMeta, parse_helm_release_secret}
use konfirm.SuiteController.Defs.{TestSuiteReconciler, Flow, next, stop, carry_on, later}

-- `pos != -1 && pos < len(releaseName)-1`: where the release lies in a named namespace, that and
-- its name. The separator of types.NamespacedName is a slash.
unfoldable pub split_release : String → Option NamespacedName
split_release release = elim (index_of b'/' (codes release)) [
  | none ↦ none
  | some i ↦
      if ltb (i + 1) (length (codes release))
      then some (record { namespace = take_text i release; name = drop_text (i + 1) release })
      else none
]

-- `slices.Contains`
abbrev pub contains : List String → String → Bool
contains [] s = false
contains (t ∷ ts) s = str_eq t s || contains ts s

-- `if currentHelmRelease == nil || currentHelmRelease.Version < parsed.Version`, for a Secret that
-- parses.
abbrev pub newer_release :
    Option HelmReleaseMeta → Option HelmReleaseMeta × Bool → Option HelmReleaseMeta
newer_release none (some parsed, true) = some parsed
newer_release (some old) (some parsed, true) =
    if int_lt old.version parsed.version then some parsed else some old
newer_release old (_, _) = old

-- The loop over the listed Secrets.
unfoldable pub latest_release : Option HelmReleaseMeta → List Secret → Option HelmReleaseMeta
latest_release current [] = current
latest_release current (s ∷ secrets) =
    latest_release (newer_release current (parse_helm_release_secret (some s))) secrets

module _ (r : TestSuiteReconciler) where
  -- Whether the release of a HelmPolicy may be observed from a namespace. Without a policy it is
  -- not.
  unfoldable pub may_observe : String → NamespacedName → M (Flow Bool)
  may_observe namespace release = do
    reply ← ask (λ h. r.client.get_policy h release)
    on_reply reply
        (λ e.
          on_error (r.client.ignore_not_found e) (λ e'. pure (stop (later r))) (pure (next false)))
        (λ policy. pure (next (contains policy.spec.export_to namespace)))

  -- The release to look for, unless it is not exported.
  unfoldable pub observed_release : TestSuite → M (Flow (Option NamespacedName))
  unfolding may_observe carry_on split_release
  observed_release suite =
      on_some (split_release suite.spec.when.helm_release)
        (λ release. do
          allowed ← may_observe suite.meta.namespace release
          carry_on allowed (λ ok. pure (next (if ok then some release else none))))
        (pure (
          next (
            some
              (record { namespace = suite.meta.namespace; name = suite.spec.when.helm_release }))))

  -- "listing matching helm releases"
  unfoldable pub list_latest : Option NamespacedName → M (Flow (Option HelmReleaseMeta))
  unfolding latest_release
  list_latest none = pure (next none)
  list_latest (some release) = do
    reply ← ask (λ h. r.client.list_releases h release)
    on_reply reply (λ e. pure (stop (later r)))
        (λ secrets. pure (next (latest_release none secrets)))

  unfoldable pub current_release : TestSuite → M (Flow (Option HelmReleaseMeta))
  unfolding observed_release carry_on list_latest
  current_release suite =
      if not (str_eq suite.spec.when.helm_release "")
      then (do
        observed ← observed_release suite
        carry_on observed (λ release. list_latest release))
      else pure (next none)
