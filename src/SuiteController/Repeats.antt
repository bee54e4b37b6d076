-- ===== src/SuiteController/Repeats.antt =====
-- What a Helm trigger leaves behind.
use konfirm.Base.{
  ◌≡◌, refl, ◌∙◌, String, Bool-cases, inl, inr, false, none, some, List, [], ◌∷◌, str_eq, eq_refl,
  lookup, lookup_or_empty, insert,
}
use konfirm.Api.{TestSuite}
use konfirm.Cluster.{History, ok, pure, ◌>>=◌, call, on_reply}
use konfirm.HelmWatcher.{HelmReleaseMeta}
use konfirm.SuiteController.Defs.{
  TestSuiteReconciler, last_helm_release_annotation, next, patch_suite_of,
}
use konfirm.SuiteController.Trigger.{SuiteTrigger, new_version, observed, helm_trigger}

-- `m[k] = v` followed by `m[k]`.
lookup-insert : (k v : String) (m : List (String × String)) → lookup_or_empty k (insert k v m) ≡ v
lookup-insert k v [] = rw (lookup_or_empty, eq_refl k) refl
lookup-insert k v ((j, w) ∷ m) = elim (Bool-cases (str_eq j k)) [
  | inl same ↦ rw (lookup_or_empty, same, eq_refl k) refl
  | inr other ↦ rw (lookup_or_empty, other, other) (lookup-insert k v m)
]

-- A version that is no key of the annotations is new to the suite that its release has triggered.
observed-new_version :
    (suite s : TestSuite) (m : HelmReleaseMeta)
    → lookup m.version_string suite.meta.annotations ≡ none
    → str_eq m.version_string "" ≡ false
    → s.meta.annotations ≡ (observed m.version_string suite).meta.annotations
    → new_version s (some m) ≡ some m.version_string
observed-new_version suite s m missing named same =
    let empty : lookup_or_empty m.version_string suite.meta.annotations ≡ "" =
      rw (lookup_or_empty, missing) refl in
    let found =
      lookup-insert last_helm_release_annotation
        (lookup_or_empty m.version_string suite.meta.annotations) suite.meta.annotations in
    let written = found ∙ empty in rw (same, written, named) refl

-- Where the server accepts the patch that records a release, and the TestSuite has no annotation
-- whose key is the release's version, the trigger goes on to start a run, but what it records does not
-- mark the release as seen: the release is new to every TestSuite with the annotations that the patch
-- sends, whatever their status has become in the meantime.
pub helm_trigger-repeats :
    (r : TestSuiteReconciler) (suite s : TestSuite) (m : HelmReleaseMeta) (h : History)
    → r.client.patch_suite h suite (observed m.version_string suite)
      ≡ ok (observed m.version_string suite)
    → lookup m.version_string suite.meta.annotations ≡ none
    → str_eq m.version_string "" ≡ false
    → s.meta.annotations ≡ (observed m.version_string suite).meta.annotations
    → (t : SuiteTrigger) × ((helm_trigger r suite m.version_string h).0
        ≡ next (observed m.version_string suite, t))
      × (new_version s (some m) ≡ some m.version_string)
unfolding helm_trigger patch_suite_of ◌>>=◌ call pure on_reply
helm_trigger-repeats r suite s m h accepted missing named same = (
  record { reason = "Helm"; message = "Test suite was triggered by a Helm release"; base = suite },
  rw accepted refl,
  observed-new_version suite s m missing named same,
)
