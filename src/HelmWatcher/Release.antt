-- ===== src/HelmWatcher/Release.antt =====
-- `HelmReleaseMeta`, `ParseHelmReleaseSecret` and `IsHelmRelease`.
use konfirm.Base.{
  String, Bool, true, false, not, Option, none, some, [], ◌∷◌, ℤ, pos, str_eq, codes, concat, atoi,
  lookup, if◌then◌else◌,
}
use konfirm.Api.{Secret}

abbrev pub helm_secret_type : String
helm_secret_type = "helm.sh/release.v1"

-- The namespace and the name are those of the embedded NamespacedName.
pub record HelmReleaseMeta : Type 0 where
  pub namespace : String
  pub name : String
  pub version : ℤ
  pub version_string : String
  pub status : String

-- `HelmReleaseMeta.LabelValue`, of a pointer that may be nil.
unfoldable pub label_value : Option HelmReleaseMeta → String
label_value none = ""
label_value (some r) =
    if not (str_eq r.namespace "") then concat (r.name ∷ "." ∷ r.namespace ∷ []) else r.name

-- `release.Field, ok = secret.Labels[key]`, and the code behind `if !ok { return }`.
abbrev with_label :
    Secret
    → String
    → (String → HelmReleaseMeta)
    → (HelmReleaseMeta → Option HelmReleaseMeta × Bool)
    → Option HelmReleaseMeta × Bool
with_label secret key set rest = elim (lookup key secret.meta.labels) [
  | none ↦ (some (set ""), false)
  | some v ↦ rest (set v)
]

abbrev blank_release : String → HelmReleaseMeta
blank_release namespace = record {
  namespace = namespace;
  name = "";
  version = pos 0;
  version_string = "";
  status = "";
}

-- `ParseHelmReleaseSecret`. Where it answers false, the release is what was read up to then.
unfoldable pub parse_helm_release_secret : Option Secret → Option HelmReleaseMeta × Bool
parse_helm_release_secret none = (none, false)
parse_helm_release_secret (some secret) =
    if not (str_eq secret.type helm_secret_type)
    then (none, false)
    else with_label secret "name" (λ v. record (blank_release secret.meta.namespace) { name = v })
        (λ a.
          with_label secret "version" (λ v. record a { version_string = v })
            (λ b.
              with_label secret "status" (λ v. record b { status = v })
                (λ c. elim (atoi (codes c.version_string)) [
                  | none ↦ (some c, false)
                  | some n ↦ (some (record c { version = n }), true)
                ])))

-- `isHelmRelease`, of an object that may not be a Secret; the four event methods of the predicate
-- apply it to their object.
unfoldable pub is_helm_release : Option Secret → Bool
is_helm_release none = false
is_helm_release (some secret) = str_eq secret.type helm_secret_type
