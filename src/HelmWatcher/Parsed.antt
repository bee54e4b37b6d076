-- ===== src/HelmWatcher/Parsed.antt =====
-- Which Secrets `ParseHelmReleaseSecret` takes for Helm releases.
use konfirm.Base.{
  ◌≡◌, ◌↔◌, true, some, atoi, codes, lookup, arith, str_eq, Bool-cases, Option-cases, inl, inr,
}
use konfirm.Api.{Secret}
use konfirm.HelmWatcher.Release.{HelmReleaseMeta, helm_secret_type, parse_helm_release_secret}

-- The Secret of a Helm release: its type, and its three labels, of which the version is an integer.
pub record Describes (s : Secret) (r : HelmReleaseMeta) : Type 0 where
  pub type : str_eq s.type helm_secret_type ≡ true
  pub namespace : s.meta.namespace ≡ r.namespace
  pub name : lookup "name" s.meta.labels ≡ some r.name
  pub version : lookup "version" s.meta.labels ≡ some r.version_string
  pub status : lookup "status" s.meta.labels ≡ some r.status
  pub number : atoi (codes r.version_string) ≡ some r.version

Describes-parsed :
    (s : Secret) (r : HelmReleaseMeta)
    → Describes s r
    → parse_helm_release_secret (some s) ≡ (some r, true)
unfolding parse_helm_release_secret
Describes-parsed s r d = ground (arith, d.type, d.namespace, d.name, d.version, d.status, d.number)

parsed-Describes :
    (s : Secret) (r : HelmReleaseMeta)
    → parse_helm_release_secret (some s) ≡ (some r, true)
    → Describes s r
unfolding parse_helm_release_secret
parsed-Describes s r e = elim (Bool-cases (str_eq s.type helm_secret_type)) [
  | inr other ↦ absurd (ground arith)
  | inl helm ↦ elim (Option-cases (lookup "name" s.meta.labels)) [
    | inl missing ↦ absurd (ground arith)
    | inr (n, name) ↦ elim (Option-cases (lookup "version" s.meta.labels)) [
      | inl missing ↦ absurd (ground arith)
      | inr (v, version) ↦ elim (Option-cases (lookup "status" s.meta.labels)) [
        | inl missing ↦ absurd (ground arith)
        | inr (st, status) ↦ elim (Option-cases (atoi (codes v))) [
          | inl bad ↦ absurd (ground arith)
          | inr (k, number) ↦ record {
            type = helm;
            namespace = ground arith;
            name = ground arith;
            version = ground arith;
            status = ground arith;
            number = ground arith;
          }
        ]
      ]
    ]
  ]
]

-- `ParseHelmReleaseSecret` answers true, with a release, exactly for a Secret of Helm's type with a
-- name, a status and an integer as its version among its labels, and the release has these and the
-- Secret's namespace.
pub parse_helm_release_secret-Describes :
    (s : Secret) (r : HelmReleaseMeta)
    → (parse_helm_release_secret (some s) ≡ (some r, true)) ↔ Describes s r
parse_helm_release_secret-Describes s r = (parsed-Describes s r, Describes-parsed s r)
