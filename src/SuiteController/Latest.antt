-- ===== src/SuiteController/Latest.antt =====
-- The release that `notRunning` looks at.
use konfirm.Base.{
  ◌≡◌, refl, ℕ, suc, Bool, Bool-cases, inl, inr, ◌⊎◌, ◌∙◌, subst, sym, true, false, ℤ, pos, negsuc,
  int_lt, Option, none, some, List, [], ◌∷◌, get_elem?, All, arith,
}
use konfirm.Api.{Secret}
use konfirm.HelmWatcher.{HelmReleaseMeta, parse_helm_release_secret}
use konfirm.SuiteController.Release.{newer_release, latest_release}

-- There is a release, and its version is no less.
abbrev pub AtLeast : Option HelmReleaseMeta → ℤ → Type 0
AtLeast none v = ⊥
AtLeast (some m) v = int_lt m.version v ≡ false

abbrev pub Bounds : Option HelmReleaseMeta → Option HelmReleaseMeta × Bool → Type 0
Bounds o (some m, true) = AtLeast o m.version
Bounds o (_, _) = Unit

-- Where there is a release, one of the Secrets gives it.
abbrev pub ComesFrom : List Secret → Option HelmReleaseMeta → Type 0
ComesFrom secrets none = Unit
ComesFrom secrets (some m) =
    (i : ℕ) × (s : Secret) × (get_elem? secrets i ≡ some s)
    × (parse_helm_release_secret (some s) ≡ (some m, true))

int_le_trans : (a b c : ℤ) → int_lt b a ≡ false → int_lt c b ≡ false → int_lt c a ≡ false
int_le_trans (pos a) (pos b) (pos c) e f = ground arith
int_le_trans (pos a) (pos b) (negsuc c) e f = absurd (ground arith)
int_le_trans (pos a) (negsuc b) c e f = absurd (ground arith)
int_le_trans (negsuc a) (pos b) (pos c) e f = refl
int_le_trans (negsuc a) (pos b) (negsuc c) e f = absurd (ground arith)
int_le_trans (negsuc a) (negsuc b) (pos c) e f = refl
int_le_trans (negsuc a) (negsuc b) (negsuc c) e f = ground arith

int_lt_asym : (a b : ℤ) → int_lt a b ≡ true → int_lt b a ≡ false
int_lt_asym (pos a) (pos b) e = ground arith
int_lt_asym (pos a) (negsuc b) e = absurd (ground arith)
int_lt_asym (negsuc a) (pos b) e = refl
int_lt_asym (negsuc a) (negsuc b) e = ground arith

int_lt_irrefl : (a : ℤ) → int_lt a a ≡ false
int_lt_irrefl (pos a) = ground arith
int_lt_irrefl (negsuc a) = ground arith

newer_release-AtLeast :
    (o : Option HelmReleaseMeta) (x : Option HelmReleaseMeta × Bool) (v : ℤ)
    → AtLeast o v
    → AtLeast (newer_release o x) v
newer_release-AtLeast none x v k = absurd k
newer_release-AtLeast (some old) (none, b) v k = k
newer_release-AtLeast (some old) (some m, false) v k = k
newer_release-AtLeast (some old) (some m, true) v k =
    elim (Bool-cases (int_lt old.version m.version)) [
      | inl newer ↦
          rw newer
            (int_le_trans v old.version m.version k (int_lt_asym old.version m.version newer))
      | inr older ↦ rw older k
    ]

newer_release-Bounds :
    (o : Option HelmReleaseMeta) (x : Option HelmReleaseMeta × Bool) → Bounds (newer_release o x) x
newer_release-Bounds none (some m, true) = int_lt_irrefl m.version
newer_release-Bounds (some old) (some m, true) = elim (Bool-cases (int_lt old.version m.version)) [
  | inl newer ↦ rw newer (int_lt_irrefl m.version)
  | inr older ↦ rw older older
]
newer_release-Bounds o (some m, false) = tt
newer_release-Bounds o (none, b) = tt

latest_release-AtLeast :
    (secrets : List Secret) (o : Option HelmReleaseMeta) (v : ℤ)
    → AtLeast o v
    → AtLeast (latest_release o secrets) v
unfolding latest_release
latest_release-AtLeast [] o v k = k
latest_release-AtLeast (s ∷ secrets) o v k =
    latest_release-AtLeast secrets _ v (newer_release-AtLeast o _ v k)

Bounds-latest :
    (o : Option HelmReleaseMeta) (secrets : List Secret) (x : Option HelmReleaseMeta × Bool)
    → Bounds o x
    → Bounds (latest_release o secrets) x
Bounds-latest o secrets (some m, true) k = latest_release-AtLeast secrets o m.version k
Bounds-latest o secrets (some m, false) k = tt
Bounds-latest o secrets (none, b) k = tt

latest_release-Bounds :
    (secrets : List Secret) (o : Option HelmReleaseMeta)
    → All (λ s. Bounds (latest_release o secrets) (parse_helm_release_secret (some s))) secrets
unfolding latest_release
latest_release-Bounds [] o = tt
latest_release-Bounds (s ∷ secrets) o =
    let x = parse_helm_release_secret (some s) in
    (
      Bounds-latest (newer_release o x) secrets x (newer_release-Bounds o x),
      latest_release-Bounds secrets (newer_release o x),
    )

newer_release-cases :
    (o : Option HelmReleaseMeta) (x : Option HelmReleaseMeta × Bool)
    → (newer_release o x ≡ o)
      ⊎ (m : HelmReleaseMeta) × (x ≡ (some m, true)) × (newer_release o x ≡ some m)
newer_release-cases none (some m, true) = inr (m, refl, refl)
newer_release-cases (some old) (some m, true) = elim (Bool-cases (int_lt old.version m.version)) [
  | inl newer ↦ rw newer (inr (m, refl, refl))
  | inr older ↦ rw older (inl refl)
]
newer_release-cases none (some m, false) = inl refl
newer_release-cases (some old) (some m, false) = inl refl
newer_release-cases none (none, b) = inl refl
newer_release-cases (some old) (none, b) = inl refl

-- The release at hand is the first one, or one of the Secrets gives it.
abbrev KeptOrFrom : Option HelmReleaseMeta → List Secret → Option HelmReleaseMeta → Type 0
KeptOrFrom o secrets current =
    (current ≡ o)
    ⊎ (m : HelmReleaseMeta) × (i : ℕ) × (s : Secret) × (get_elem? secrets i ≡ some s)
      × (parse_helm_release_secret (some s) ≡ (some m, true))
      × (current ≡ some m)

latest_release-KeptOrFrom :
    (secrets : List Secret) (o : Option HelmReleaseMeta)
    → KeptOrFrom o secrets (latest_release o secrets)
unfolding latest_release
latest_release-KeptOrFrom [] o = inl refl
latest_release-KeptOrFrom (s ∷ secrets) o =
    let x = parse_helm_release_secret (some s) in
    elim (latest_release-KeptOrFrom secrets (newer_release o x)) [
      | inr (m, i, t, at, parsed, e) ↦ inr (m, suc i, t, ground arith, parsed, e)
      | inl kept ↦ elim (newer_release-cases o x) [
        | inl same ↦ inl (kept ∙ same)
        | inr (m, parsed, e) ↦ inr (m, 0, s, refl, parsed, kept ∙ e)
      ]
    ]

from_secrets :
    (secrets : List Secret) (o : Option HelmReleaseMeta)
    → KeptOrFrom none secrets o
    → ComesFrom secrets o
from_secrets secrets none k = tt
from_secrets secrets (some m) (inl e) = absurd (ground arith)
from_secrets secrets (some m) (inr (m', i, s, at, parsed, e)) =
    (i, s, at, subst (λ y. parse_helm_release_secret (some s) ≡ (y, true)) (sym e) parsed)

-- `latest_release` gives the release of one of the Secrets that are valid releases, and none of
-- them has a greater version; it gives none only where no Secret is a valid release.
pub latest_release-IsLatest :
    (secrets : List Secret)
    → ComesFrom secrets (latest_release none secrets)
      × All (λ s. Bounds (latest_release none secrets) (parse_helm_release_secret (some s))) secrets
latest_release-IsLatest secrets = (
  from_secrets secrets _ (latest_release-KeptOrFrom secrets none),
  latest_release-Bounds secrets none,
)
