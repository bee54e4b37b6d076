-- ===== src/HelmWatcher/Permitted.antt =====
-- Which TestSuites a Helm release enqueues.
use konfirm.Base.{
  ℕ, suc, ◌≡◌, refl, sym, subst, ap, not, equal_texts, str_eq, Bool, false, ◌⊎◌, inl, inr, String,
  true, Bool-cases, some, List, [], ◌∷◌, All, get_elem?, drop, drop-cons,
}
use konfirm.Api.{Secret, TestSuite, HelmPolicy}
use konfirm.Cluster.{Reply, ok, err, Effect, History, enqueue, M, pure, ◌>>=◌, ask, on_reply, emit}
use konfirm.HelmWatcher.Release.{HelmReleaseMeta, label_value, parse_helm_release_secret}
use konfirm.HelmWatcher.Handle.{
  EnqueueForHelmTrigger, request_for, exports_everywhere, enqueue_suites, enqueue_exported,
  enqueue_elsewhere, handle_release, on_parsed, handle,
}

-- `client.InNamespace`: a list of a namespace holds objects of that namespace. The empty name stands
-- for all namespaces, so nothing is known of what it lists.
abbrev pub ListsNamespace : EnqueueForHelmTrigger → Type 0
ListsNamespace w =
    (h : History) (ns label : String) (suites : List TestSuite)
    → str_eq ns "" ≡ false
    → w.list_suites h ns label ≡ ok suites
    → All (λ s. s.meta.namespace ≡ ns) suites

-- The name is that of the namespace, or the empty one.
abbrev pub Reaches : String → String → Type 0
Reaches name ns = (ns ≡ name) ⊎ (name ≡ "")

-- The policy has the one entry that stands for all, or an entry that reaches the namespace.
abbrev pub Exports : HelmPolicy → String → Type 0
Exports policy ns =
    (exports_everywhere policy.spec.export_to ≡ true)
    ⊎ ((i : ℕ) × (name : String) × (get_elem? policy.spec.export_to i ≡ some name)
        × Reaches name ns)

-- Where a release may enqueue TestSuites: in its own namespace, and where the policy of its name
-- exports it.
abbrev pub MayEnqueue : EnqueueForHelmTrigger → HelmReleaseMeta → String → Type 0
MayEnqueue w release ns =
    Reaches release.namespace ns
    ⊎ ((h : History) × (policy : HelmPolicy) × (w.get_policy h
            (record { namespace = release.namespace; name = release.name })
          ≡ ok policy)
        × Exports policy ns)

abbrev pub IsPermitted : EnqueueForHelmTrigger → HelmReleaseMeta → Effect → Type 0
IsPermitted w release (enqueue req) = MayEnqueue w release req.namespace
IsPermitted w release _ = Unit

module _ (w : EnqueueForHelmTrigger) (release : HelmReleaseMeta) where
  abbrev P : History → Type 0
  P = All (IsPermitted w release)

  enqueue_suites_permitted :
      (suites : List TestSuite) (h : History)
      → All (λ s. MayEnqueue w release s.meta.namespace) suites
      → P h
      → P (enqueue_suites suites h).1
  unfolding enqueue_suites ◌>>=◌ emit pure
  enqueue_suites_permitted [] h a p = p
  enqueue_suites_permitted (s ∷ suites) h (here, others) p =
      enqueue_suites_permitted suites (enqueue (request_for s) ∷ h) others (here, p)

  All-may :
      (suites : List TestSuite)
      → ((ns : String) → MayEnqueue w release ns)
      → All (λ s. MayEnqueue w release s.meta.namespace) suites
  All-may [] may = tt
  All-may (s ∷ suites) may = (may s.meta.namespace, All-may suites may)

  All-in :
      (ns : String) (suites : List TestSuite)
      → MayEnqueue w release ns
      → All (λ s. s.meta.namespace ≡ ns) suites
      → All (λ s. MayEnqueue w release s.meta.namespace) suites
  All-in ns [] may a = tt
  All-in ns (s ∷ suites) may (e, a) =
      (subst (MayEnqueue w release) (sym e) may, All-in ns suites may a)

  All-reached :
      (name : String) (suites : List TestSuite)
      → ((ns : String) → Reaches name ns → MayEnqueue w release ns)
      → (str_eq name "" ≡ false → All (λ s. s.meta.namespace ≡ name) suites)
      → All (λ s. MayEnqueue w release s.meta.namespace) suites
  All-reached name suites may a = elim (Bool-cases (str_eq name "")) [
    | inl empty ↦
        All-may suites (λ ns. may ns (inr (equal_texts name "" (ap (λ (b : Bool). not b) empty))))
    | inr named ↦ All-in name suites (may name (inl refl)) (a named)
  ]

  -- A list of a namespace, and the code behind it.
  listed_permitted :
      (reply : Reply (List TestSuite)) (f : List TestSuite → M (Unit {0})) (h : History)
      → ((suites : List TestSuite) → reply ≡ ok suites → P (f suites h).1)
      → P h
      → P (on_reply reply (λ e. pure tt) f h).1
  unfolding on_reply pure
  listed_permitted (ok suites) f h go p = go suites refl
  listed_permitted (err e) f h go p = p

  module _ (lists : ListsNamespace w) where
    enqueue_exported_permitted :
        (label : String) (i : ℕ) (all namespaces : List String) (h : History)
        → ((ns name : String) (k : ℕ)
            → get_elem? all k ≡ some name
            → Reaches name ns
            → MayEnqueue w release ns)
        → drop i all ≡ namespaces
        → P h
        → P (enqueue_exported w label namespaces h).1
    unfolding enqueue_exported ◌>>=◌ ask pure
    enqueue_exported_permitted label i all [] h may e p = p
    enqueue_exported_permitted label i all (ns ∷ namespaces) h may e p =
        let (here, behind) = drop-cons all i e in
        listed_permitted (w.list_suites h ns label) _ h
          (λ suites got.
            enqueue_exported_permitted label (suc i) all namespaces (enqueue_suites suites h).1 may
              behind
              (enqueue_suites_permitted suites h
                (All-reached ns suites (λ to. may to ns i here)
                  (λ named. lists h ns label suites named got))
                p))
          p

    enqueue_elsewhere_permitted :
        (policy : HelmPolicy) (h : History)
        → ((ns : String) → Exports policy ns → MayEnqueue w release ns)
        → P h
        → P (enqueue_elsewhere w release policy h).1
    unfolding enqueue_elsewhere ◌>>=◌ ask
    enqueue_elsewhere_permitted policy h may p =
        elim (Bool-cases (exports_everywhere policy.spec.export_to)) [
          | inl all ↦ rw all (
              listed_permitted
                (w.list_other_suites h release.namespace (label_value (some release))) _ h
                (λ suites got.
                  enqueue_suites_permitted suites h (All-may suites (λ ns. may ns (inl all))) p)
                p)
          | inr some_only ↦ rw some_only (
              enqueue_exported_permitted (label_value (some release)) 0 policy.spec.export_to
                policy.spec.export_to h (λ ns name k at reach. may ns (inr (k, name, at, reach)))
                refl p)
        ]

    policy_permitted :
        (reply : Reply HelmPolicy) (h : History)
        → ((policy : HelmPolicy)
            → reply ≡ ok policy
            → (ns : String) → Exports policy ns
            → MayEnqueue w release ns)
        → P h
        → P (on_reply reply (λ e. pure tt) (λ p. enqueue_elsewhere w release p) h).1
    unfolding on_reply pure
    policy_permitted (ok policy) h may p = enqueue_elsewhere_permitted policy h (may policy refl) p
    policy_permitted (err e) h may p = p

    handle_release_permitted : (h : History) → P h → P (handle_release w release h).1
    unfolding handle_release ◌>>=◌ ask
    handle_release_permitted h p =
        listed_permitted (w.list_suites h release.namespace (label_value (some release))) _ h
          (λ suites got.
            let h' = (enqueue_suites suites h).1 in
            policy_permitted
              (w.get_policy h' (record { namespace = release.namespace; name = release.name })) h'
              (λ policy found ns exports. inr (h', policy, found, exports))
              (enqueue_suites_permitted suites h
                (All-reached release.namespace suites (λ ns reach. inl reach)
                  (λ named.
                    lists h release.namespace (label_value (some release)) suites named got))
                p))
          p

-- Where lists by a name that is not empty hold objects of that namespace, a Secret that describes a
-- release enqueues no TestSuite outside the release's namespace, but where the HelmPolicy of the
-- release's name exports it: by an entry that is the TestSuite's namespace, by `*` alone, or by an
-- empty entry, which lists all namespaces, as an empty namespace of the release does.
pub handle-IsPermitted :
    (w : EnqueueForHelmTrigger) (secret : Secret) {release : HelmReleaseMeta} (h : History)
    → ListsNamespace w
    → parse_helm_release_secret (some secret) ≡ (some release, true)
    → All (IsPermitted w release) h
    → All (IsPermitted w release) (handle w secret h).1
unfolding handle on_parsed
handle-IsPermitted w secret {release} h lists parsed p =
    rw parsed (handle_release_permitted w release lists h p)
