-- ===== src/Scenarios/HelmCases.antt =====
-- The Helm release watcher on a concrete release.
use konfirm.Base.{
  ◌≡◌, ◌↔◌, refl, subst, String, true, false, some, none, List, [], ◌∷◌, All, pos, atoi,
  parse_unsigned, parse_digits,
}
use konfirm.Api.{Secret, TestSuite, TestSuitePhase, HelmPolicy, RetainPolicy}
use konfirm.Cluster.{Reply, ok, err, enqueue}
use konfirm.HelmWatcher.{
  HelmReleaseMeta, EnqueueForHelmTrigger, parse_helm_release_secret, handle, helm_secret_type,
}
use konfirm.HelmWatcher.Parsed.{Describes, parse_helm_release_secret-Describes}
use konfirm.HelmWatcher.Permitted.{ListsNamespace, IsPermitted, handle-IsPermitted}
use konfirm.HelmWatcher.Enqueued.{handle-everywhere}
use konfirm.Scenarios.Sample.{named}

abbrev pub shop_secret : Secret
shop_secret = record {
  meta = record (named "sh.helm.release.v1.shop.v7") {
    labels = ("name", "shop") ∷ ("owner", "helm") ∷ ("status", "deployed") ∷ ("version", "7") ∷ [];
  };
  type = helm_secret_type;
}

abbrev pub shop : HelmReleaseMeta
shop = record {
  namespace = "default";
  name = "shop";
  version = pos 7;
  version_string = "7";
  status = "deployed";
}

abbrev suite : String → String → TestSuite
suite namespace name = record {
  type = record { api_version = "konfirm.goraft.tech/v1alpha1"; kind = "TestSuite" };
  meta = record (named name) { namespace = namespace };
  spec = record {
    history_limit = 3;
    set_up = record { helm = record { secret_name = ""; chart_key = ""; values_key = "" } };
    template = record { retention_policy = RetainPolicy.never; tests = [] };
    when = record { schedule = ""; helm_release = "shop.default" };
  };
  trigger = record { needs_run = false };
  status = record {
    conditions = [];
    phase = TestSuitePhase.ready;
    current_test_run = "";
    next_run = none;
  };
}

abbrev policy : HelmPolicy
policy = record {
  type = record { api_version = "konfirm.goraft.tech/v1alpha1"; kind = "HelmPolicy" };
  meta = named "shop";
  spec = record { export_to = "*" ∷ [] };
}

-- One suite in each namespace that is asked for, and one elsewhere.
abbrev pub watcher : EnqueueForHelmTrigger
watcher = record {
  list_suites = λ h ns label. ok (suite ns "smoke" ∷ []);
  list_other_suites = λ h ns label. ok (suite "other" "load" ∷ []);
  get_policy = λ h key. ok policy;
}

shop_described : Describes shop_secret shop
unfolding atoi parse_unsigned parse_digits
shop_described = record {
  type = refl;
  namespace = refl;
  name = refl;
  version = refl;
  status = refl;
  number = refl;
}

parse_helm_release_secret-Describes_example :
    (parse_helm_release_secret (some shop_secret) ≡ (some shop, true)) ↔ Describes shop_secret shop
parse_helm_release_secret-Describes_example = parse_helm_release_secret-Describes shop_secret shop

shop_parsed : parse_helm_release_secret (some shop_secret) ≡ (some shop, true)
unfolding parse_helm_release_secret atoi parse_unsigned parse_digits
shop_parsed = refl

abbrev AllIn : String → Reply (List TestSuite) → Type 0
AllIn ns (ok suites) = All (λ s. s.meta.namespace ≡ ns) suites
AllIn ns (err e) = Unit

watcher_lists : ListsNamespace watcher
watcher_lists h ns label suites named e = subst (AllIn ns) e (refl, tt)

handle-IsPermitted_example : All (IsPermitted watcher shop) (handle watcher shop_secret []).1
handle-IsPermitted_example = handle-IsPermitted watcher shop_secret [] watcher_lists shop_parsed tt

handle-everywhere_example :
    (handle watcher shop_secret []).1
    ≡ enqueue (record { namespace = "other"; name = "load" })
      ∷ enqueue (record { namespace = "default"; name = "smoke" })
      ∷ []
handle-everywhere_example = handle-everywhere watcher shop_secret [] shop_parsed refl refl refl refl
