-- ===== src/Scenarios/Sample.antt =====
-- A cluster that accepts every write and stores what it is sent.
use konfirm.Base.{ℕ, Bool, String, none, some, List, [], ◌∷◌, str_eq, if◌then◌else◌}
use konfirm.Api.{
  ObjectMeta, Condition, Pod, PodPhase, PodTemplateSpec, Test, TestPhase, RetainPolicy, TestRun,
  TestRunPhase,
}
use konfirm.Cluster.{Env, Failure, NamespacedName, ok, err}
use konfirm.TestController.{TestReconciler}

abbrev pub not_found : Failure
not_found = record { reason = "NotFound"; message = "not found" }

abbrev pub refused : Failure
refused = record { reason = "Forbidden"; message = "forbidden" }

-- The condition in the place of the first one of its type, or at the end.
abbrev pub put_condition : Condition → List Condition → List Condition
put_condition c [] = c ∷ []
put_condition c (d ∷ ds) = if str_eq d.type c.type then c ∷ ds else d ∷ put_condition c ds

abbrev pub insert_sorted : (TestRun → TestRun → Bool) → TestRun → List TestRun → List TestRun
insert_sorted less t [] = t ∷ []
insert_sorted less t (u ∷ us) =
    let rest = insert_sorted less t us in if less t u then t ∷ u ∷ us else u ∷ rest

abbrev pub insertion_sort : (TestRun → TestRun → Bool) → List TestRun → List TestRun
insertion_sort less [] = []
insertion_sort less (t ∷ ts) = insert_sorted less t (insertion_sort less ts)

abbrev pub accepting : Test → List Pod → TestRun → List Test → Env
accepting test pods run tests = record {
  get_test = λ h req. ok test;
  list_pods = λ h req. ok pods;
  create_pod = λ h p. ok p;
  delete_pod = λ h p. none;
  patch_pod = λ h a b. ok b;
  patch_test = λ h a b. ok b;
  patch_test_status = λ h a b. ok b;
  get_run = λ h req. ok run;
  list_tests = λ h req. ok tests;
  create_test = λ h t. ok t;
  delete_test = λ h t. none;
  delete_run = λ h t. none;
  patch_run = λ h a b. ok b;
  patch_run_status = λ h a b. ok b;
  get_suite = λ h req. err not_found;
  list_runs = λ h req. ok (run ∷ []);
  create_run = λ h t. ok t;
  delete_suite = λ h t. none;
  patch_suite = λ h a b. ok b;
  patch_suite_status = λ h a b. ok b;
  get_policy = λ h req. err not_found;
  list_releases = λ h req. ok [];
  ignore_not_found = λ e. if str_eq e.reason "NotFound" then none else some e;
  set_status_condition = put_condition;
  sort_slice = insertion_sort;
  print_spec = λ spec. [];
  safe_encode = λ s. s;
}

abbrev pub named : String → ObjectMeta
named name = record {
  name = name;
  generate_name = "";
  namespace = "default";
  uid = name;
  generation = 1;
  creation_timestamp = 5;
  deletion_timestamp = none;
  finalizers = [];
  owner_references = [];
  labels = [];
  annotations = [];
}

abbrev pub held_by : String → ObjectMeta → ObjectMeta
held_by f m = record m { finalizers = f ∷ [] }

abbrev pub deleted_at : ℕ → ObjectMeta → ObjectMeta
deleted_at t m = record m { deletion_timestamp = some t }

abbrev pub template : PodTemplateSpec
template = record {
  meta = named "template";
  spec = record { images = "smoke:1" ∷ []; restart_policy = "Always" };
}

abbrev pub smoke_test : TestPhase → ObjectMeta → Test
smoke_test phase meta = record {
  type = record { api_version = "konfirm.goraft.tech/v1alpha1"; kind = "Test" };
  meta = meta;
  spec = record { retention_policy = RetainPolicy.on_failure; template = template };
  status = record { conditions = []; phase = phase; messages = [] };
}

abbrev pub pod_in : PodPhase → ObjectMeta → Pod
pod_in phase meta = record {
  meta = meta;
  spec = record { images = "smoke:1" ∷ []; restart_policy = "Never" };
  status = record {
    phase = phase;
    container_statuses = record { name = "main"; terminated = some "ok" } ∷ [];
  };
}

abbrev pub empty_run : TestRun
empty_run = record {
  type = record { api_version = "konfirm.goraft.tech/v1alpha1"; kind = "TestRun" };
  meta = named "run";
  spec = record { retention_policy = RetainPolicy.always; tests = [] };
  status = record { conditions = []; phase = TestRunPhase.unset; message = ""; results = [] };
}

abbrev pub request : NamespacedName
request = record { namespace = "default"; name = "smoke" }

abbrev pub tester : Test → List Pod → TestReconciler
tester test pods = record { client = accepting test pods empty_run []; err_requeue_delay = 60 }
