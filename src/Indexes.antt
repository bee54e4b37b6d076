-- ===== src/Indexes.antt =====
-- The field indexes that `SetupWithManager` of controllers/test_controller.go,
-- controllers/testrun_controller.go and controllers/testsuite_controller.go register: the keys by
-- which `Reconcile` lists the children of an object.
use konfirm.Base.{
  ◌≡◌, refl, ℕ, String, true, not, ◌&&◌, Option, none, some, List, [], ◌∷◌, str_eq, eq_refl,
  if◌then◌else◌,
}
use konfirm.Api.{OwnerReference, TypeMeta, Pod, Secret, Test, TestTemplate, TestRun, TestSuite}
use konfirm.TestController.{new_pod}
use konfirm.RunController.{new_test}
use konfirm.SuiteController.{TestSuiteReconciler, new_run}

-- `konfirm.GroupVersion.String()`
abbrev pub group_version : String
group_version = "konfirm.goraft.tech/v1alpha1"

-- The keys of an object with an owner: the owner's name where it is of the kind.
abbrev pub name_of_owner : String → Option OwnerReference → List String
name_of_owner kind none = []
name_of_owner kind (some owner) =
    if str_eq owner.api_version group_version && str_eq owner.kind kind then owner.name ∷ [] else []

-- "field:type"
unfoldable pub index_secret : Secret → List String
index_secret secret = if not (str_eq secret.type "") then secret.type ∷ [] else []

-- With `metav1.GetControllerOf` on the owner references of an object.
module _ (controller_of : List OwnerReference → Option OwnerReference) where
  unfoldable pub index_pod : Pod → List String
  index_pod pod = name_of_owner "Test" (controller_of pod.meta.owner_references)

  unfoldable pub index_test : Test → List String
  index_test test = name_of_owner "TestRun" (controller_of test.meta.owner_references)

  unfoldable pub index_run : TestRun → List String
  index_run run = name_of_owner "TestSuite" (controller_of run.meta.owner_references)

pub record IsOfKind (kind : String) (type : TypeMeta) : Type 0 where
  pub version : type.api_version ≡ group_version
  pub named : type.kind ≡ kind

name_of_one :
    (controller_of : List OwnerReference → Option OwnerReference)
    → ((o : OwnerReference) → o.controller ≡ true → controller_of (o ∷ []) ≡ some o)
    → (kind : String) (o : OwnerReference) → o.controller ≡ true
    → o.api_version ≡ group_version
    → o.kind ≡ kind
    → name_of_owner kind (controller_of (o ∷ [])) ≡ o.name ∷ []
name_of_one controller_of one kind o controls version named =
    rw (one o controls, version, named, eq_refl kind) refl

-- Where `GetControllerOf` gives the only owner of an object that is its controller, the objects that
-- the three controllers create are indexed by the names of the objects that they create them for, so
-- that these list them as their children; that takes objects which carry their version and kind.
pub children_indexed :
    (controller_of : List OwnerReference → Option OwnerReference) (r : TestSuiteReconciler)
    (test : Test) (run : TestRun) (i : ℕ) (template : TestTemplate) (suite : TestSuite)
    → ((o : OwnerReference) → o.controller ≡ true → controller_of (o ∷ []) ≡ some o)
    → IsOfKind "Test" test.type
    → IsOfKind "TestRun" run.type
    → IsOfKind "TestSuite" suite.type
    → (index_pod controller_of (new_pod test) ≡ test.meta.name ∷ [])
      × (index_test controller_of (new_test run i template) ≡ run.meta.name ∷ [])
      × (index_run controller_of (new_run r suite) ≡ suite.meta.name ∷ [])
unfolding index_pod index_test index_run new_pod new_test new_run
children_indexed controller_of r test run i template suite one of_test of_run of_suite = (
  name_of_one controller_of one "Test" _ refl of_test.version of_test.named,
  name_of_one controller_of one "TestRun" _ refl of_run.version of_run.named,
  name_of_one controller_of one "TestSuite" _ refl of_suite.version of_suite.named,
)
