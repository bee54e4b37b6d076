-- ===== src/RunController/Results.antt =====
-- "Ensure each test exists, track completions" in `TestRunReconciler.isRunning`.
use konfirm.Base.{
  ℕ, suc, ◌+◌, String, true, Option, none, some, List, [], ◌∷◌, ◌++◌, concat, decimal,
  if◌then◌else◌,
}
use konfirm.Api.{Test, TestPhase, TestTemplate, TestResult, TestRun, is_final, is_success}
use konfirm.Cluster.{create_test, event, M, pure, ◌>>=◌, ◌>>◌, call, emit, on_reply}
use konfirm.TestController.{test_finalizer}
use konfirm.RunController.Sweep.{TestRunReconciler}
use konfirm.Sweep.{Swept, swept, failed, with_item}

-- `fmt.Sprintf("%s-%d-", testRun.Name, i)`
unfoldable pub test_name : String → ℕ → String
test_name run i = concat (run ∷ "-" ∷ decimal i ∷ "-" ∷ [])

-- The Test built for the template at index `i`. It carries the finalizer of the Test controller.
unfoldable pub new_test : TestRun → ℕ → TestTemplate → Test
unfolding test_name
new_test run i template = record {
  type = record { api_version = ""; kind = "" };
  meta = record {
    name = "";
    generate_name = test_name run.meta.name i;
    namespace = run.meta.namespace;
    uid = "";
    generation = 0;
    creation_timestamp = 0;
    deletion_timestamp = none;
    finalizers = test_finalizer ∷ [];
    owner_references =
        record {
          api_version = run.type.api_version;
          kind = run.type.kind;
          name = run.meta.name;
          uid = run.meta.uid;
          controller = true;
          block_owner_deletion = true;
        }
        ∷ [];
    labels = [];
    annotations = [];
  };
  spec = record { retention_policy = run.spec.retention_policy; template = template.template };
  status = record { conditions = []; phase = TestPhase.unset; messages = [] };
}

-- `testRun.Status.Results` and the three counts.
pub record Tally : Type 0 where
  pub results : List TestResult
  pub completions : ℕ
  pub passes : ℕ
  pub failures : ℕ

abbrev pub no_results : Tally
no_results = record { results = []; completions = 0; passes = 0; failures = 0 }

-- "Evaluate test phase"
unfoldable pub count_test : TestTemplate → Test → Tally → Tally
count_test template test tally =
    let success = is_success test.status.phase in
    if is_final test.status.phase
    then record {
      results =
          tally.results
          ++ record { description = template.description; passed = success; test = test.meta.name }
            ∷ [];
      completions = tally.completions + 1;
      passes = if success then tally.passes + 1 else tally.passes;
      failures = if success then tally.failures else tally.failures + 1;
    }
    else tally

module _ (r : TestRunReconciler) where
  -- "Create Test if it does not exist"
  unfoldable pub add_test : TestRun → ℕ → TestTemplate → M (Swept Tally) → M (Swept Tally)
  unfolding new_test
  add_test run i template rest = do
    let test = new_test run i template
    reply ← call (create_test test) (λ h. r.client.create_test h test)
    on_reply reply (λ e. pure (failed e))
        λ t. do
          emit (event run.meta "Normal" "CreatedTest" (concat ("Created test " ∷ t.meta.name ∷ [])))
          rest

  -- The loop over `mapped`, which has a place for each template.
  unfoldable pub tally_from :
      TestRun → List Test → ℕ → List TestTemplate → List (Option ℕ) → Tally → M (Swept Tally)
  unfolding add_test count_test
  tally_from run items i (template ∷ templates) (none ∷ places) tally =
      add_test run i template (tally_from run items (suc i) templates places tally)
  tally_from run items i (template ∷ templates) (some p ∷ places) tally =
      with_item items p
        (λ test. tally_from run items (suc i) templates places (count_test template test tally))
  tally_from run items i _ _ tally = pure (swept tally)
