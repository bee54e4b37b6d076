-- ===== src/RunController/Writes.antt =====
-- The invariants of the history that the loops of `TestRunReconciler` keep: those that allow what
-- they write to Tests.
use konfirm.Base.{
  ℕ, zero, suc, ◌≡◌, String, Option, none, some, List, [], ◌∷◌, get_elem?, drop-cons, length,
  replicate, drop,
}
use konfirm.Api.{ObjectMeta, Test, TestTemplate, TestRun}
use konfirm.Cluster.{History, create_test, delete_test, patch_test, event, M, test_kind, Kind}
use konfirm.Cluster.Keeps.{
  Keeps, Allows, keeps_rules, Keeps-call, Keeps-bind, Keeps-on_reply, Keeps-emit, Keeps-pure,
}
use konfirm.Helpers.{clean_up_all}
use konfirm.Helpers.Keeps.{clean_up-Keeps, clean_up_all-Keeps}
use konfirm.Sweep.Keeps.{with_item-Keeps, and_then-Keeps, sweep-Keeps}
use konfirm.RunController.Sweep.{TestRunReconciler, run_finalizer, sweep_tests}
use konfirm.Sweep.{Swept}
use konfirm.RunController.Mapping.{
  Mapped, Slot, slot, negative, invalid, map_to, map_test, map_from, map_tests,
}
use konfirm.RunController.Results.{Tally, new_test, add_test, count_test, tally_from}

-- What the mapping, the sweep and a cleanup write.
pub record AllowsTestWrites (I : History → Type 0) : Type 0 where
  pub patch : (a b : Test) → Allows I (patch_test a b)
  pub delete : (t : Test) → Allows I (delete_test t)

module _ {I : History → Type 0} (allows : AllowsTestWrites I) (r : TestRunReconciler) where
  patch_keeps : (a b : Test) → Keeps I (Kind.patch (test_kind r.client) a b)
  unfolding test_kind
  patch_keeps a b = Keeps-call (patch_test a b) _ (allows.patch a b)

  delete_keeps : (t : Test) → Keeps I (Kind.delete (test_kind r.client) t)
  unfolding test_kind
  delete_keeps t = Keeps-call (delete_test t) _ (allows.delete t)

  map_to-Keeps : (s : Slot) (at : ℕ) (t : Test) (m : Mapped) → Keeps I (map_to r s at t m)
  unfolding map_to
  map_to-Keeps (slot i) at t m = Keeps-pure _
  map_to-Keeps negative at t m = Keeps-pure _
  map_to-Keeps invalid at t m =
      search (keeps_rules, clean_up-Keeps (test_kind r.client) patch_keeps delete_keeps)

  map_from-Keeps : (left at : ℕ) (m : Mapped) → Keeps I (map_from r left at m)
  unfolding map_from map_test
  map_from-Keeps zero at m = Keeps-pure _
  map_from-Keeps (suc left) at m =
      search
        (keeps_rules, with_item-Keeps, and_then-Keeps, map_to-Keeps, map_from-Keeps left (suc at))

  pub map_tests-Keeps : (n : ℕ) (items : List Test) → Keeps I (map_tests r n items)
  unfolding map_tests
  map_tests-Keeps n items =
      map_from-Keeps (length items) 0 (record { items = items; places = replicate n none })

  pub clean_tests-Keeps :
      (tests : List Test) → Keeps I (clean_up_all (test_kind r.client) r.client run_finalizer tests)
  clean_tests-Keeps tests =
      clean_up_all-Keeps (test_kind r.client) patch_keeps delete_keeps r.client run_finalizer tests

  pub sweep_tests-Keeps : (items : List Test) → Keeps I (sweep_tests r items)
  unfolding sweep_tests
  sweep_tests-Keeps items = sweep-Keeps (test_kind r.client) run_finalizer patch_keeps items

  module _ (run : TestRun)
      (creates : (i : ℕ) (template : TestTemplate)
        → get_elem? run.spec.tests i ≡ some template
        → Allows I (create_test (new_test run i template)))
      (events : (m : ObjectMeta) (a b c : String) → Allows I (event m a b c)) where
    add_test-Keeps :
        (i : ℕ) (template : TestTemplate) (rest : M (Swept Tally))
        → get_elem? run.spec.tests i ≡ some template
        → Keeps I rest
        → Keeps I (add_test r run i template rest)
    unfolding add_test
    add_test-Keeps i template rest at kr =
        Keeps-bind _ _ (Keeps-call _ _ (creates i template at)) λ reply.
          Keeps-on_reply reply _ _ (λ e. Keeps-pure _)
            (λ t. Keeps-bind _ _ (Keeps-emit _ (events _ _ _ _)) (λ u. kr))

    -- `templates` are the run's from index `i` on.
    pub tally_from-Keeps :
        (items : List Test) (i : ℕ) (templates : List TestTemplate) (places : List (Option ℕ))
        (tally : Tally)
        → drop i run.spec.tests ≡ templates
        → Keeps I (tally_from r run items i templates places tally)
    unfolding tally_from
    tally_from-Keeps items i [] places tally e = Keeps-pure _
    tally_from-Keeps items i (template ∷ templates) [] tally e = Keeps-pure _
    tally_from-Keeps items i (template ∷ templates) (none ∷ places) tally e =
        let (here, behind) = drop-cons run.spec.tests i e in
        add_test-Keeps i template _ here
          (tally_from-Keeps items (suc i) templates places tally behind)
    tally_from-Keeps items i (template ∷ templates) (some p ∷ places) tally e =
        with_item-Keeps items p _ λ t.
          tally_from-Keeps items (suc i) templates places (count_test template t tally)
            (drop-cons run.spec.tests i e).1
