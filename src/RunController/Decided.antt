-- ===== src/RunController/Decided.antt =====
-- The phase to which `isRunning` patches a TestRun, as a function of the phases of its Tests.
use konfirm.Base.{
  ℕ, suc, ◌≤◌, ◌≡◌, refl, sym, ap, ◌∙◌, subst, String, Bool, true, false, ◌&&◌, Option, none, some,
  List, [], ◌∷◌, All, length, ◌==◌, arith, if◌then◌else◌,
}
use konfirm.Api.{ObjectMeta, Test, TestPhase, TestRun, TestRunPhase, is_final, is_success}
use konfirm.Cluster.{Effect, History, patch_run_status, event, M, ◌>>=◌}
use konfirm.Cluster.Keeps.{Keeps, Allows, Keeps-bind_returns}
use konfirm.RunController.Sweep.{TestRunReconciler}
use konfirm.Sweep.{swept}
use konfirm.RunController.Mapping.{Mapped, map_tests}
use konfirm.RunController.Results.{Tally, no_results, tally_from}
use konfirm.RunController.Reconcile.{Exit, conclude, run_is_running, after}
use konfirm.RunController.Writes.{AllowsTestWrites, map_tests-Keeps, tally_from-Keeps}
use konfirm.RunController.Concluded.{concluded, conclude-Keeps}
use konfirm.RunController.Flow.{after-Keeps}
use konfirm.RunController.Loops.{HasPlaces, map_tests-HasPlaces}
use konfirm.RunController.Verdicts.{phases, count_final, count_failed, Adds, tally_from-Adds}

-- Every place has a Test that has ended, and every place has one that has passed.
abbrev pub all_ended : List (Option TestPhase) → Bool
all_ended [] = true
all_ended (none ∷ os) = false
all_ended (some p ∷ os) = is_final p && all_ended os

abbrev pub all_passed : List (Option TestPhase) → Bool
all_passed [] = true
all_passed (none ∷ os) = false
all_passed (some p ∷ os) = is_success p && all_passed os

abbrev pub verdict_for : List (Option TestPhase) → TestRunPhase
verdict_for os =
    if all_ended os
    then if all_passed os then TestRunPhase.passed else TestRunPhase.failed
    else TestRunPhase.running

count_final-le : (os : List (Option TestPhase)) → count_final os ≤ length os
count_final-le [] = omega arith
count_final-le (none ∷ os) = omega (arith, count_final-le os)
count_final-le (some p ∷ os) = ground (arith, count_final-le os)

count_final-eq : (os : List (Option TestPhase)) → (length os == count_final os) ≡ all_ended os
count_final-eq [] = ground arith
count_final-eq (none ∷ os) = ground (arith, count_final-le os)
count_final-eq (some p ∷ os) = ground (arith, count_final-le os, count_final-eq os)

count_failed-eq :
    (os : List (Option TestPhase)) → all_ended os ≡ true → (count_failed os == 0) ≡ all_passed os
count_failed-eq [] e = ground arith
count_failed-eq (none ∷ os) e = ground arith
count_failed-eq (some p ∷ os) e = ground (arith, count_failed-eq os)

pub length-phases :
    (items : List Test) (places : List (Option ℕ)) → length (phases items places) ≡ length places
length-phases items [] = refl
length-phases items (o ∷ os) = ap suc (length-phases items os)

abbrev pub SetsVerdict : List (Option TestPhase) → Effect → Type 0
SetsVerdict os (patch_run_status orig new) = new.status.phase ≡ verdict_for os
SetsVerdict os _ = Unit

module _ (r : TestRunReconciler) (os : List (Option TestPhase)) where
  abbrev K : History → Type 0
  K = All (SetsVerdict os)

  Allows-event : (m : ObjectMeta) (a b c : String) → Allows K (event m a b c)
  Allows-event m a b c h k = (tt, k)

  pub concluded-verdict :
      (n : ℕ) (t : Tally)
      → n ≡ length os
      → Adds no_results os (swept t)
      → concluded n t ≡ verdict_for os
  concluded-verdict n t e a = ground (arith, count_final-eq os, count_failed-eq os)

  test_writes : AllowsTestWrites K
  test_writes = record { patch = λ a b h k. (tt, k); delete = λ t h k. (tt, k) }

  -- The part of `isRunning` behind the mapping.
  tallied-Keeps :
      (run : TestRun) (items : List Test) (places : List (Option ℕ))
      → length run.spec.tests ≡ length places
      → phases items places ≡ os
      → Keeps K (
          tally_from r run items 0 run.spec.tests places no_results
          >>= (λ tally. after r tally (λ t. conclude r run (length places) t)))
  tallied-Keeps run items places e same =
      Keeps-bind_returns (Adds no_results (phases items places)) _ _
        (tally_from-Keeps test_writes r run (λ i template found h k. (tt, k)) Allows-event items 0
          run.spec.tests places no_results refl)
        (tally_from-Adds r run items 0 run.spec.tests places no_results e)
        λ tally a. after-Keeps r tally _ λ t got.
          conclude-Keeps r Allows-event run (verdict_for os) (λ b set h k. (set, k)) (length places)
            t
            (concluded-verdict (length places) t (sym (length-phases items places) ∙ ap length same)
              (subst (λ o. Adds no_results o (swept t)) same
                (subst (Adds no_results (phases items places)) got a)))

-- `isRunning` behind the mapping.
abbrev rest : TestRunReconciler → TestRun → Mapped → M Exit
rest r run m = do
  tally ← tally_from r run m.items 0 run.spec.tests m.places no_results
  after r tally (λ t. conclude r run (length m.places) t)

-- Where the tests of a TestRun have been mapped to its templates, `isRunning` sets no phase but the
-- one that the phases of the mapped Tests decide: Running until each template has a Test that has
-- ended, then Passed if every Test passed, and Failed otherwise.
pub run_is_running_verdict :
    (r : TestRunReconciler) (run : TestRun) (tests : List Test) (h : History) {m : Mapped}
    → (map_tests r (length run.spec.tests) tests h).0 ≡ swept m
    → All (SetsVerdict (phases m.items m.places)) h
    → All (SetsVerdict (phases m.items m.places)) (run_is_running r run tests h).1
unfolding run_is_running ◌>>=◌ after
run_is_running_verdict r run tests h {m} mapped k =
    let n = length run.spec.tests in
    let os = phases m.items m.places in
    let x = map_tests r n tests h in
    subst (λ s. All (SetsVerdict os) (after r s (λ m'. rest r run m') x.1).1) (sym mapped)
      ((tallied-Keeps r os run m.items m.places
          (sym ((subst (HasPlaces n) mapped ((map_tests-HasPlaces r n tests).at h)).0)) refl).at
        x.1 ((map_tests-Keeps (test_writes r os) r n tests).at h k))
