-- ===== src/RunController/Verdicts.antt =====
-- The verdict of a TestRun against the phases of its Tests.
use konfirm.Base.{
  ℕ, suc, ◌+◌, ◌≡◌, sym, subst, Option, none, some, List, [], ◌∷◌, get_elem?, length, length-append,
  arith, if◌then◌else◌,
}
use konfirm.Api.{Test, TestPhase, TestTemplate, TestResult, TestRun, is_final, is_success}
use konfirm.Cluster.{Failure, M}
use konfirm.Cluster.Keeps.{Returns, returns_rules, Returns-pure}
use konfirm.Sweep.Returns.{with_item-Returns}
use konfirm.RunController.Sweep.{TestRunReconciler}
use konfirm.Sweep.{Swept, swept, failed}
use konfirm.RunController.Results.{Tally, add_test, count_test, tally_from}

-- The phase of the Test that a place points at.
abbrev pub phase_at : List Test → Option ℕ → Option TestPhase
phase_at items none = none
phase_at items (some p) = elim (get_elem? items p) [ none ↦ none | some t ↦ some t.status.phase ]

abbrev pub phases : List Test → List (Option ℕ) → List (Option TestPhase)
phases items [] = []
phases items (o ∷ os) = phase_at items o ∷ phases items os

-- How many have ended, and how many of those without success.
abbrev pub count_final : List (Option TestPhase) → ℕ
count_final [] = 0
count_final (none ∷ os) = count_final os
count_final (some p ∷ os) = let n = count_final os in if is_final p then n + 1 else n

abbrev pub count_failed : List (Option TestPhase) → ℕ
count_failed [] = 0
count_failed (none ∷ os) = count_failed os
count_failed (some p ∷ os) =
    let n = count_failed os in if is_final p then if is_success p then n else n + 1 else n

-- The counts that a loop adds to the ones it began with.
abbrev pub Adds : Tally → List (Option TestPhase) → Swept Tally → Type 0
Adds tally os (swept t) =
    (t.completions ≡ tally.completions + count_final os)
    × (t.failures ≡ tally.failures + count_failed os)
    × (t.passes + t.failures + tally.completions ≡ tally.passes + tally.failures + t.completions)
    × (length t.results + tally.completions ≡ length tally.results + t.completions)
Adds tally os _ = Unit

phase_at-some :
    (items : List Test) (p : ℕ) (t : Test)
    → get_elem? items p ≡ some t
    → phase_at items (some p) ≡ some t.status.phase
phase_at-some items p t got = ground arith

module _ (r : TestRunReconciler) (run : TestRun) (items : List Test) where
  add_test-Returns :
      {Q : Swept Tally → Type 0} (i : ℕ) (template : TestTemplate) (rest : M (Swept Tally))
      → ((e : Failure) → Q (failed e))
      → Returns Q rest
      → Returns Q (add_test r run i template rest)
  unfolding add_test
  add_test-Returns i template rest stopped kept = search (returns_rules, stopped) depth 9

  -- One more Test, and the rest of the loop.
  Adds-count_test :
      (template : TestTemplate) (t : Test) (tally : Tally) (os : List (Option TestPhase))
      (x : Swept Tally)
      → Adds (count_test template t tally) os x
      → Adds tally (some t.status.phase ∷ os) x
  unfolding count_test
  Adds-count_test template t tally os (swept u) a =
      let result : TestResult = record {
        description = template.description;
        passed = is_success t.status.phase;
        test = t.meta.name;
      } in
      ground (arith, length-append tally.results (result ∷ []))
  Adds-count_test template t tally os _ a = tt

  pub tally_from-Adds :
      (i : ℕ) (templates : List TestTemplate) (places : List (Option ℕ)) (tally : Tally)
      → length templates ≡ length places
      → Returns (Adds tally (phases items places)) (tally_from r run items i templates places tally)
  unfolding tally_from
  tally_from-Adds i [] [] tally e = Returns-pure _ (ground arith)
  tally_from-Adds i [] (o ∷ places) tally e = absurd (omega arith)
  tally_from-Adds i (template ∷ templates) [] tally e = absurd (omega arith)
  tally_from-Adds i (template ∷ templates) (none ∷ places) tally e =
      add_test-Returns i template _ (λ x. tt)
        (tally_from-Adds (suc i) templates places tally (omega arith))
  tally_from-Adds i (template ∷ templates) (some p ∷ places) tally e =
      with_item-Returns items p _ (λ missing. tt)
        λ t got. record {
          at = λ h.
              let x : Swept Tally =
                (tally_from r run items (suc i) templates places (count_test template t tally)
                  h).0 in
              subst (λ (o : Option TestPhase). Adds tally (o ∷ phases items places) x)
                (sym (phase_at-some items p t got))
                (Adds-count_test template t tally (phases items places) x (
                  (tally_from-Adds (suc i) templates places (count_test template t tally)
                      (omega arith)).at
                    h));
        }
