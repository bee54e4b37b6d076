-- ===== src/RunController/Reports.antt =====
-- The status patch with which `isRunning` ends.
use konfirm.Base.{
  ℕ, ◌≡◌, refl, sym, subst, ◌∙◌, Bool-cases, inl, inr, ◌==◌, List, ◌∷◌, length, arith,
}
use konfirm.Api.{Test, TestRun, TestRunPhase}
use konfirm.Cluster.{
  Reply, ok, err, History, patch_run_status, pure, ◌>>=◌, call, emit, on_reply, on_error,
}
use konfirm.RunController.Sweep.{TestRunReconciler}
use konfirm.Sweep.{swept}
use konfirm.RunController.Mapping.{Mapped, map_tests}
use konfirm.RunController.Results.{Tally, no_results, tally_from}
use konfirm.RunController.Reconcile.{
  conclude, in_progress, complete, patch_status_of, verdict, run_is_running, after, finish,
  retry_run, retry_found,
}
use konfirm.RunController.Concluded.{concluded}
use konfirm.RunController.Decided.{verdict_for, concluded-verdict, length-phases}
use konfirm.RunController.Loops.{HasPlaces, map_tests-HasPlaces}
use konfirm.RunController.Missing.{AcceptsTests, tally_from-creates}
use konfirm.RunController.Verdicts.{phases, tally_from-Adds, Adds}

-- The latest write patches the status of `run` to `phase`.
abbrev pub Reports : TestRun → TestRunPhase → History → Type 0
Reports run phase h =
    (new : TestRun) × (h' : History) × (h ≡ patch_run_status run new ∷ h')
    × (new.status.phase ≡ phase)

module _ (r : TestRunReconciler) where
  answered :
      (reply : Reply TestRun) (h : History)
      → (on_reply reply (λ e. retry_run r e) (λ t. finish) h).1 ≡ h
  unfolding on_reply pure
  answered (ok t) h = refl
  answered (err e) h = refl

  answered_found :
      (reply : Reply TestRun) (h : History)
      → (on_reply reply (λ e. retry_found r e) (λ t. finish) h).1 ≡ h
  unfolding on_reply on_error pure
  answered_found (ok t) h = refl
  answered_found (err e) h = ground arith

  in_progress-Reports :
      (orig run : TestRun) (n : ℕ) (t : Tally) (h : History)
      → Reports orig TestRunPhase.running (in_progress r orig run n t h).1
  unfolding in_progress patch_status_of ◌>>=◌ call
  in_progress-Reports orig run n t h = (_, h, answered _ _, refl)

  complete-Reports :
      (orig run : TestRun) (t : Tally) (h : History)
      → Reports orig (verdict r run t).status.phase (complete r orig run t h).1
  unfolding complete patch_status_of ◌>>=◌ call emit
  complete-Reports orig run t h = (_, _, answered_found _ _, refl)

  conclude-Reports :
      (run : TestRun) (n : ℕ) (t : Tally) (h : History)
      → Reports run (concluded n t) (conclude r run n t h).1
  unfolding conclude
  conclude-Reports run n t h =
      let results = record run { status = record run.status { results = t.results } } in
      elim (Bool-cases (n == t.completions)) [
        | inr some_open ↦ rw some_open (in_progress-Reports run results n t h)
        | inl all_ended ↦
            let same : (verdict r results t).status.phase ≡ concluded n t = ground arith in
            rw all_ended (
              subst (λ phase. Reports run phase (complete r run results t h).1)
                (same ∙ rw all_ended refl) (complete-Reports run results t h))
      ]

-- Where the server accepts new Tests and the tests of a TestRun have been mapped to its templates,
-- `isRunning` ends by patching the TestRun's status to the phase that the phases of the mapped Tests
-- decide.
pub run_is_running-Reports :
    (r : TestRunReconciler) (run : TestRun) (tests : List Test) (h : History) {m : Mapped}
    → AcceptsTests r
    → (map_tests r (length run.spec.tests) tests h).0 ≡ swept m
    → Reports run (verdict_for (phases m.items m.places)) (run_is_running r run tests h).1
unfolding run_is_running ◌>>=◌ after
run_is_running-Reports r run tests h {m} accepts mapped =
    let n = length run.spec.tests in
    let os = phases m.items m.places in
    let h' = (map_tests r n tests h).1 in
    let (places, range) = subst (HasPlaces n) mapped ((map_tests-HasPlaces r n tests).at h) in
    let x = tally_from r run m.items 0 run.spec.tests m.places no_results h' in
    let (u, summed, created) =
      tally_from-creates r accepts run m.items 0 run.spec.tests m.places no_results h' range in
    let adds =
      subst (Adds no_results os) summed
        ((tally_from-Adds r run m.items 0 run.spec.tests m.places no_results (sym places)).at h') in
    let decided =
      concluded-verdict r os (length m.places) u (sym (length-phases m.items m.places)) adds in
    rw (mapped, summed)
      (subst (λ phase. Reports run phase (conclude r run (length m.places) u x.1).1) decided
        (conclude-Reports r run (length m.places) u x.1))
