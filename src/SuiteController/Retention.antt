-- ===== src/SuiteController/Retention.antt =====
-- The history limit of a TestSuite.
use konfirm.Base.{
  get_elem?, ◌≡◌, refl, ℕ, zero, suc, ◌-◌, ◌++◌, ap, ◌≤◌, ltb, some, List, [], ◌∷◌, length, take,
  drop, All, All-map, All-drop, length-drop, arith,
}
use konfirm.Api.{TestRun, TestSuite}
use konfirm.Cluster.{Effect, History, delete_run, patch_run, run_kind, pure}
use konfirm.Cluster.Keeps.{
  Keeps, Keeps-bind, Keeps-call, Keeps-pure, Keeps-if, Keeps-on_error, Returns, Returns-bind,
  Returns-pure, Returns-if, Returns-on_error,
}
use konfirm.Helpers.{clean_up, clean_up_all}
use konfirm.Helpers.Keeps.{clean_up-Keeps_of, clean_up_all-Keeps_of}
use konfirm.SuiteController.Defs.{TestSuiteReconciler, suite_finalizer, next, stop, later}
use konfirm.SuiteController.Schedule.{enforce_history}
use konfirm.SuiteController.Unschedule.{FlowsTo}

abbrev pub IsOlder : TestRun → TestRun → Type 0
IsOlder t u = t.meta.creation_timestamp ≤ u.meta.creation_timestamp

-- In the order of their creation.
abbrev pub AreSorted : List TestRun → Type 0
AreSorted [] = Unit
AreSorted (t ∷ ts) = All (IsOlder t) ts × AreSorted ts

abbrev pub IsAmong : TestRun → List TestRun → Type 0
IsAmong t ts = (i : ℕ) × (get_elem? ts i ≡ some t)

-- A run is given up only where it is one of the first `n`, and no younger than any of the others.
abbrev pub MayGo : ℕ → List TestRun → TestRun → Type 0
MayGo n runs t = IsAmong t (take n runs) × All (IsOlder t) (drop n runs)

abbrev pub Spares : ℕ → List TestRun → Effect → Type 0
Spares n runs (delete_run t) = MayGo n runs t
Spares n runs (patch_run t new) = MayGo n runs t
Spares n runs _ = Unit

-- The runs that stay are the last of the list, no more than the limit, and no fewer where
-- there are as many.
pub record IsKept (suite : TestSuite) (runs kept : List TestRun) : Type 0 where
  pub last : (given_up : List TestRun) × (runs ≡ given_up ++ kept)
  pub bounded : length kept ≤ suite.spec.history_limit
  pub no_fewer : suite.spec.history_limit ≤ length runs → length kept ≡ suite.spec.history_limit

split_sorted :
    (n : ℕ) (ts : List TestRun) → AreSorted ts → All (λ t. All (IsOlder t) (drop n ts)) (take n ts)
split_sorted zero ts s = tt
split_sorted (suc n) [] s = tt
split_sorted (suc n) (t ∷ ts) (first, s) = (All-drop (IsOlder t) n ts first, split_sorted n ts s)

All-IsAmong : (ts : List TestRun) → All (λ t. IsAmong t ts) ts
All-IsAmong [] = tt
All-IsAmong (t ∷ ts) = ((0, refl), All-map ts (λ u (i, at). (suc i, at)) (All-IsAmong ts))

All-MayGo :
    (n : ℕ) (runs ts : List TestRun)
    → All (λ t. IsAmong t (take n runs)) ts
    → All (λ t. All (IsOlder t) (drop n runs)) ts
    → All (MayGo n runs) ts
All-MayGo n runs [] among older = tt
All-MayGo n runs (t ∷ ts) (a, among) (o, older) = ((a, o), All-MayGo n runs ts among older)

take-drop : (n : ℕ) (ts : List TestRun) → ts ≡ take n ts ++ drop n ts
take-drop zero ts = refl
take-drop (suc n) [] = refl
take-drop (suc n) (t ∷ ts) = ap (λ us. t ∷ us) (take-drop n ts)

drop-IsKept :
    (suite : TestSuite) (runs : List TestRun)
    → suite.spec.history_limit ≤ length runs
    → IsKept suite runs (drop (length runs - suite.spec.history_limit) runs)
drop-IsKept suite runs over =
    let n = length runs - suite.spec.history_limit in
    let size = length-drop n runs in
    record {
      last = (take n runs, take-drop n runs);
      bounded = omega arith;
      no_fewer = λ _. omega arith;
    }

all-IsKept :
    (suite : TestSuite) (runs : List TestRun)
    → length runs ≤ suite.spec.history_limit
    → IsKept suite runs runs
all-IsKept suite runs within = record {
  last = ([], refl);
  bounded = within;
  no_fewer = λ over. omega arith;
}

module _ (r : TestSuiteReconciler) where
  clean_up-Spares :
      (n : ℕ) (runs : List TestRun) (t : TestRun)
      → MayGo n runs t
      → Keeps (All (Spares n runs)) (clean_up (run_kind r.client) r.client suite_finalizer t)
  unfolding run_kind
  clean_up-Spares n runs t may =
      clean_up-Keeps_of (run_kind r.client) t (λ new. Keeps-call _ _ (λ h k. (may, k)))
        (Keeps-call _ _ (λ h k. (may, k))) r.client suite_finalizer

  clean_old-Spares :
      (n : ℕ) (runs : List TestRun)
      → AreSorted runs
      → Keeps
          (All (Spares n runs))
          (clean_up_all (run_kind r.client) r.client suite_finalizer (take n runs))
  clean_old-Spares n runs sorted =
      clean_up_all-Keeps_of (run_kind r.client) r.client suite_finalizer (take n runs) (
        All-map (take n runs) (λ t may. clean_up-Spares n runs t may)
          (All-MayGo n runs (take n runs) (All-IsAmong (take n runs)) (split_sorted n runs sorted)))

  enforce_history-Spares :
      (suite : TestSuite) (runs : List TestRun)
      → AreSorted runs
      → Keeps
          (All (Spares (length runs - suite.spec.history_limit) runs))
          (enforce_history r suite runs)
  unfolding enforce_history
  enforce_history-Spares suite runs sorted =
      Keeps-if (ltb suite.spec.history_limit (length runs)) _ (pure (next runs))
        (λ over.
          Keeps-bind
            (clean_up_all (run_kind r.client) r.client suite_finalizer
              (take (length runs - suite.spec.history_limit) runs))
            _ (clean_old-Spares (length runs - suite.spec.history_limit) runs sorted)
            (λ x.
              Keeps-on_error x.1 _ _ (λ e. Keeps-pure (stop (later r)))
                (Keeps-pure (next (drop (length runs - suite.spec.history_limit) runs)))))
        (λ within. Keeps-pure (next runs))

  enforce_history-IsKept :
      (suite : TestSuite) (runs : List TestRun)
      → Returns (FlowsTo (IsKept suite runs)) (enforce_history r suite runs)
  unfolding enforce_history
  enforce_history-IsKept suite runs =
      Returns-if (ltb suite.spec.history_limit (length runs)) _ _
        (λ over.
          Returns-bind
            (clean_up_all (run_kind r.client) r.client suite_finalizer
              (take (length runs - suite.spec.history_limit) runs))
            _
            (λ x.
              Returns-on_error x.1 _ _ (λ e. Returns-pure (stop (later r)) tt)
                (Returns-pure (next (drop (length runs - suite.spec.history_limit) runs))
                  (drop-IsKept suite runs (ground arith)))))
        (λ within. Returns-pure (next runs) (all-IsKept suite runs (ground arith)))

  -- On runs in the order of their creation, `enforce_history` goes on with the last of them, as many
  -- as the limit allows, or fails; and whatever the server answers, it deletes or releases only
  -- runs that stand before them, none of which is younger.
  pub enforce_history-KeepsYoungest :
      (suite : TestSuite) (runs : List TestRun) (h : History)
      → AreSorted runs
      → All (Spares (length runs - suite.spec.history_limit) runs) h
      → FlowsTo (IsKept suite runs) (enforce_history r suite runs h).0
        × All
            (Spares (length runs - suite.spec.history_limit) runs)
            (enforce_history r suite runs h).1
  enforce_history-KeepsYoungest suite runs h sorted k =
      ((enforce_history-IsKept suite runs).at h, (enforce_history-Spares suite runs sorted).at h k)
