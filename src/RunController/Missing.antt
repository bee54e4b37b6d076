-- ===== src/RunController/Missing.antt =====
-- The Tests that the second loop of `isRunning` creates.
use konfirm.Base.{
  ℕ, suc, ◌≡◌, refl, Option, none, some, Option-cases, inl, inr, List, [], ◌∷◌, All, get_elem?,
  get_elem?-in, length, concat, arith,
}
use konfirm.Api.{Test, TestTemplate, TestRun}
use konfirm.Cluster.{ok, History, create_test, event, pure, ◌>>=◌, call, emit, on_reply}
use konfirm.RunController.Loops.{InRange}
use konfirm.RunController.Sweep.{TestRunReconciler}
use konfirm.Sweep.{swept, with_item}
use konfirm.RunController.Results.{Tally, new_test, add_test, count_test, tally_from}

-- The Tests that were sent to be created, the latest first.
abbrev pub creations : History → List Test
creations [] = []
creations (create_test t ∷ h) = t ∷ creations h
creations (_ ∷ h) = creations h

-- One Test for each template whose place is empty, added to those of before in the templates' order.
abbrev pub with_missing : TestRun → ℕ → List TestTemplate → List (Option ℕ) → List Test → List Test
with_missing run i (template ∷ templates) (none ∷ places) ts =
    with_missing run (suc i) templates places (new_test run i template ∷ ts)
with_missing run i (template ∷ templates) (some p ∷ places) ts =
    with_missing run (suc i) templates places ts
with_missing run i _ _ ts = ts

-- The server accepts every new Test.
abbrev pub AcceptsTests : TestRunReconciler → Type 0
AcceptsTests r = (h : History) (t : Test) → (t' : Test) × (r.client.create_test h t ≡ ok t')

module _ (r : TestRunReconciler) (accepts : AcceptsTests r) (run : TestRun)
    (items : List Test) where
  counted :
      (i p : ℕ) (template : TestTemplate) (templates : List TestTemplate) (places : List (Option ℕ))
      (tally : Tally) (t : Test)
      → get_elem? items p ≡ some t
      → tally_from r run items i (template ∷ templates) (some p ∷ places) tally
        ≡ tally_from r run items (suc i) templates places (count_test template t tally)
  unfolding tally_from with_item
  counted i p template templates places tally t got = ground (arith, got)

  -- Where the server accepts new Tests and the places point at Tests of the list, the loop over the
  -- templates ends without an error, and has created exactly one Test for each template whose place
  -- is empty, in the templates' order.
  pub tally_from-creates :
      (i : ℕ) (templates : List TestTemplate) (places : List (Option ℕ)) (tally : Tally)
      (h : History)
      → All (InRange (length items)) places
      → (u : Tally) × ((tally_from r run items i templates places tally h).0 ≡ swept u)
        × (creations (tally_from r run items i templates places tally h).1
            ≡ with_missing run i templates places (creations h))
  unfolding tally_from add_test with_item ◌>>=◌ call emit on_reply pure
  tally_from-creates i [] places tally h range = (tally, refl, refl)
  tally_from-creates i (template ∷ templates) [] tally h range = (tally, refl, refl)
  tally_from-creates i (template ∷ templates) (none ∷ places) tally h (here, range) =
      let test = new_test run i template in
      let (t, accepted) = accepts h test in
      rw accepted (
        tally_from-creates (suc i) templates places tally
          (event run.meta "Normal" "CreatedTest" (concat ("Created test " ∷ t.meta.name ∷ []))
            ∷ create_test test
            ∷ h)
          range)
  tally_from-creates i (template ∷ templates) (some p ∷ places) tally h (here, range) =
      elim (Option-cases (get_elem? items p)) [
        | inl missing ↦ absurd (omega (arith, get_elem?-in items p missing))
        | inr (t, got) ↦
            rw (counted i p template templates places tally t got)
              (tally_from-creates (suc i) templates places (count_test template t tally) h range)
      ]
