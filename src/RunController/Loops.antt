-- ===== src/RunController/Loops.antt =====
-- The places that the loop of `isRunning` fills: one for each template, with tests of the list.
use konfirm.Base.{
  ltb, Bool-cases, inl, inr, Option, [], ◌∷◌, ◌<◌, ◌∙◌, sym, subst, All, set, replicate, ℕ, zero,
  suc, ◌≡◌, none, some, List, length, length-set, length-replicate, arith,
}
use konfirm.Api.{Test}
use konfirm.Cluster.{M}
use konfirm.Cluster.Keeps.{
  Returns, Returns-pure, Returns-bind, Returns-on_error, Returns-bind_returns,
}
use konfirm.RunController.Sweep.{TestRunReconciler}
use konfirm.Sweep.{Swept, swept, failed, out_of_range, and_then}
use konfirm.RunController.Mapping.{
  Mapped, Slot, slot, negative, invalid, place, map_to, map_test, map_from, map_tests,
}
use konfirm.Sweep.Returns.{with_item-Returns}

abbrev pub InRange : ℕ → Option ℕ → Type 0
InRange n none = Unit
InRange n (some p) = p < n

-- As many places as `n`, that point at tests of the list.
abbrev pub Fits : ℕ → Mapped → Type 0
Fits n m = (length m.places ≡ n) × All (InRange (length m.items)) m.places

abbrev pub HasPlaces : ℕ → Swept Mapped → Type 0
HasPlaces n (swept m) = Fits n m
HasPlaces n _ = Unit

InRange-set :
    (n : ℕ) (places : List (Option ℕ)) (i p : ℕ)
    → p < n
    → All (InRange n) places
    → All (InRange n) (set places i (some p))
InRange-set n [] i p h a = tt
InRange-set n (o ∷ places) zero p h (here, others) = (h, others)
InRange-set n (o ∷ places) (suc i) p h (here, others) = (here, InRange-set n places i p h others)

InRange-none : (n m : ℕ) → All (InRange n) (replicate m none)
InRange-none n zero = tt
InRange-none n (suc m) = (tt, InRange-none n m)

module _ (r : TestRunReconciler) (n : ℕ) where
  place-HasPlaces : (i : ℕ) (m : Mapped) → Fits n m → HasPlaces n (place r i m)
  place-HasPlaces i m (e, range) = elim (Bool-cases (ltb i (length m.items))) [
    | inr outside ↦ rw outside tt
    | inl inside ↦
        rw inside
          (length-set m.places i (some i) ∙ e, InRange-set _ m.places i i (ground arith) range)
  ]

  kept :
      (at : ℕ) (t : Test) (m : Mapped) → Fits n m → Fits n (record m { items = set m.items at t })
  kept at t m (e, range) =
      (e, subst (λ k. All (InRange k) m.places) (sym (length-set m.items at t)) range)

  map_to-HasPlaces :
      (s : Slot) (at : ℕ) (t : Test) (m : Mapped)
      → Fits n m
      → Returns (HasPlaces n) (map_to r s at t m)
  unfolding map_to
  map_to-HasPlaces (slot i) at t m e = Returns-pure _ (place-HasPlaces i m e)
  map_to-HasPlaces negative at t m e = Returns-pure _ tt
  map_to-HasPlaces invalid at t m e = Returns-bind _ _ (λ (_, failure, t').
      Returns-on_error failure _ _ (λ e'. Returns-pure _ tt) (Returns-pure _ (kept at t' m e)))

  -- The rounds that follow a round of the loop.
  and_then-HasPlaces :
      (x : Swept Mapped) (f : Mapped → M (Swept Mapped))
      → HasPlaces n x
      → ((m : Mapped) → Fits n m → Returns (HasPlaces n) (f m))
      → Returns (HasPlaces n) (and_then x f)
  unfolding and_then
  and_then-HasPlaces (swept m) f e rest = rest m e
  and_then-HasPlaces (failed x) f e rest = Returns-pure _ tt
  and_then-HasPlaces out_of_range f e rest = Returns-pure _ tt

  map_from-HasPlaces :
      (left at : ℕ) (m : Mapped) → Fits n m → Returns (HasPlaces n) (map_from r left at m)
  unfolding map_from map_test
  map_from-HasPlaces zero at m e = Returns-pure _ e
  map_from-HasPlaces (suc left) at m e =
      Returns-bind_returns (HasPlaces n) _ _
        (with_item-Returns m.items at _ (λ missing. tt) (λ t got. map_to-HasPlaces _ at t m e))
        λ x e'.
          and_then-HasPlaces x (λ m'. map_from r left (suc at) m') e'
            (λ m' q. map_from-HasPlaces left (suc at) m' q)

  -- `len(mapped)` is the number of templates.
  pub map_tests-HasPlaces : (items : List Test) → Returns (HasPlaces n) (map_tests r n items)
  unfolding map_tests
  map_tests-HasPlaces items =
      map_from-HasPlaces (length items) 0 _ (length-replicate n none, InRange-none _ n)
