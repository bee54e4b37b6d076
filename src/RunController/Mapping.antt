-- ===== src/RunController/Mapping.antt =====
-- "Map tests" in `TestRunReconciler.isRunning`: the index in a test's generated name says which
-- template it belongs to.
use konfirm.Base.{
  ℕ, zero, suc, ◌-◌, String, Option, none, some, List, ℤ, pos, negsuc, set, take, drop, length, ltb,
  leb, replicate, codes, atoi, if◌then◌else◌,
}
use konfirm.Api.{Test}
use konfirm.Cluster.{M, pure, ◌>>=◌, on_error, test_kind}
use konfirm.Helpers.{clean_up}
use konfirm.RunController.Sweep.{TestRunReconciler, run_finalizer}
use konfirm.Sweep.{Swept, swept, failed, out_of_range, with_item, and_then}

-- `strconv.Atoi(GenerateName[l-2 : l-1])`, for a name of at least four bytes.
unfoldable pub name_index : String → Option ℤ
unfolding atoi
name_index generate_name =
    let bytes = codes generate_name in
    let l = length bytes in if leb 4 l then atoi (take 1 (drop (l - 2) bytes)) else none

-- Where a test goes: to a place of `mapped`, to a negative one, or nowhere.
pub data Slot : Type 0 where
  slot : ℕ → Slot
  negative invalid : Slot

-- `i <= maxIndex` for `maxIndex = n - 1` over the integers.
abbrev pub slot_for : ℕ → Option ℤ → Slot
slot_for n none = invalid
slot_for n (some (pos i)) = if ltb i n then slot i else invalid
slot_for n (some (negsuc i)) = negative

-- The tests, which a cleanup may have changed in place, and `mapped`, whose pointers into them are
-- positions.
pub record Mapped : Type 0 where
  pub items : List Test
  pub places : List (Option ℕ)

module _ (r : TestRunReconciler) where
  -- `mapped[i] = &tests.Items[i]`: both indices are the `i` of the inner scope, the parsed one.
  abbrev pub place : ℕ → Mapped → Swept Mapped
  place i m =
      if ltb i (length m.items)
      then swept (record m { places = set m.places i (some i) })
      else out_of_range

  -- One round of the loop, on `tests.Items[at]`.
  unfoldable pub map_to : Slot → ℕ → Test → Mapped → M (Swept Mapped)
  map_to (slot i) at t m = pure (place i m)
  map_to negative at t m = pure out_of_range
  map_to invalid at t m = do
    (_, failure, t') ← clean_up (test_kind r.client) r.client run_finalizer t
    on_error failure (λ e. pure (failed e)) (pure (swept (record m { items = set m.items at t' })))

  unfoldable pub map_test : ℕ → Mapped → M (Swept Mapped)
  unfolding map_to
  map_test at m =
      with_item m.items at
        (λ t. map_to (slot_for (length m.places) (name_index t.meta.generate_name)) at t m)

  -- `for i := range tests.Items`, with the number of rounds left.
  unfoldable pub map_from : ℕ → ℕ → Mapped → M (Swept Mapped)
  map_from zero at m = pure (swept m)
  map_from (suc left) at m = do
    mapped ← map_test at m
    and_then mapped (λ m'. map_from left (suc at) m')

  unfoldable pub map_tests : ℕ → List Test → M (Swept Mapped)
  unfolding map_from map_test
  map_tests n items =
      map_from (length items) 0 (record { items = items; places = replicate n none })
