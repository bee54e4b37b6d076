-- ===== src/Sweep/Defs.antt =====
-- "Handle deleted tests" in `TestRunReconciler.Reconcile`, and "Handle deleted test runs" in
-- `TestSuiteReconciler.Reconcile`, which is the same code over another type: the loop that frees
-- deleted objects of the finalizer and closes the gaps that they leave in `Items`.
use konfirm.Base.{
  ℕ, zero, suc, String, Bool, none, some, List, get_elem?, set, take, length, pred, ltb, is_some,
  if◌then◌else◌,
}
use konfirm.Cluster.{Failure, M, pure, ◌>>=◌, on_error, Kind}
use konfirm.Helpers.{remove_finalizer}

-- How a loop over `Items` ends: with its value, with an error to return, or with an index out
-- of range, which panics.
pub data Swept (A : Type 0) : Type 0 where
  swept : A → Swept A
  failed : Failure → Swept A
  out_of_range : Swept A

-- `Items[i].DeletionTimestamp != nil`
abbrev pub is_gone : {O : Type 0} → Kind O → O → Bool
is_gone k o = is_some (Kind.meta k o).deletion_timestamp

-- `items[i]` of a slice, and the code that uses it.
unfoldable pub with_item : {A O : Type 0} → List O → ℕ → (O → M (Swept A)) → M (Swept A)
with_item items i f = elim (get_elem? items i) [ none ↦ pure out_of_range | some t ↦ f t ]

-- A loop's end, and the code behind the loop.
unfoldable pub and_then : {A B : Type 0} → Swept A → (A → M (Swept B)) → M (Swept B)
and_then (swept a) f = f a
and_then (failed e) f = pure (failed e)
and_then out_of_range f = pure out_of_range

module _ {O : Type 0} (k : Kind O) (finalizer : String) where
  -- The closure `removeFinalizer` on `&Items[i]`: the patched object stays in its place.
  unfoldable pub free_at : {A : Type 0} → ℕ → List O → (List O → M (Swept A)) → M (Swept A)
  free_at i items rest = with_item items i (λ t. do
    (_, failure, t') ← remove_finalizer k finalizer t
    on_error failure (λ e. pure (failed e)) (rest (set items i t')))

  -- `for j--; i < j; j--`, at the `j` of its check. It frees Items[i] once more at each deleted
  -- Items[j]. The result is the last `j` and the items.
  unfoldable pub fill : ℕ → ℕ → List O → M (Swept (ℕ × List O))
  fill i zero items = pure (swept (zero, items))
  fill i (suc j) items =
      let rest = λ (items' : List O). fill i j items' in
      if ltb i (suc j)
      then with_item items (suc j)
          (λ t. if is_gone k t then free_at i items rest else pure (swept (suc j, set items i t)))
      else pure (swept (suc j, items))

  -- The outer loop, `for i, j := 0, len(Items); i < j; i++`. Each round takes 1 off `j - i` at
  -- least, so fuel above the number of items is enough; running out of it would show as a panic.
  unfoldable pub sweep_from : ℕ → ℕ → ℕ → List O → M (Swept (List O))
  sweep_from zero i j items = pure out_of_range
  sweep_from (suc fuel) i j items =
      let next = λ (j' : ℕ) (items' : List O). sweep_from fuel (suc i) j' items' in
      if ltb i j
      then with_item items i (λ t.
        if is_gone k t
        then free_at i items (λ items'. do
          filled ← fill i (pred j) items'
          and_then filled (λ x. next x.0 (take x.0 x.1)))
        else next j items)
      else pure (swept items)

  unfoldable pub sweep : List O → M (Swept (List O))
  unfolding sweep_from
  sweep items = sweep_from (suc (length items)) 0 (length items) items
