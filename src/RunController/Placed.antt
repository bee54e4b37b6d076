-- ===== src/RunController/Placed.antt =====
-- How `isRunning` maps tests to templates: right where the tests are listed in the order of their
-- indices, and a panic where the list is too short for an index.
use mathlib.Core.List.{append_assoc}
use konfirm.Base.{
  ℕ, zero, suc, ◌+◌, ◌-◌, ◌≤◌, ◌<◌, ◌≡◌, refl, sym, ap, ◌∙◌, true, Option, none, some, List, [],
  ◌∷◌, ◌++◌, pos, get_elem?, set, length, length-append, length-replicate, replicate, ltb, arith,
}
use konfirm.Api.{Test, TestRun}
use konfirm.Cluster.{History, ◌>>=◌, pure}
use konfirm.RunController.Sweep.{TestRunReconciler}
use konfirm.Sweep.{swept, with_item, and_then}
use konfirm.RunController.Mapping.{name_index, map_to, map_test, map_from, map_tests}
use konfirm.RunController.Reconcile.{panics, run_is_running, after}

-- The test at each position has that position as its index.
abbrev pub InOrder : List Test → Type 0
InOrder items =
    (k : ℕ)
    → k < length items
    → (t : Test) × (get_elem? items k ≡ some t) × (name_index t.meta.generate_name ≡ some (pos k))

-- Pointers to the `m` positions from `k` on.
abbrev pub pointers : ℕ → ℕ → List (Option ℕ)
pointers k zero = []
pointers k (suc m) = some k ∷ pointers (suc k) m

length-pointers : (k m : ℕ) → length (pointers k m) ≡ m
length-pointers k zero = refl
length-pointers k (suc m) = ap suc (length-pointers (suc k) m)

set-append {ℓ} :
    {A : Type ℓ} (xs : List A) (y : A) (ys : List A) (v : A)
    → set (xs ++ y ∷ ys) (length xs) v ≡ xs ++ v ∷ ys
set-append [] y ys v = refl
set-append (x ∷ xs) y ys v = ap (λ (l : List _). x ∷ l) (set-append xs y ys v)

pointers-suc : (k m : ℕ) → pointers k m ++ some (k + m) ∷ [] ≡ pointers k (suc m)
pointers-suc k zero = ground arith
pointers-suc k (suc m) = ground (arith, pointers-suc (suc k) m)

-- `mapped` when the first `at` of `n` places are filled.
abbrev filled : ℕ → ℕ → List (Option ℕ)
filled at left = pointers 0 at ++ replicate left none

set-filled : (at left : ℕ) → set (filled at (suc left)) at (some at) ≡ filled (suc at) left
set-filled at left =
    let xs = pointers 0 at in
    let tail : List (Option ℕ) = replicate left none in
    let same : 0 + at ≡ at = omega arith in
    (rw (length-pointers 0 at) at (set-append xs none tail (some at)))
    ∙ sym (append_assoc xs (some at ∷ []) tail)
    ∙ ap (λ (l : List (Option ℕ)). l ++ tail) (rw same at (pointers-suc 0 at))

length-filled : (at left : ℕ) → length (filled at left) ≡ at + left
length-filled at left = omega (
  arith,
  length-append (pointers 0 at) (replicate left none),
  length-pointers 0 at,
  length-replicate {A = Option ℕ} left none,
)

lt→ltb : (a b : ℕ) → a < b → ltb a b ≡ true
lt→ltb a b h = ground arith

module _ (r : TestRunReconciler) where
  map_test-InOrder :
      (items : List Test) (at : ℕ) (places : List (Option ℕ)) (h : History)
      → InOrder items
      → at < length items
      → at < length places
      → map_test r at (record { items = items; places = places }) h
        ≡ (swept (record { items = items; places = set places at (some at) }), h)
  unfolding map_test map_to with_item pure
  map_test-InOrder items at places h ord inside room =
      let (t, got, index) = ord at inside in
      ground (arith, lt→ltb at (length places) room, lt→ltb at (length items) inside)

  map_from-InOrder :
      (items : List Test) (left at rest : ℕ) (h : History)
      → InOrder items
      → at + left ≡ length items
      → map_from r left at (record { items = items; places = filled at (left + rest) }) h
        ≡ (swept (record { items = items; places = filled (at + left) rest }), h)
  unfolding map_from ◌>>=◌ pure and_then
  map_from-InOrder items zero at rest h ord e =
      let none_left : 0 + rest ≡ rest = omega arith in
      let all_seen : at + 0 ≡ at = omega arith in rw (none_left, all_seen)
  map_from-InOrder items (suc left) at rest h ord e =
      let one_more : suc left + rest ≡ suc (left + rest) = omega arith in
      let moved : at + suc left ≡ suc at + left = omega arith in
      rw (one_more, moved)
        (rw
          (
            map_test-InOrder items at (filled at (suc (left + rest))) h ord (omega arith)
                (omega (arith, length-filled at (suc (left + rest)))),
            set-filled at (left + rest),
          )
          (map_from-InOrder items left (suc at) rest h ord (omega arith)))

  -- Where the tests are listed in the order of the indices in their names, and there are no more of
  -- them than templates, the first places point at them one by one, the others stay empty, and
  -- nothing is written.
  pub map_tests-InOrder :
      (n : ℕ) (items : List Test) (h : History)
      → InOrder items
      → length items ≤ n
      → map_tests r n items h ≡ (
        swept (record {
          items = items;
          places = pointers 0 (length items) ++ replicate (n - length items) none;
        }),
        h,
      )
  unfolding map_tests
  map_tests-InOrder n items h ord fits =
      let rest = n - length items in
      let total : length items + rest ≡ n = omega arith in
      let start : 0 + length items ≡ length items = omega arith in
      rw (total, start) at (map_from-InOrder items (length items) 0 rest h ord start)

  -- A TestRun whose first listed Test has an index that is below the number of templates, but not
  -- below the number of listed Tests, makes `isRunning` panic.
  pub run_is_running_panics :
      (run : TestRun) (t : Test) (ts : List Test) (h : History) {i : ℕ}
      → name_index t.meta.generate_name ≡ some (pos i)
      → i < length run.spec.tests
      → length (t ∷ ts) ≤ i
      → (run_is_running r run (t ∷ ts) h).0 ≡ panics
  unfolding run_is_running map_tests map_from map_test map_to with_item and_then after ◌>>=◌ pure
  run_is_running_panics run t ts h {i} index below short =
      ground (arith, length-replicate {A = Option ℕ} (length run.spec.tests) none)
