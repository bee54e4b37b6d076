-- ===== src/Sweep/Live.antt =====
-- The sweep: it never indexes out of range, its fuel is enough, and it takes
-- out the deleted items alone.
use konfirm.Base.{
  String, ℕ, zero, suc, pred, ◌+◌, ◌≤◌, ◌<◌, ◌≡◌, refl, Bool, true, ◌∙◌, false, Bool-cases, inl,
  inr, List, All, get_elem?-in, length-set, length-take, subst, set, take, length, ltb, arith,
}
use konfirm.Cluster.{History, M, Kind}
use konfirm.Cluster.Keeps.{Returns, Returns-pure, Returns-bind_returns, Returns-if}
use konfirm.Sweep.Defs.{Swept, swept, failed, out_of_range, is_gone, and_then, sweep_from, sweep}
use konfirm.Sweep.Count.{count, count_but}
use konfirm.Sweep.LiveBelow.{
  LiveBelow, LiveBelow-set, LiveBelow-suc, LiveBelow-take, LiveBelow-cut, LiveBelow-All,
}
use konfirm.Sweep.Returns.{with_item-Returns}
use konfirm.Sweep.Fill.{FillEnds, free_at-Returns, replaced, fill-FillEnds}

-- How the sweep ends: with live items, of which `c` pass `p`.
abbrev pub EndsLive : {O : Type 0} → (O → Bool) → (O → Bool) → ℕ → Swept (List O) → Type 0
EndsLive g p c (swept ts) = All (λ t. g t ≡ false) ts × (count p ts ≡ c)
EndsLive g p c (failed e) = Unit
EndsLive g p c out_of_range = ⊥

module _ {O : Type 0} (k : Kind O) (finalizer : String) (p : O → Bool)
    (dead : (t : O) → is_gone k t ≡ true → p t ≡ false) where
  -- The next round, behind the inner loop.
  next-EndsLive :
      (i j : ℕ) {n c d : ℕ} (x : Swept (ℕ × List O)) (f : ℕ → List O → M (Swept (List O)))
      → j < n
      → FillEnds (is_gone k) p i j n c x
      → c ≡ d
      → ((j' : ℕ) (ts : List O)
          → j' ≤ j
          → length ts ≡ j'
          → LiveBelow (is_gone k) (suc i) ts
          → count p ts ≡ d
          → Returns (EndsLive (is_gone k) p d) (f j' ts))
      → Returns (EndsLive (is_gone k) p d) (and_then x (λ y. f y.0 (take y.0 y.1)))
  unfolding and_then
  next-EndsLive i j (swept (j', ts)) f inside (low, high, same, live, more, counts) total go =
      go j' (take j' ts) high (length-take j' ts (omega arith))
        (elim (Bool-cases (ltb i j')) [
          | inl below ↦ LiveBelow-take (is_gone k) (suc i) j' ts (more (ground arith))
          | inr at ↦
              let ended : i ≡ j' = ground arith in
              subst (λ n. LiveBelow (is_gone k) (suc i) (take n ts)) ended
                (LiveBelow-cut (is_gone k) i ts live)
        ])
        (counts ∙ total)
  next-EndsLive i j (failed e) f inside ends total go = Returns-pure _ tt
  next-EndsLive i j out_of_range f inside ends total go = absurd ends

  sweep_from-EndsLive :
      (fuel i j : ℕ) (ts : List O) {c : ℕ}
      → length ts ≡ j
      → j < fuel + i
      → 0 < fuel
      → LiveBelow (is_gone k) i ts
      → count p ts ≡ c
      → Returns (EndsLive (is_gone k) p c) (sweep_from k finalizer fuel i j ts)
  unfolding sweep_from
  sweep_from-EndsLive zero i j ts same enough some_fuel live counts = absurd (omega arith)
  sweep_from-EndsLive (suc fuel) i j ts same enough some_fuel live counts =
      Returns-if (ltb i j) _ _
        (λ less.
          with_item-Returns ts i _ (λ missing. absurd (ground (arith, get_elem?-in ts i missing)))
            λ t got.
              Returns-if (is_gone k t) _ _
                (λ deleted.
                  free_at-Returns k finalizer i ts _ (ground arith) (λ e. tt)
                    (λ v.
                      Returns-bind_returns
                        (FillEnds (is_gone k) p i (pred j) (length (set ts i v))
                          (count_but p i (take (suc (pred j)) (set ts i v))))
                        _ _
                        (fill-FillEnds k finalizer p dead i (pred j) (set ts i v) (ground arith)
                          (ground (arith, length-set ts i v))
                          (LiveBelow-set (is_gone k) i ts v live))
                        (λ x ends.
                          next-EndsLive i (pred j) x _ (ground (arith, length-set ts i v)) ends
                            (replaced k finalizer p dead i j ts v t got (ground arith) same deleted
                              ∙ counts)
                            (λ j' ts' high len live' counts'.
                              sweep_from-EndsLive fuel (suc i) j' ts' len (ground arith)
                                (ground arith) live' counts'))))
                (λ alive.
                  sweep_from-EndsLive fuel (suc i) j ts same (omega arith) (ground arith)
                    (LiveBelow-suc (is_gone k) i ts t got alive live) counts))
        (λ ended. Returns-pure _ (LiveBelow-All (is_gone k) i ts (ground arith) live, counts))

  -- The sweep ends within its fuel and within the bounds of the list,
  -- whatever the server answers. Where no call fails, no deleted item is left, and for every check
  -- that deleted items fail, as many items pass it as before: the live items are kept, each as often.
  pub sweep-EndsLive :
      (ts : List O) (h : History) → EndsLive (is_gone k) p (count p ts) (sweep k finalizer ts h).0
  unfolding sweep
  sweep-EndsLive ts h =
      (sweep_from-EndsLive (suc (length ts)) 0 (length ts) ts refl (omega arith) (omega arith) tt
          refl).at
        h
