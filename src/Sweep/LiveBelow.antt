-- ===== src/Sweep/LiveBelow.antt =====
-- The live items at the front of a list, for the sweep.
use konfirm.Base.{
  ℕ, zero, suc, ◌≤◌, ◌≡◌, Bool, false, some, List, [], ◌∷◌, All, get_elem?, set, take, length,
  arith,
}

module _ {O : Type 0} (gone : O → Bool) where
  -- The items before position `i` are live.
  abbrev pub LiveBelow : ℕ → List O → Type 0
  LiveBelow zero ts = Unit
  LiveBelow (suc i) [] = Unit
  LiveBelow (suc i) (t ∷ ts) = (gone t ≡ false) × LiveBelow i ts

  pub LiveBelow-set : (i : ℕ) (ts : List O) (v : O) → LiveBelow i ts → LiveBelow i (set ts i v)
  LiveBelow-set zero ts v b = tt
  LiveBelow-set (suc i) [] v b = tt
  LiveBelow-set (suc i) (t ∷ ts) v (a, b) = (a, LiveBelow-set i ts v b)

  pub LiveBelow-set_live :
      (i : ℕ) (ts : List O) (v : O)
      → gone v ≡ false
      → LiveBelow i ts
      → LiveBelow (suc i) (set ts i v)
  LiveBelow-set_live zero [] v e b = tt
  LiveBelow-set_live zero (t ∷ ts) v e b = (e, tt)
  LiveBelow-set_live (suc i) [] v e b = tt
  LiveBelow-set_live (suc i) (t ∷ ts) v e (a, b) = (a, LiveBelow-set_live i ts v e b)

  pub LiveBelow-suc :
      (i : ℕ) (ts : List O) (v : O)
      → get_elem? ts i ≡ some v
      → gone v ≡ false
      → LiveBelow i ts
      → LiveBelow (suc i) ts
  LiveBelow-suc zero [] v got e b = tt
  LiveBelow-suc zero (t ∷ ts) v got e b = (ground arith, tt)
  LiveBelow-suc (suc i) [] v got e b = tt
  LiveBelow-suc (suc i) (t ∷ ts) v got e (a, b) = (a, LiveBelow-suc i ts v got e b)

  pub LiveBelow-take : (i n : ℕ) (ts : List O) → LiveBelow i ts → LiveBelow i (take n ts)
  LiveBelow-take zero n ts b = tt
  LiveBelow-take (suc i) zero ts b = tt
  LiveBelow-take (suc i) (suc n) [] b = tt
  LiveBelow-take (suc i) (suc n) (t ∷ ts) (a, b) = (a, LiveBelow-take i n ts b)

  -- Cut at `i`, the items are live beyond it as well.
  pub LiveBelow-cut : (i : ℕ) (ts : List O) → LiveBelow i ts → LiveBelow (suc i) (take i ts)
  LiveBelow-cut zero ts b = tt
  LiveBelow-cut (suc i) [] b = tt
  LiveBelow-cut (suc i) (t ∷ ts) (a, b) = (a, LiveBelow-cut i ts b)

  pub LiveBelow-All :
      (i : ℕ) (ts : List O) → length ts ≤ i → LiveBelow i ts → All (λ t. gone t ≡ false) ts
  LiveBelow-All i [] h b = tt
  LiveBelow-All zero (t ∷ ts) h b = absurd (omega arith)
  LiveBelow-All (suc i) (t ∷ ts) h (a, b) = (a, LiveBelow-All i ts (omega arith) b)
