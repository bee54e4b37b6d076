-- ===== src/Sweep/Count.antt =====
-- Counts of the items that pass a check, for the sweep.
use konfirm.Base.{
  ℕ, zero, suc, ◌+◌, ◌<◌, ◌≡◌, refl, ap, Bool, some, List, [], ◌∷◌, get_elem?, set, take, length,
  arith, if◌then◌else◌,
}

module _ {O : Type 0} (p : O → Bool) where
  abbrev pub count : List O → ℕ
  count [] = 0
  count (t ∷ ts) = let n = count ts in if p t then suc n else n

  -- Without the item at a position.
  abbrev pub count_but : ℕ → List O → ℕ
  count_but i [] = 0
  count_but zero (t ∷ ts) = count ts
  count_but (suc i) (t ∷ ts) = let n = count_but i ts in if p t then suc n else n

  abbrev pub one : O → ℕ
  one t = if p t then 1 else 0

  pub count_but-set : (i : ℕ) (ts : List O) (v : O) → count_but i (set ts i v) ≡ count_but i ts
  count_but-set i [] v = refl
  count_but-set zero (t ∷ ts) v = refl
  count_but-set (suc i) (t ∷ ts) v = rw (count_but-set i ts v)

  pub count-one :
      (i : ℕ) (ts : List O) (t : O) → get_elem? ts i ≡ some t → count ts ≡ count_but i ts + one t
  count-one i [] t got = absurd (ground arith)
  count-one zero (u ∷ ts) t got = ground arith
  count-one (suc i) (u ∷ ts) t got = ground (arith, count-one i ts t got)

  pub count_but-take :
      (i n : ℕ) (ts : List O) (t : O)
      → get_elem? ts n ≡ some t
      → i < n
      → count_but i (take (suc n) ts) ≡ count_but i (take n ts) + one t
  count_but-take i n [] t got less = absurd (ground arith)
  count_but-take i zero (u ∷ ts) t got less = absurd (omega arith)
  count_but-take zero (suc n) (u ∷ ts) t got less = count-take n ts t got
    where
      count-take :
          (m : ℕ) (us : List O) (v : O)
          → get_elem? us m ≡ some v
          → count (take (suc m) us) ≡ count (take m us) + one v
      count-take m [] v e = absurd (ground arith)
      count-take zero (u' ∷ us) v e = ground arith
      count-take (suc m) (u' ∷ us) v e = ground (arith, count-take m us v e)
  count_but-take (suc i) (suc n) (u ∷ ts) t got less =
      ground (arith, count_but-take i n ts t got (omega arith))

  pub count_but-last : (n : ℕ) (ts : List O) → count_but n (take (suc n) ts) ≡ count (take n ts)
  count_but-last zero [] = refl
  count_but-last zero (t ∷ ts) = refl
  count_but-last (suc n) [] = refl
  count_but-last (suc n) (t ∷ ts) = rw (count_but-last n ts)

  pub take-set : (n i : ℕ) (ts : List O) (v : O) → take n (set ts i v) ≡ set (take n ts) i v
  take-set zero i ts v = refl
  take-set (suc n) i [] v = refl
  take-set (suc n) zero (t ∷ ts) v = refl
  take-set (suc n) (suc i) (t ∷ ts) v = ap (λ (l : List O). t ∷ l) (take-set n i ts v)

  pub count-set :
      (i : ℕ) (ts : List O) (v : O) → i < length ts → count (set ts i v) ≡ count_but i ts + one v
  count-set i [] v less = absurd (omega arith)
  count-set zero (t ∷ ts) v less = ground arith
  count-set (suc i) (t ∷ ts) v less = ground (arith, count-set i ts v (omega arith))

  pub take-length : (n : ℕ) (ts : List O) → length ts ≡ n → take n ts ≡ ts
  take-length zero [] e = refl
  take-length zero (t ∷ ts) e = absurd (omega arith)
  take-length (suc n) [] e = refl
  take-length (suc n) (t ∷ ts) e = ap (λ (l : List O). t ∷ l) (take-length n ts (omega arith))
