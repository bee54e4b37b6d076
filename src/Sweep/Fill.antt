-- ===== src/Sweep/Fill.antt =====
-- The inner loop of the sweep: where it ends, and what it keeps.
use konfirm.Base.{
  String, ℕ, zero, suc, pred, ◌≤◌, ◌<◌, ◌≡◌, refl, sym, ap, Bool, true, some, get_elem?, ◌∙◌, false,
  List, get_elem?-in, length-set, length-take, set, take, length, ltb, arith,
}
use konfirm.Cluster.{Failure, M, Kind}
use konfirm.Cluster.Keeps.{Returns, Returns-pure, Returns-bind, Returns-if, Returns-on_error}
use konfirm.Sweep.Defs.{Swept, swept, failed, out_of_range, is_gone, free_at, fill}
use konfirm.Sweep.Count.{
  count, count_but, one, count_but-set, count-one, count_but-take, count_but-last, take-set,
  count-set, take-length,
}
use konfirm.Sweep.LiveBelow.{LiveBelow, LiveBelow-set, LiveBelow-set_live}
use konfirm.Sweep.Returns.{with_item-Returns}

-- How the inner loop ends, from an index of at most `j`, with `n` items, of which `c` pass `p` in
-- front of the last index.
abbrev pub FillEnds :
    {O : Type 0} → (O → Bool) → (O → Bool) → ℕ → ℕ → ℕ → ℕ → Swept (ℕ × List O) → Type 0
FillEnds g p i j n c (swept (j', ts)) =
    (i ≤ j')
    × (j' ≤ j)
    × (length ts ≡ n)
    × LiveBelow g i ts
    × (i < j' → LiveBelow g (suc i) ts)
    × (count p (take j' ts) ≡ c)
FillEnds g p i j n c (failed e) = Unit
FillEnds g p i j n c out_of_range = ⊥

FillEnds-suc :
    {O : Type 0} (g p : O → Bool) (i j : ℕ) {n m c d : ℕ} (same : n ≡ m) (counts : c ≡ d)
    (x : Swept (ℕ × List O))
    → FillEnds g p i j n c x
    → FillEnds g p i (suc j) m d x
FillEnds-suc g p i j same counts (swept (j', ts)) (a, b, c, d, e, f) =
    (a, omega arith, c ∙ same, d, e, f ∙ counts)
FillEnds-suc g p i j same counts (failed e) x = tt
FillEnds-suc g p i j same counts out_of_range x = x

Returns-weaken :
    {B : Type 0} {P Q : B → Type 0} (m : M B) → ((b : B) → P b → Q b) → Returns P m → Returns Q m
Returns-weaken m w p = record { at = λ h. w _ (p.at h) }

module _ {O : Type 0} (k : Kind O) (finalizer : String) where
  pub free_at-Returns :
      {A : Type 0} {Q : Swept A → Type 0} (i : ℕ) (ts : List O) (rest : List O → M (Swept A))
      → i < length ts
      → ((e : Failure) → Q (failed e))
      → ((v : O) → Returns Q (rest (set ts i v)))
      → Returns Q (free_at k finalizer i ts rest)
  unfolding free_at
  free_at-Returns i ts rest inside stopped kept =
      with_item-Returns ts i _ (λ missing. absurd (omega (arith, get_elem?-in ts i missing)))
        λ t got. Returns-bind _ _ λ (_, failure, t').
          Returns-on_error failure _ _ (λ e. Returns-pure _ (stopped e)) (kept t')

  module _ (p : O → Bool) (dead : (t : O) → is_gone k t ≡ true → p t ≡ false) where
    failing : (t : O) → p t ≡ false → one p t ≡ 0
    failing t e = rw e refl

    -- What the steps of the loops do to the count.
    at_end : (i j : ℕ) (ts : List O) → i ≡ j → count p (take j ts) ≡ count_but p i (take (suc j) ts)
    at_end i j ts e = rw e (sym (count_but-last p j ts))

    skipped :
        (i j : ℕ) (ts : List O) (v t : O)
        → get_elem? ts (suc j) ≡ some t
        → i < suc j
        → is_gone k t ≡ true
        → count_but p i (take (suc j) (set ts i v)) ≡ count_but p i (take (suc (suc j)) ts)
    skipped i j ts v t got less deleted =
        ap (count_but p i) (take-set p (suc j) i ts v)
        ∙ count_but-set p i (take (suc j) ts) v
        ∙ omega (arith, count_but-take p i (suc j) ts t got less, failing t (dead t deleted))

    moved :
        (i j : ℕ) (ts : List O) (t : O)
        → get_elem? ts (suc j) ≡ some t
        → i < suc j
        → suc j < length ts
        → count p (take (suc j) (set ts i t)) ≡ count_but p i (take (suc (suc j)) ts)
    moved i j ts t got less inside =
        ap (count p) (take-set p (suc j) i ts t)
        ∙ count-set p i (take (suc j) ts) t (omega (arith, length-take (suc j) ts (omega arith)))
        ∙ sym (count_but-take p i (suc j) ts t got less)

    pub replaced :
        (i j : ℕ) (ts : List O) (v t : O)
        → get_elem? ts i ≡ some t
        → i < j
        → length ts ≡ j
        → is_gone k t ≡ true
        → count_but p i (take (suc (pred j)) (set ts i v)) ≡ count p ts
    replaced i j ts v t got less same deleted =
        ap (count_but p i)
          (take-length p (suc (pred j)) (set ts i v) (omega (arith, length-set ts i v)))
        ∙ count_but-set p i ts v
        ∙ omega (arith, count-one p i ts t got, failing t (dead t deleted))

    pub fill-FillEnds :
        (i j : ℕ) (ts : List O)
        → i ≤ j
        → j < length ts
        → LiveBelow (is_gone k) i ts
        → Returns
            (FillEnds (is_gone k) p i j (length ts) (count_but p i (take (suc j) ts)))
            (fill k finalizer i j ts)
    unfolding fill
    fill-FillEnds i zero ts low inside live = Returns-pure _ (
      low,
      omega arith,
      refl,
      live,
      (λ less. absurd (omega arith)),
      at_end i zero ts (omega arith),
    )
    fill-FillEnds i (suc j) ts low inside live =
        Returns-if (ltb i (suc j)) _ _
          (λ less.
            with_item-Returns ts (suc j) _
              (λ missing. absurd (omega (arith, get_elem?-in ts (suc j) missing)))
              λ t got.
                Returns-if (is_gone k t) _ _
                  (λ deleted.
                    free_at-Returns i ts _ (omega arith) (λ e. tt)
                      (λ v.
                        Returns-weaken _
                          (FillEnds-suc (is_gone k) p i j (length-set ts i v)
                            (skipped i j ts v t got (ground arith) deleted))
                          (fill-FillEnds i j (set ts i v) (ground arith)
                            (omega (arith, length-set ts i v))
                            (LiveBelow-set (is_gone k) i ts v live))))
                  (λ alive. Returns-pure _ (
                    low,
                    omega arith,
                    length-set ts i t,
                    LiveBelow-set (is_gone k) i ts t live,
                    (λ below. LiveBelow-set_live (is_gone k) i ts t alive live),
                    moved i j ts t got (ground arith) inside,
                  )))
          (λ reached. Returns-pure _ (
            low,
            omega arith,
            refl,
            live,
            (λ less. absurd (ground arith)),
            at_end i (suc j) ts (ground arith),
          ))
