-- ===== src/Sweep/Keeps.antt =====
-- The invariants that the sweep keeps: those that patches of the objects keep.
use konfirm.Base.{ℕ, zero, suc, String, Option, none, some, List, get_elem?, length}
use konfirm.Cluster.{History, M, pure, Kind}
use konfirm.Cluster.Keeps.{Keeps, keeps_rules, Keeps-pure}
use konfirm.Helpers.Keeps.{remove_finalizer-Keeps}
use konfirm.Sweep.Defs.{
  Swept, swept, failed, out_of_range, with_item, and_then, free_at, fill, sweep_from, sweep,
}

module _ {I : History → Type 0} {A : Type 0} where
  pub with_item-Keeps :
      {O : Type 0} (items : List O) (i : ℕ) (f : O → M (Swept A))
      → ((t : O) → Keeps I (f t))
      → Keeps I (with_item items i f)
  unfolding with_item
  with_item-Keeps {O} items i f kf = go (get_elem? items i)
    where
      go :
          (o : Option O)
          → Keeps I (elim o as (λ x. M (Swept A)) [ none ↦ pure out_of_range | some t ↦ f t ])
      go none = Keeps-pure _
      go (some t) = kf t

  pub and_then-Keeps :
      {B : Type 0} (x : Swept B) (f : B → M (Swept A))
      → ((b : B) → Keeps I (f b))
      → Keeps I (and_then x f)
  unfolding and_then
  and_then-Keeps (swept b) f kf = kf b
  and_then-Keeps (failed e) f kf = Keeps-pure _
  and_then-Keeps out_of_range f kf = Keeps-pure _

module _ {I : History → Type 0} {O : Type 0} (k : Kind O) (finalizer : String)
    (on_patch : (a b : O) → Keeps I (Kind.patch k a b)) where
  free_at-Keeps :
      {A : Type 0} (i : ℕ) (items : List O) (rest : List O → M (Swept A))
      → ((items' : List O) → Keeps I (rest items'))
      → Keeps I (free_at k finalizer i items rest)
  unfolding free_at
  free_at-Keeps i items rest kr =
      search (keeps_rules, with_item-Keeps, remove_finalizer-Keeps k on_patch, kr)

  fill-Keeps : (i j : ℕ) (items : List O) → Keeps I (fill k finalizer i j items)
  unfolding fill
  fill-Keeps i zero items = Keeps-pure _
  fill-Keeps i (suc j) items = search (keeps_rules, with_item-Keeps, free_at-Keeps, fill-Keeps i j)

  sweep_from-Keeps :
      (fuel i j : ℕ) (items : List O) → Keeps I (sweep_from k finalizer fuel i j items)
  unfolding sweep_from
  sweep_from-Keeps zero i j items = Keeps-pure _
  sweep_from-Keeps (suc fuel) i j items =
      search
        (
          keeps_rules,
          with_item-Keeps,
          free_at-Keeps,
          and_then-Keeps,
          fill-Keeps,
          λ (j' : ℕ) (items' : List O). sweep_from-Keeps fuel (suc i) j' items',
        )
        depth 9

  pub sweep-Keeps : (items : List O) → Keeps I (sweep k finalizer items)
  unfolding sweep
  sweep-Keeps items = sweep_from-Keeps (suc (length items)) 0 (length items) items
