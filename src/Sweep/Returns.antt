-- ===== src/Sweep/Returns.antt =====
-- What holds of the results of the loops over slices.
use konfirm.Base.{◌≡◌, refl, ℕ, Option, none, some, List, get_elem?}
use konfirm.Cluster.{M, pure}
use konfirm.Cluster.Keeps.{Returns, Returns-pure}
use konfirm.Sweep.Defs.{Swept, out_of_range, with_item}

pub with_item-Returns :
    {A O : Type 0} {Q : Swept A → Type 0} (items : List O) (p : ℕ) (f : O → M (Swept A))
    → (get_elem? items p ≡ none → Q out_of_range)
    → ((t : O) → get_elem? items p ≡ some t → Returns Q (f t))
    → Returns Q (with_item items p f)
unfolding with_item
with_item-Returns {A} {O} {Q} items p f missing found = go (get_elem? items p) refl
  where
    go :
        (o : Option O)
        → get_elem? items p ≡ o
        → Returns Q (elim o as (λ x. M (Swept A)) [ none ↦ pure out_of_range | some t ↦ f t ])
    go none e = Returns-pure _ (missing e)
    go (some t) e = found t e
