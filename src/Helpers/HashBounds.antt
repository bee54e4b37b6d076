-- ===== src/Helpers/HashBounds.antt =====
-- The hash of a template, which the printer writes piece by piece.
use Prim.Native.Nat.{◌^◌}
use konfirm.Base.{ℕ, ◌<◌, ◌≡◌, refl, ◌∙◌, List, [], ◌∷◌, ◌++◌, arith}
use konfirm.Helpers.Hash.{fnv32a}

-- Successive calls of `Write`.
abbrev write_all : ℕ → List (List ℕ) → ℕ
write_all hash [] = hash
write_all hash (bs ∷ pieces) = write_all (fnv32a hash bs) pieces

abbrev flatten : List (List ℕ) → List ℕ
flatten [] = []
flatten (bs ∷ pieces) = bs ++ flatten pieces

fnv32a_bounded : (bs : List ℕ) (hash : ℕ) → hash < 2 ^ 32 → fnv32a hash bs < 2 ^ 32
unfolding fnv32a
fnv32a_bounded [] hash k = k
fnv32a_bounded (b ∷ bs) hash k = fnv32a_bounded bs _ (omega arith)

fnv32a-append : (ds bs : List ℕ) (hash : ℕ) → fnv32a hash (ds ++ bs) ≡ fnv32a (fnv32a hash ds) bs
unfolding fnv32a
fnv32a-append [] bs hash = refl
fnv32a-append (d ∷ ds) bs hash = fnv32a-append ds bs _

-- The hash of bytes that are written in pieces is that of all of them at once, however the pieces
-- are cut, and stays a number of 32 bits where it begins as one.
fnv32a-flatten :
    (pieces : List (List ℕ)) (hash : ℕ)
    → hash < 2 ^ 32
    → (fnv32a hash (flatten pieces) ≡ write_all hash pieces) × (write_all hash pieces < 2 ^ 32)
unfolding fnv32a
fnv32a-flatten [] hash k = (refl, k)
fnv32a-flatten (bs ∷ pieces) hash k =
    let (same, bounded) = fnv32a-flatten pieces (fnv32a hash bs) (fnv32a_bounded bs hash k) in
    (fnv32a-append bs (flatten pieces) hash ∙ same, bounded)
