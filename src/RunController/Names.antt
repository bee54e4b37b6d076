-- ===== src/RunController/Names.antt =====
-- The index that `isRunning` writes into a Test's generated name, and the one that it reads back.
use mathlib.Core.List.{append_assoc}
use konfirm.Base.{
  ℕ, ◌+◌, ◌-◌, ◌%◌, ◌≤◌, ◌<◌, ◌≡◌, ◌↔◌, String, true, some, List, [], ◌∷◌, ◌++◌, pos, codes,
  codes-append, length, length-append, leb, arith,
}
use konfirm.Base.Decimal.{codes-decimal, atoi_digit, drop-append}
use konfirm.RunController.Mapping.{name_index}
use konfirm.RunController.Results.{test_name}

-- The bytes of a generated name: those of the run's name, a dash, the digits, and a dash.
codes-test_name :
    (run : String) (i : ℕ)
    → (front : List ℕ) × (codes (test_name run i)
        ≡ (codes run ++ front) ++ (48 + i % 10) ∷ b'-' ∷ [])
      × (1 ≤ length front)
unfolding test_name
codes-test_name run i =
    let (front, e) = codes-decimal i in
    (b'-' ∷ front, simp (codes-append, e, append_assoc), omega arith)

-- What `isRunning` reads from a name: the byte before the last one.
name_index_of_bytes :
    (name : String) (front : List ℕ) (d : ℕ)
    → codes name ≡ front ++ (48 + d) ∷ b'-' ∷ []
    → 2 ≤ length front
    → d < 10
    → name_index name ≡ some (pos d)
unfolding name_index
name_index_of_bytes name front d e long h =
    let big : leb 4 (length front + 2) ≡ true = ground arith in
    let back : length front + 2 - 2 ≡ length front = omega arith in
    rw (e, length-append front ((48 + d) ∷ b'-' ∷ []), big, back, drop-append front)
      (atoi_digit d h)

-- A generated name gives its index modulo 10: one byte is read of however many digits.
pub name_index-test_name :
    (run : String) (i : ℕ)
    → 1 ≤ length (codes run)
    → name_index (test_name run i) ≡ some (pos (i % 10))
name_index-test_name run i named =
    let (front, e, dash) = codes-test_name run i in
    name_index_of_bytes (test_name run i) (codes run ++ front) (i % 10) e
      (rw (length-append (codes run) front) (omega (arith, named, dash))) (omega arith)

-- For a TestRun with a name, the index that `isRunning` reads from the generated name of the Test
-- for template `i` is `i` exactly when `i` is below 10.
pub name_index_iff :
    (run : String) (i : ℕ)
    → 1 ≤ length (codes run)
    → (name_index (test_name run i) ≡ some (pos i)) ↔ (i < 10)
name_index_iff run i named = (
  λ e. ground (arith, name_index-test_name run i named),
  λ h. ground (arith, name_index-test_name run i named),
)
