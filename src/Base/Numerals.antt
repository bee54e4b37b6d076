-- ===== src/Base/Numerals.antt =====
-- `strconv.Itoa` of a natural number, and reading its digits.
use Prim.Native.Nat.{ℕ, zero, suc, ◌+◌, ◌-◌, ◌*◌, ◌%◌, ◌/◌, ◌<◌}
use mathlib.Core.Logic.{inl, inr}
use mathlib.Core.Path.{◌≡◌}
use mathlib.Core.List.{List, [], ◌∷◌, ◌++◌}
use mathlib.Core.Option.{some}
use native.Mathlib.Omega.{arith}
use konfirm.Base.Tests.{ltb, Bool-cases}
use konfirm.Base.Text.{codes, codes-append, digit, decimal, decimal_from}
use konfirm.Base.Decimal.{codes-digit}
use konfirm.Base.Numbers.{parse_digits, is_digit}

parse_digits-snoc :
    (acc n d : ℕ) (cs : List ℕ)
    → parse_digits acc cs ≡ some n
    → d < 10
    → parse_digits acc (cs ++ (48 + d) ∷ []) ≡ some (n * 10 + d)
unfolding parse_digits
parse_digits-snoc acc n d [] e less = ground arith
parse_digits-snoc acc n d (c ∷ cs) e less = elim (Bool-cases (is_digit c)) [
  | inl numeral ↦
      rw numeral (parse_digits-snoc (acc * 10 + (c - 48)) n d cs (ground (arith, e, numeral)) less)
  | inr other ↦ absurd (ground (arith, e, other))
]

read_back : (f n : ℕ) → n < f → parse_digits 0 (codes (decimal_from f n)) ≡ some n
unfolding decimal_from parse_digits
read_back zero n less = absurd (omega arith)
read_back (suc f) n less = elim (Bool-cases (ltb n 10)) [
  | inl small ↦
      rw (small, codes-append "" (digit (n % 10)), codes-digit (n % 10) (omega arith))
        (ground arith)
  | inr large ↦
      rw
        (
          large,
          codes-append (decimal_from f (n / 10)) (digit (n % 10)),
          codes-digit (n % 10) (omega arith),
          parse_digits-snoc 0 (n / 10) (n % 10) (codes (decimal_from f (n / 10)))
              (read_back f (n / 10) (ground arith)) (omega arith),
        )
        (ground arith)
]

-- A number is read back from its decimal.
pub parse_digits-decimal : (n : ℕ) → parse_digits 0 (codes (decimal n)) ≡ some n
unfolding decimal
parse_digits-decimal n = read_back (suc n) n (omega arith)
