-- ===== src/Base/Decimal.antt =====
-- The last digit of a number in decimal, and reading it back.
use Prim.Native.Nat.{ℕ, zero, suc, ◌+◌, ◌%◌, ◌/◌, ◌<◌}
use Prim.Native.String.{String}
use mathlib.Core.Path.{◌≡◌, refl, ap, ◌∙◌}
use mathlib.Core.List.{List, [], ◌∷◌, ◌++◌}
use mathlib.Core.Option.{some}
use native.Mathlib.Omega.{arith}
use konfirm.Base.Tests.{ltb, if◌then◌else◌}
use konfirm.Base.Lists.{length, drop}
use konfirm.Base.Text.{codes, codes-append, digit, decimal, decimal_from}
use konfirm.Base.Numbers.{pos, atoi}

pub codes-digit : (d : ℕ) → d < 10 → codes (digit d) ≡ (48 + d) ∷ []
codes-digit zero h = refl
codes-digit (suc zero) h = refl
codes-digit (suc (suc zero)) h = refl
codes-digit (suc (suc (suc zero))) h = refl
codes-digit (suc (suc (suc (suc zero)))) h = refl
codes-digit (suc (suc (suc (suc (suc zero))))) h = refl
codes-digit (suc (suc (suc (suc (suc (suc zero)))))) h = refl
codes-digit (suc (suc (suc (suc (suc (suc (suc zero))))))) h = refl
codes-digit (suc (suc (suc (suc (suc (suc (suc (suc zero)))))))) h = refl
codes-digit (suc (suc (suc (suc (suc (suc (suc (suc (suc zero))))))))) h = refl
codes-digit (suc (suc (suc (suc (suc (suc (suc (suc (suc (suc d)))))))))) h = absurd (omega arith)

-- A decimal ends in the digit of the number modulo 10.
pub codes-decimal : (n : ℕ) → (front : List ℕ) × (codes (decimal n) ≡ front ++ (48 + n % 10) ∷ [])
unfolding decimal
codes-decimal n =
    let leading : String = if ltb n 10 then "" else decimal_from n (n / 10) in
    (
      codes leading,
      codes-append leading (digit (n % 10))
          ∙ ap (λ (l : List ℕ). codes leading ++ l) (codes-digit (n % 10) (omega arith)),
    )

-- `strconv.Atoi` on one digit.
pub atoi_digit : (d : ℕ) → d < 10 → atoi ((48 + d) ∷ []) ≡ some (pos d)
unfolding atoi
atoi_digit d h = ground arith

-- The byte before the last one of a list.
pub drop-append {ℓ} : {A : Type ℓ} (xs ys : List A) → drop (length xs) (xs ++ ys) ≡ ys
drop-append [] ys = refl
drop-append (x ∷ xs) ys = drop-append xs ys
