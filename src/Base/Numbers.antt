-- ===== src/Base/Numbers.antt =====
-- `strconv.Atoi` of Go, on the bytes of a text.
use Prim.Native.Nat.{ℕ, zero, suc, ◌+◌, ◌-◌, ◌*◌, ◌^◌}
use mathlib.Core.Bool.{Bool, ◌&&◌}
use mathlib.Core.List.{List, [], ◌∷◌}
use mathlib.Core.Option.{Option, none, some}
use konfirm.Base.Tests.{ltb, leb, ◌==◌, if◌then◌else◌}

-- `negsuc n` is -(n + 1).
pub data ℤ : Type 0 where
  pos : ℕ → ℤ
  negsuc : ℕ → ℤ

abbrev pub is_digit : ℕ → Bool
is_digit c = leb b'0' c && leb c b'9'

unfoldable pub parse_digits : ℕ → List ℕ → Option ℕ
parse_digits acc [] = some acc
parse_digits acc (c ∷ cs) =
    let rest = parse_digits (acc * 10 + (c - b'0')) cs in if is_digit c then rest else none

-- At least one digit.
unfoldable pub parse_unsigned : List ℕ → Option ℕ
unfolding parse_digits
parse_unsigned [] = none
parse_unsigned (c ∷ cs) = parse_digits 0 (c ∷ cs)

-- The range of a 64-bit int.
abbrev pub signed : Bool → Option ℕ → Option ℤ
signed negative none = none
signed Bool.false (some n) = if ltb n (2 ^ 63) then some (pos n) else none
signed Bool.true (some zero) = some (pos 0)
signed Bool.true (some (suc n)) = if ltb n (2 ^ 63) then some (negsuc n) else none

unfoldable pub atoi : List ℕ → Option ℤ
unfolding parse_unsigned
atoi [] = none
atoi (c ∷ cs) =
    if c == b'-'
    then signed Bool.true (parse_unsigned cs)
    else if c == b'+'
    then signed Bool.false (parse_unsigned cs)
    else signed Bool.false (parse_unsigned (c ∷ cs))

-- `a - b` of natural numbers, and `<`, over the integers.
abbrev pub sub_ℕ : ℕ → ℕ → ℤ
sub_ℕ a b = if leb b a then pos (a - b) else negsuc (b - a - 1)

abbrev pub int_lt : ℤ → ℤ → Bool
int_lt (pos a) (pos b) = ltb a b
int_lt (pos a) (negsuc b) = Bool.false
int_lt (negsuc a) (pos b) = Bool.true
int_lt (negsuc a) (negsuc b) = ltb b a
