-- ===== src/Base/Text.antt =====
-- Go strings. A text is the native `String`; where the source walks bytes, `codes` gives them (names
-- of Kubernetes objects are ASCII, so code points are bytes).
use Prim.Native.Nat.{ℕ, zero, suc, ◌/◌, ◌%◌}
use Prim.Native.Char.{code}
use Prim.Native.String
use Prim.Native.String.{String}
use Prim.Native.String.append
use mathlib.Core.Path.{◌≡◌, ap}
use mathlib.Core.Bool.{true, false, not}
use native.Mathlib.Omega.{arith}
use text.Mathlib.Text.{◌==◌ as str_eq}
use text.Mathlib.TextEquality.{eq_iff}
use mathlib.Core.Option.{Option, none, some}
use mathlib.Core.List.{List, [], ◌∷◌, ◌++◌}
use konfirm.Base.Tests.{ltb, ◌==◌, if◌then◌else◌}

abbrev pub codes : String → List ℕ
codes String.[] = []
codes (String.◌∷◌ c s) = code c ∷ codes s

-- `a + b + …` on texts, and `fmt.Sprintf` with the verbs written out.
abbrev pub concat : List String → String
concat [] = ""
concat (s ∷ ss) = String.◌++◌ s (concat ss)

abbrev pub digit : ℕ → String
digit d =
    if d == 0
    then "0"
    else if d == 1
    then "1"
    else if d == 2
    then "2"
    else if d == 3
    then "3"
    else if d == 4
    then "4"
    else if d == 5
    then "5"
    else if d == 6
    then "6"
    else if d == 7
    then "7"
    else if d == 8
    then "8"
    else "9"

unfoldable pub decimal_from : ℕ → ℕ → String
decimal_from zero n = ""
decimal_from (suc f) n =
    let rest = decimal_from f (n / 10) in
    String.◌++◌ (if ltb n 10 then "" else rest) (digit (n % 10))

-- `%d` of a natural number: the fuel `n + 1` is more than its number of digits.
unfoldable pub decimal : ℕ → String
unfolding decimal_from
decimal n = decimal_from (suc n) n

pub codes-append : (s t : String) → codes (String.◌++◌ s t) ≡ codes s ++ codes t
codes-append String.[] t = rw (append.nil t)
codes-append (String.◌∷◌ c s) t =
    rw (append.cons c s t) (ap (λ (l : List ℕ). code c ∷ l) (codes-append s t))

-- `strings.Index` of a text of one byte; -1 is `none`.
abbrev pub index_of : ℕ → List ℕ → Option ℕ
index_of b [] = none
index_of b (c ∷ cs) =
    let rest = index_of b cs in
    if c == b then some 0 else elim rest [ none ↦ none | some i ↦ some (suc i) ]

-- `s[:n]` and `s[n:]`, for an `n` up to the length.
abbrev pub take_text : ℕ → String → String
take_text zero s = ""
take_text (suc n) String.[] = ""
take_text (suc n) (String.◌∷◌ c s) = String.◌∷◌ c (take_text n s)

abbrev pub drop_text : ℕ → String → String
drop_text zero s = s
drop_text (suc n) String.[] = ""
drop_text (suc n) (String.◌∷◌ c s) = drop_text n s

pub equal_texts : (s t : String) → not (str_eq s t) ≡ false → s ≡ t
equal_texts s t e = (eq_iff s t).0 (ground arith)

pub same_text : (s t : String) → s ≡ t → str_eq s t ≡ true
same_text s t e = (eq_iff s t).1 e
