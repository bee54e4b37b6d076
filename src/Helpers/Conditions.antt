-- ===== src/Helpers/Conditions.antt =====
-- `getCondition` and `hasCondition` of controllers/helpers.go.
use konfirm.Base.{String, Bool, false, Option, none, some, List, [], ◌∷◌, str_eq, if◌then◌else◌}
use konfirm.Api.{Condition}

unfoldable pub get_condition : String → List Condition → Option Condition
get_condition type [] = none
get_condition type (c ∷ cs) = if str_eq c.type type then some c else get_condition type cs

unfoldable pub has_condition : String → String → List Condition → Bool
unfolding get_condition
has_condition type status from = elim (get_condition type from) [
  | none ↦ false
  | some c ↦ str_eq c.status status
]
