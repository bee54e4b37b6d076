-- ===== src/Helpers/Errors.antt =====
-- controllers/errors.go: errors collected over a loop.
use konfirm.Base.{String, Bool, Option, none, some, List, [], ◌∷◌, ◌++◌, length, ltb, concat}
use konfirm.Cluster.{Failure}

pub record ErrorList : Type 0 where
  pub errors : List Failure

-- ErrorList{}
abbrev pub no_errors : ErrorList
no_errors = record { errors = [] }

-- `ErrorList.Append`
abbrev pub append_error : ErrorList → Failure → ErrorList
append_error es e = record { errors = es.errors ++ e ∷ [] }

-- `if err != nil { errs.Append(err) }`
abbrev pub collect : ErrorList → Option Failure → ErrorList
collect es none = es
collect es (some e) = append_error es e

-- `ErrorList.HasError`
abbrev pub has_error : ErrorList → Bool
has_error es = ltb 0 (length es.errors)

-- The loop from the second error on: each text is followed by a line feed.
abbrev error_lines : List Failure → List String
error_lines [] = []
error_lines (e ∷ es) = e.message ∷ "\n" ∷ error_lines es

-- `ErrorList.Error`; `errors.New` gives an error with no API status.
unfoldable pub join_errors : List Failure → Option Failure
join_errors [] = none
join_errors (e ∷ es) = some (record { reason = ""; message = concat (e.message ∷ error_lines es) })
