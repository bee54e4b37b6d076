-- ===== src/Commands/Mock.antt =====
-- cmd/mock/main.go: a command that ends as its arguments say.
use konfirm.Base.{ℕ, String, Option, none, some, List, [], ◌∷◌, str_eq, if◌then◌else◌}

-- The exit code, and the text that is written to /dev/termination-log where one is.
pub record Exit : Type 0 where
  pub code : ℕ
  pub log : Option String

-- The variables `exitCode` and `message` after the `switch` on the number of arguments.
abbrev pub switch : List String → ℕ × String
switch (program ∷ a ∷ []) = if str_eq a "--fail" then (1, "") else (0, a)
switch (program ∷ a ∷ b ∷ []) = (if str_eq a "--fail" then 1 else 0, b)
switch _ = (0, "")

-- `main`, on `os.Args`.
unfoldable pub mock : List String → Exit
mock argv =
    let (exit_code, message) = switch argv in
    record { code = exit_code; log = if str_eq message "" then none else some message }
