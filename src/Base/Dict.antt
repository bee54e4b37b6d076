-- ===== src/Base/Dict.antt =====
-- A `map[string]string` as an association list.
use Prim.Native.String.{String}
use mathlib.Core.List.{List, [], ◌∷◌}
use mathlib.Core.Option.{Option, none, some}
use text.Mathlib.Text.{◌==◌ as str_eq}
use konfirm.Base.Tests.{if◌then◌else◌}

-- `v, ok := m[k]`
abbrev pub lookup : String → List (String × String) → Option String
lookup k [] = none
lookup k ((j, v) ∷ m) = if str_eq j k then some v else lookup k m

-- `m[k]`, which is empty for a missing key.
abbrev pub lookup_or_empty : String → List (String × String) → String
lookup_or_empty k m = elim (lookup k m) [ none ↦ "" | some v ↦ v ]

-- `delete(m, k)`
abbrev pub remove : String → List (String × String) → List (String × String)
remove k [] = []
remove k ((j, v) ∷ m) = let rest = remove k m in if str_eq j k then rest else (j, v) ∷ rest

-- `m[k] = v`
abbrev pub insert : String → String → List (String × String) → List (String × String)
insert k v [] = (k, v) ∷ []
insert k v ((j, w) ∷ m) = if str_eq j k then (k, v) ∷ m else (j, w) ∷ insert k v m
