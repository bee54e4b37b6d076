-- ===== src/Commands/Exits.antt =====
-- How the mock ends.
use konfirm.Base.{
  ◌≡◌, ◌↔◌, refl, inl, inr, String, true, none, some, List, [], ◌∷◌, arith, str_eq, eq_iff,
  same_text, Bool-cases, false, subst, ap, if◌then◌else◌,
}
use konfirm.Commands.Mock.{mock}

-- The arguments behind the program's name: `--fail`, and at most a message.
abbrev pub Fails : List String → Type 0
Fails (program ∷ a ∷ []) = a ≡ "--fail"
Fails (program ∷ a ∷ b ∷ []) = a ≡ "--fail"
Fails _ = ⊥

-- A message that is not empty, in the second place, or in the first one where it is not `--fail`.
abbrev pub Says : List String → String → Type 0
Says (program ∷ a ∷ []) m = (a ≡ m) × (str_eq m "--fail" ≡ false) × (str_eq m "" ≡ false)
Says (program ∷ a ∷ b ∷ []) m = (b ≡ m) × (str_eq m "" ≡ false)
Says _ m = ⊥

fails : (argv : List String) → (mock argv).code ≡ 1 ↔ Fails argv
unfolding mock
fails [] = (λ e. ground (arith, e), λ f. absurd f)
fails (program ∷ []) = (λ e. ground (arith, e), λ f. absurd f)
fails (program ∷ a ∷ []) = (
  λ e. elim (Bool-cases (str_eq a "--fail")) [
    | inl same ↦ (eq_iff a "--fail").0 same
    | inr other ↦ absurd (let no = rw other at e in ground (arith, no))
  ],
  λ f. rw (same_text a "--fail" f) refl,
)
fails (program ∷ a ∷ b ∷ []) =
    (λ e. (eq_iff a "--fail").0 (ground (arith, e)), λ f. rw (same_text a "--fail" f) refl)
fails (program ∷ a ∷ b ∷ c ∷ rest) = (λ e. ground (arith, e), λ f. absurd f)

some_equal : (s t : String) → some s ≡ some t → s ≡ t
some_equal s t e = ground (arith, e)

clash : (s t u : String) → str_eq s u ≡ true → s ≡ t → str_eq t u ≡ false → ⊥
clash s t u same e other =
    let also = subst (λ x. str_eq x u ≡ true) e same in ground (arith, also, other)

-- The file is written where the message is not empty.
written :
    (s m : String)
    → ((if str_eq s "" then none else some s) ≡ some m) ↔ ((s ≡ m) × (str_eq m "" ≡ false))
written s m = elim (Bool-cases (str_eq s "")) [
  | inl empty ↦ rw empty (λ e. ground (arith, e), λ (e, full). absurd (clash s m "" empty e full))
  | inr full ↦ rw full (
    λ e. (some_equal s m e, subst (λ t. str_eq t "" ≡ false) (some_equal s m e) full),
    λ (e, f). ap (λ t. some t) e,
  )
]

says : (argv : List String) (m : String) → ((mock argv).log ≡ some m) ↔ Says argv m
unfolding mock
says [] m = (λ e. ground (arith, e), λ f. absurd f)
says (program ∷ []) m = (λ e. ground (arith, e), λ f. absurd f)
says (program ∷ a ∷ []) m = elim (Bool-cases (str_eq a "--fail")) [
  | inl same ↦
      rw same (λ e. ground (arith, e), λ (e, other, full). absurd (clash a m "--fail" same e other))
  | inr other ↦ rw other (
    λ e.
        let (equal, full) = (written a m).0 e in
        (equal, subst (λ x. str_eq x "--fail" ≡ false) equal other, full),
    λ (e, different, full). (written a m).1 (e, full),
  )
]
says (program ∷ a ∷ b ∷ []) m = written b m
says (program ∷ a ∷ b ∷ c ∷ rest) m = (λ e. ground (arith, e), λ f. absurd f)

-- The mock exits with 1 exactly where its first argument is `--fail` and at most one other follows;
-- it writes a message exactly where that is not empty and is its second of two arguments, or its one
-- argument, other than `--fail`. With three arguments or more it exits with 0 and writes nothing.
pub mock_lem :
    (argv : List String) (m : String)
    → ((mock argv).code ≡ 1 ↔ Fails argv) × (((mock argv).log ≡ some m) ↔ Says argv m)
mock_lem argv m = (fails argv, says argv m)
