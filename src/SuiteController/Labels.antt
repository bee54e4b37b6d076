-- ===== src/SuiteController/Labels.antt =====
-- The Helm label of a TestSuite against the one that the Helm release watcher looks for.
use text.Mathlib.TextEquality.{Char-path}
use Prim.Native.Char.{code}
use konfirm.Base.{
  ◌≡◌, refl, sym, ap, ◌∙◌, ◌↔◌, ℕ, String, Bool-cases, Option-cases, inl, inr, false, none, some,
  List, [], ◌∷◌, ◌++◌, codes, codes-append, concat, index_of, ◌==◌, str_eq, arith,
}
use konfirm.HelmWatcher.{HelmReleaseMeta, label_value}
use konfirm.SuiteController.Prepare.{helm_label}

codes-injective : (s t : String) → codes s ≡ codes t → s ≡ t
codes-injective String.[] String.[] e = refl
codes-injective String.[] (String.◌∷◌ d t) e = absurd (ground arith)
codes-injective (String.◌∷◌ c s) String.[] e = absurd (ground arith)
codes-injective (String.◌∷◌ c s) (String.◌∷◌ d t) e =
    let head : code c ≡ code d = ground arith in
    let tail : codes s ≡ codes t = ground arith in
    λ i. String.◌∷◌ (Char-path c d head i) (codes-injective s t tail i)

index_of-cons :
    (b c : ℕ) (cs : List ℕ)
    → index_of b (c ∷ cs) ≡ none
    → ((c == b) ≡ false) × (index_of b cs ≡ none)
index_of-cons b c cs e = elim (Bool-cases (c == b)) [
  | inl same ↦ absurd (ground arith)
  | inr other ↦ elim (Option-cases (index_of b cs)) [
    | inl missing ↦ (other, missing)
    | inr (i, found) ↦ absurd (ground arith)
  ]
]

-- What stands before the first `b` is determined.
before_first :
    (b : ℕ) (xs ys us vs : List ℕ)
    → index_of b xs ≡ none
    → index_of b ys ≡ none
    → xs ++ b ∷ us ≡ ys ++ b ∷ vs
    → xs ≡ ys
before_first b [] [] us vs e f k = refl
before_first b [] (y ∷ ys) us vs e f k =
    let (other, g) = index_of-cons b y ys f in absurd (ground arith)
before_first b (x ∷ xs) [] us vs e f k =
    let (other, g) = index_of-cons b x xs e in absurd (ground arith)
before_first b (x ∷ xs) (y ∷ ys) us vs e f k =
    let (other, g) = index_of-cons b x xs e in
    let (other', g') = index_of-cons b y ys f in
    let same = before_first b xs ys us vs g g' (ground arith) in ground arith

codes-dotted :
    (s t : String) → codes (concat (s ∷ "." ∷ t ∷ [])) ≡ codes s ++ b'.' ∷ codes (concat (t ∷ []))
codes-dotted s t =
    codes-append s (concat ("." ∷ t ∷ []))
    ∙ ap (λ (l : List ℕ). codes s ++ l) (codes-append "." (concat (t ∷ [])))

joined_first :
    (s t u v : String)
    → index_of b'.' (codes s) ≡ none
    → index_of b'.' (codes t) ≡ none
    → concat (s ∷ "." ∷ u ∷ []) ≡ concat (t ∷ "." ∷ v ∷ [])
    → s ≡ t
joined_first s t u v e f same = codes-injective s t (
    before_first b'.' (codes s) (codes t) _ _ e f
      (sym (codes-dotted s u) ∙ ap (λ (w : String). codes w) same ∙ codes-dotted t v))

-- The label that a TestSuite gets for a release of its own namespace is the one that the watcher
-- looks for where and only where the release has the name of the namespace: the one puts the
-- namespace in front, and the other behind.
pub helm_label-label_value :
    (m : HelmReleaseMeta)
    → index_of b'.' (codes m.name) ≡ none
    → index_of b'.' (codes m.namespace) ≡ none
    → str_eq m.namespace "" ≡ false
    → (helm_label m.namespace m.name ≡ label_value (some m)) ↔ (m.name ≡ m.namespace)
unfolding helm_label label_value
helm_label-label_value m plain plain' named =
    let label : helm_label m.namespace m.name ≡ concat (m.namespace ∷ "." ∷ m.name ∷ []) =
      rw plain refl in
    let value : label_value (some m) ≡ concat (m.name ∷ "." ∷ m.namespace ∷ []) = rw named refl in
    (
      λ same. sym (
          joined_first m.namespace m.name m.name m.namespace plain' plain
            (sym label ∙ same ∙ value)),
      λ same. label ∙ rw same refl ∙ sym value,
    )
