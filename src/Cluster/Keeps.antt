-- ===== src/Cluster/Keeps.antt =====
-- Invariants of the history, and facts about results, one rule for each way to build a program.
use konfirm.Base.{
  ◌≡◌, refl, ap, Bool, true, false, if◌then◌else◌, Option, none, some, List, [], ◌∷◌, ◌++◌, All,
}
use konfirm.Cluster.Defs.{Failure, Reply, ok, err, Effect, History}
use konfirm.Cluster.Monad.{M, pure, ◌>>=◌, emit, call, ask, on_error, on_some, on_reply}

-- From a history that satisfies `I`, `m` leads to such a history.
pub record Keeps {A : Type 0} (I : History → Type 0) (m : M A) : Type 0 where
  pub at : (h : History) → I h → I (m h).1

-- `e` may be written wherever `I` holds.
abbrev pub Allows : (History → Type 0) → Effect → Type 0
Allows I e = (h : History) → I h → I (e ∷ h)

-- `h'` is `h` with writes behind it of which `P` holds.
abbrev pub WritesOn : (Effect → Type 0) → History → History → Type 0
WritesOn P h h' = (behind : List Effect) × (h' ≡ behind ++ h) × All P behind

pub WritesOn-none : {P : Effect → Type 0} (h : History) → WritesOn P h h
WritesOn-none h = ([], refl, tt)

pub WritesOn-Allows :
    {P : Effect → Type 0} {h : History} (e : Effect) → P e → Allows (WritesOn P h) e
WritesOn-Allows e p h' (behind, same, all) =
    (e ∷ behind, ap (λ (x : History). e ∷ x) same, (p, all))

module _ {I : History → Type 0} where
  pub Keeps-pure : {A : Type 0} (a : A) → Keeps I (pure a)
  unfolding pure
  Keeps-pure a = record { at = λ h p. p }

  pub Keeps-bind :
      {A B : Type 0} (m : M A) (f : A → M B)
      → Keeps I m
      → ((a : A) → Keeps I (f a))
      → Keeps I (m >>= f)
  unfolding ◌>>=◌
  Keeps-bind m f em ef = record { at = λ h p. (ef (m h).0).at (m h).1 (em.at h p) }

  pub Keeps-emit : (e : Effect) → Allows I e → Keeps I (emit e)
  unfolding emit
  Keeps-emit e p = record { at = p }

  pub Keeps-call : {A : Type 0} (e : Effect) (f : History → A) → Allows I e → Keeps I (call e f)
  unfolding call
  Keeps-call e f p = record { at = p }

  pub Keeps-ask : {A : Type 0} (f : History → A) → Keeps I (ask f)
  unfolding ask
  Keeps-ask f = record { at = λ h p. p }

  pub Keeps-on_error :
      {A : Type 0} (o : Option Failure) (f : Failure → M A) (m : M A)
      → ((e : Failure) → Keeps I (f e))
      → Keeps I m
      → Keeps I (on_error o f m)
  unfolding on_error
  Keeps-on_error none f m ef em = em
  Keeps-on_error (some e) f m ef em = ef e

  pub Keeps-on_some :
      {A B : Type 0} (o : Option A) (f : A → M B) (m : M B)
      → ((a : A) → Keeps I (f a))
      → Keeps I m
      → Keeps I (on_some o f m)
  unfolding on_some
  Keeps-on_some none f m kf km = km
  Keeps-on_some (some a) f m kf km = kf a

  pub Keeps-on_reply :
      {A B : Type 0} (r : Reply A) (f : Failure → M B) (g : A → M B)
      → ((e : Failure) → Keeps I (f e))
      → ((a : A) → Keeps I (g a))
      → Keeps I (on_reply r f g)
  unfolding on_reply
  Keeps-on_reply (ok a) f g ef eg = eg a
  Keeps-on_reply (err e) f g ef eg = ef e

  pub Keeps-if :
      {A : Type 0} (b : Bool) (m n : M A)
      → (b ≡ true → Keeps I m)
      → (b ≡ false → Keeps I n)
      → Keeps I (if b then m else n)
  Keeps-if true m n em en = em refl
  Keeps-if false m n em en = en refl

pub ruleset keeps_rules = (
  Keeps-pure, Keeps-bind, Keeps-emit, Keeps-call, Keeps-ask, Keeps-on_error, Keeps-on_some,
  Keeps-on_reply, Keeps-if,
)

-- The object of an answer satisfies `Q`.
abbrev pub Answers : {A : Type 0} → (A → Type 0) → Reply A → Type 0
Answers Q (ok a) = Q a
Answers Q (err e) = Unit

-- Every history to which `m` is applied gives a result that satisfies `Q`.
pub record Returns {A : Type 0} (Q : A → Type 0) (m : M A) : Type 0 where
  pub at : (h : History) → Q (m h).0

module _ {B : Type 0} {Q : B → Type 0} where
  pub Returns-pure : (b : B) → Q b → Returns Q (pure b)
  unfolding pure
  Returns-pure b q = record { at = λ h. q }

  pub Returns-bind :
      {A : Type 0} (m : M A) (f : A → M B) → ((a : A) → Returns Q (f a)) → Returns Q (m >>= f)
  unfolding ◌>>=◌
  Returns-bind m f rf = record { at = λ h. (rf (m h).0).at (m h).1 }

  pub Returns-call :
      (e : Effect) (f : History → B) → ((h : History) → Q (f h)) → Returns Q (call e f)
  unfolding call
  Returns-call e f q = record { at = q }

  pub Returns-on_error :
      (o : Option Failure) (f : Failure → M B) (m : M B)
      → ((e : Failure) → Returns Q (f e))
      → Returns Q m
      → Returns Q (on_error o f m)
  unfolding on_error
  Returns-on_error none f m rf rm = rm
  Returns-on_error (some e) f m rf rm = rf e

  pub Returns-on_reply :
      {A : Type 0} (r : Reply A) (f : Failure → M B) (g : A → M B)
      → ((e : Failure) → Returns Q (f e))
      → ((a : A) → Returns Q (g a))
      → Returns Q (on_reply r f g)
  unfolding on_reply
  Returns-on_reply (ok a) f g rf rg = rg a
  Returns-on_reply (err e) f g rf rg = rf e

  pub Returns-if :
      (b : Bool) (m n : M B)
      → (b ≡ true → Returns Q m)
      → (b ≡ false → Returns Q n)
      → Returns Q (if b then m else n)
  Returns-if true m n rm rn = rm refl
  Returns-if false m n rm rn = rn refl

pub ruleset returns_rules =
    (Returns-pure, Returns-bind, Returns-on_error, Returns-on_reply, Returns-if)

-- The rest of a program may use what is known of the value before it.
pub Keeps-bind_returns :
    {A B : Type 0} {I : History → Type 0} (Q : A → Type 0) (m : M A) (f : A → M B)
    → Keeps I m
    → Returns Q m
    → ((a : A) → Q a → Keeps I (f a))
    → Keeps I (m >>= f)
unfolding ◌>>=◌
Keeps-bind_returns Q m f km rm kf = record {
  at = λ h i. (kf (m h).0 (rm.at h)).at (m h).1 (km.at h i);
}

pub Returns-bind_returns :
    {A B : Type 0} {Q : B → Type 0} (R : A → Type 0) (m : M A) (f : A → M B)
    → Returns R m
    → ((a : A) → R a → Returns Q (f a))
    → Returns Q (m >>= f)
unfolding ◌>>=◌
Returns-bind_returns R m f rm rf = record { at = λ h. (rf (m h).0 (rm.at h)).at (m h).1 }

-- The code behind an answer may use what is known of its object.
pub Keeps-answered :
    {A B : Type 0} {I : History → Type 0} (Q : A → Type 0) (x : Reply A) (f : Failure → M B)
    (g : A → M B)
    → Answers Q x
    → ((e : Failure) → Keeps I (f e))
    → ((a : A) → Q a → Keeps I (g a))
    → Keeps I (on_reply x f g)
unfolding on_reply
Keeps-answered Q (ok a) f g q kf kg = kg a q
Keeps-answered Q (err e) f g q kf kg = kf e

pub Returns-ask :
    {A : Type 0} {Q : A → Type 0} (f : History → A) → ((h : History) → Q (f h)) → Returns Q (ask f)
unfolding ask
Returns-ask f q = record { at = q }
