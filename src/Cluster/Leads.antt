-- ===== src/Cluster/Leads.antt =====
-- Programs that use up a fact about the history: they begin where `P` holds, and leave `R`.
use konfirm.Base.{◌≡◌, refl, Bool, true, false, if◌then◌else◌}
use konfirm.Cluster.Defs.{Failure, Reply, ok, err, History}
use konfirm.Cluster.Monad.{M, ◌>>=◌, on_reply}
use konfirm.Cluster.Keeps.{Keeps}

pub record Leads {A : Type 0} (P R : History → Type 0) (m : M A) : Type 0 where
  pub at : (h : History) → P h → R (m h).1

module _ {P R : History → Type 0} where
  pub Leads-Keeps : {A : Type 0} (m : M A) → ((h : History) → P h → R h) → Keeps P m → Leads P R m
  Leads-Keeps m weaken km = record { at = λ h p. weaken (m h).1 (km.at h p) }

  -- The fact is not used.
  pub Leads-from : {A : Type 0} (m : M A) → ((h : History) → P h → R h) → Keeps R m → Leads P R m
  Leads-from m weaken km = record { at = λ h p. km.at h (weaken h p) }

  -- The fact is used behind `m`.
  pub Leads-bind :
      {A B : Type 0} (m : M A) (f : A → M B)
      → Keeps P m
      → ((a : A) → Leads P R (f a))
      → Leads P R (m >>= f)
  unfolding ◌>>=◌
  Leads-bind m f km lf = record { at = λ h p. (lf (m h).0).at (m h).1 (km.at h p) }

  -- The fact is used in `m`.
  pub Leads-then :
      {A B : Type 0} (m : M A) (f : A → M B)
      → Leads P R m
      → ((a : A) → Keeps R (f a))
      → Leads P R (m >>= f)
  unfolding ◌>>=◌
  Leads-then m f lm kf = record { at = λ h p. (kf (m h).0).at (m h).1 (lm.at h p) }

  -- The value of `m` brings another fact.
  pub Leads-gives :
      {A B : Type 0} (Q : A → History → Type 0) (m : M A) (f : A → M B)
      → ((h : History) → P h → Q (m h).0 (m h).1)
      → ((a : A) → Leads (Q a) R (f a))
      → Leads P R (m >>= f)
  unfolding ◌>>=◌
  Leads-gives Q m f gives lf = record { at = λ h p. (lf (m h).0).at (m h).1 (gives h p) }

  pub Leads-on_reply :
      {A B : Type 0} (reply : Reply A) (f : Failure → M B) (g : A → M B)
      → ((e : Failure) → Leads P R (f e))
      → ((a : A) → Leads P R (g a))
      → Leads P R (on_reply reply f g)
  unfolding on_reply
  Leads-on_reply (ok a) f g lf lg = lg a
  Leads-on_reply (err e) f g lf lg = lf e

  pub Leads-if :
      {A : Type 0} (b : Bool) (m n : M A)
      → (b ≡ true → Leads P R m)
      → (b ≡ false → Leads P R n)
      → Leads P R (if b then m else n)
  Leads-if true m n lm ln = lm refl
  Leads-if false m n lm ln = ln refl

-- What an answer brings: with an object what `Is` says of it, and with an error `I` alone.
abbrev pub Answered :
    {A : Type 0} → (History → Type 0) → (A → History → Type 0) → Reply A → History → Type 0
Answered I Is (ok a) h = Is a h
Answered I Is (err e) h = I h

pub Leads-answered :
    {A B : Type 0} {I R : History → Type 0} (Is : A → History → Type 0) (reply : Reply A)
    (f : Failure → M B) (g : A → M B)
    → ((e : Failure) → Leads I R (f e))
    → ((a : A) → Leads (Is a) R (g a))
    → Leads (Answered I Is reply) R (on_reply reply f g)
unfolding on_reply
Leads-answered Is (ok a) f g lf lg = lg a
Leads-answered Is (err e) f g lf lg = lf e
