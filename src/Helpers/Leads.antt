-- ===== src/Helpers/Leads.antt =====
-- What `addFinalizer` brings to the code behind it, for a kind whose patches answer with objects of
-- which `Is` holds.
use konfirm.Base.{Bool, true, Option, none, some, [], ◌∷◌, ◌++◌, String, Bool-cases, inl, inr}
use konfirm.Cluster.{Failure, Reply, ok, err, History, Kind, M, pure, ◌>>=◌, on_error, on_reply}
use konfirm.Cluster.Keeps.{Answers, Keeps, Returns}
use konfirm.Cluster.Leads.{Leads, Answered}
use konfirm.Helpers.Objects.{lacks, finalizers, set_finalizers, patch_object, add_finalizer}

-- The object that `addFinalizer` leaves, where it does not fail.
abbrev pub Held :
    {O : Type 0}
    → (History → Type 0)
    → (O → History → Type 0)
    → Bool × Option Failure × O
    → History
    → Type 0
Held I Is (m, none, o) h = Is o h
Held I Is (m, some e, o) h = I h

pub Leads-kept :
    {O B : Type 0} {I R : History → Type 0} (Is : O → History → Type 0) (m : Bool)
    (failure : Option Failure) (o : O) (f : Failure → M B) (g : M B)
    → ((e : Failure) → Leads I R (f e))
    → Leads (Is o) R g
    → Leads (Held I Is (m, failure, o)) R (on_error failure f g)
unfolding on_error
Leads-kept Is m none o f g lf lg = lg
Leads-kept Is m (some e) o f g lf lg = lf e

abbrev on_patched : {O : Type 0} → O → Reply O → M (Bool × Option Failure × O)
on_patched sent reply = on_reply reply (λ e. pure (true, some e, sent)) (λ o. pure (true, none, o))

module _ {O : Type 0} (k : Kind O) (I : History → Type 0) (Is : O → History → Type 0) where
  patched-Held :
      (sent : O) (h : History) (reply : Reply O)
      → Answered I Is reply h
      → Held I Is (on_patched sent reply h).0 (on_patched sent reply h).1
  unfolding on_reply pure
  patched-Held sent h (ok o) a = a
  patched-Held sent h (err e) a = a

  pub add_finalizer-Held :
      (f : String) (o : O)
      → ((new : O) (h : History)
          → Is o h
          → Answered I Is (Kind.patch k o new h).0 (Kind.patch k o new h).1)
      → (h : History) → Is o h
      → Held I Is (add_finalizer k f o h).0 (add_finalizer k f o h).1
  unfolding add_finalizer patch_object ◌>>=◌ pure
  add_finalizer-Held f o patches h p = elim (Bool-cases (lacks f true (finalizers k o))) [
    | inl lacking ↦ rw lacking (
        let new = set_finalizers k (finalizers k o ++ f ∷ []) o in
        patched-Held new (Kind.patch k o new h).1 (Kind.patch k o new h).0 (patches new h p))
    | inr present ↦ rw present p
  ]

-- The same for what does not depend on the history.
abbrev pub Kept : {O : Type 0} → (O → Type 0) → Bool × Option Failure × O → Type 0
Kept Is (m, none, o) = Is o
Kept Is (m, some e, o) = Unit

pub Keeps-kept :
    {O B : Type 0} {I : History → Type 0} (Is : O → Type 0) (m : Bool) (failure : Option Failure)
    (o : O) (f : Failure → M B) (g : M B)
    → Kept Is (m, failure, o)
    → ((e : Failure) → Keeps I (f e))
    → (Is o → Keeps I g)
    → Keeps I (on_error failure f g)
unfolding on_error
Keeps-kept Is m none o f g q kf kg = kg q
Keeps-kept Is m (some e) o f g q kf kg = kf e

module _ {O : Type 0} (k : Kind O) (Is : O → Type 0) where
  patched-Kept :
      (sent : O) (h : History) (reply : Reply O)
      → Answers Is reply
      → Kept Is (on_patched sent reply h).0
  unfolding on_reply pure
  patched-Kept sent h (ok o) a = a
  patched-Kept sent h (err e) a = tt

  pub add_finalizer-Kept :
      (f : String) (o : O)
      → Is o
      → ((new : O) (h : History) → Answers Is (Kind.patch k o new h).0)
      → Returns (Kept Is) (add_finalizer k f o)
  unfolding add_finalizer patch_object ◌>>=◌ pure
  add_finalizer-Kept f o here patches = record {
    at = λ h. elim (Bool-cases (lacks f true (finalizers k o))) [
      | inl lacking ↦ rw lacking (
          let new = set_finalizers k (finalizers k o ++ f ∷ []) o in
          patched-Kept new (Kind.patch k o new h).1 (Kind.patch k o new h).0 (patches new h))
      | inr present ↦ rw present here
    ];
  }
