-- ===== src/Helpers/Finalizers.antt =====
-- `addFinalizer` and `removeFinalizer` against their descriptions: which object they send, and when.
use konfirm.Base.{
  String, ◌≡◌, refl, Bool, true, false, not, ◌&&◌, ◌||◌, none, List, [], ◌∷◌, ◌++◌, str_eq, eq_refl,
  if◌then◌else◌, arith, Bool-cases, inl, inr,
}
use mathlib.Core.List.{append-nil, append_assoc}
use konfirm.Cluster.{ok, History, pure, ◌>>=◌, on_reply, Kind}
use konfirm.Helpers.Objects.{
  lacks, strip, finalizers, set_finalizers, patch_object, add_finalizer, remove_finalizer,
}

abbrev pub contains : String → List String → Bool
contains f [] = false
contains f (g ∷ gs) = str_eq g f || contains f gs

-- The others, in order.
abbrev pub without : String → List String → List String
without f [] = []
without f (g ∷ gs) = let rest = without f gs in if str_eq g f then rest else g ∷ rest

lacks-eq : (f : String) (b : Bool) (fs : List String) → lacks f b fs ≡ (b && not (contains f fs))
lacks-eq f b [] = ground arith
lacks-eq f b (g ∷ gs) = ground (arith, lacks-eq f (if str_eq g f then false else b) gs)

strip-eq :
    (f : String) (b : Bool) (kept fs : List String)
    → strip f b kept fs ≡ (b || contains f fs, kept ++ without f fs)
strip-eq f b kept [] = ground (arith, append-nil kept)
strip-eq f b kept (g ∷ gs) = elim (Bool-cases (str_eq g f)) [
  | inl e ↦ rw e (ground (arith, strip-eq f true kept gs))
  | inr e ↦
      rw e (
        ground (arith, strip-eq f b (kept ++ g ∷ []) gs, append_assoc kept (g ∷ []) (without f gs)))
]

strip-without :
    (f : String) (fs : List String) → strip f false [] fs ≡ (contains f fs, without f fs)
strip-without f fs = strip-eq f false [] fs

without-append :
    (f : String) (fs : List String) → contains f fs ≡ false → without f (fs ++ f ∷ []) ≡ fs
without-append f [] h = rw (eq_refl f)
without-append f (g ∷ gs) h = ground (arith, without-append f gs)

contains-append : (f : String) (fs : List String) → contains f (fs ++ f ∷ []) ≡ true
contains-append f [] = rw (eq_refl f)
contains-append f (g ∷ gs) = ground (arith, contains-append f gs)

pub contains-without : (f : String) (fs : List String) → contains f (without f fs) ≡ false
contains-without f [] = refl
contains-without f (g ∷ gs) = ground (arith, contains-without f gs)

module _ {O : Type 0} (k : Kind O) where
  add_finalizer-eq :
      (f : String) (obj : O) (h : History)
      → add_finalizer k f obj h ≡ (
          if contains f (finalizers k obj)
          then ((false, none, obj), h)
          else patch_object k obj (set_finalizers k (finalizers k obj ++ f ∷ []) obj) h)
  unfolding add_finalizer pure
  add_finalizer-eq f obj h = ground (arith, lacks-eq f true (finalizers k obj))

  pub remove_finalizer-eq :
      (f : String) (obj : O) (h : History)
      → remove_finalizer k f obj h ≡ (
          if contains f (finalizers k obj)
          then patch_object k obj (set_finalizers k (without f (finalizers k obj)) obj) h
          else ((false, none, obj), h))
  unfolding remove_finalizer pure
  remove_finalizer-eq f obj h =
      rw (strip-without f (finalizers k obj))
        (elim (Bool-cases (contains f (finalizers k obj))) [ inl e ↦ rw e | inr e ↦ rw e ])

  -- `addFinalizer` patches exactly the objects that lack the finalizer, with it behind the others,
  -- and `removeFinalizer` exactly those that have it, with every occurrence of it taken out and the
  -- others in order; either leaves another object alone and reports no patch.
  pub finalizer_patches :
      (f : String) (obj : O) (h : History)
      → (add_finalizer k f obj h ≡ (
          if contains f (finalizers k obj)
          then ((false, none, obj), h)
          else patch_object k obj (set_finalizers k (finalizers k obj ++ f ∷ []) obj) h))
        × (remove_finalizer k f obj h ≡ (
            if contains f (finalizers k obj)
            then patch_object k obj (set_finalizers k (without f (finalizers k obj)) obj) h
            else ((false, none, obj), h)))
  finalizer_patches f obj h = (add_finalizer-eq f obj h, remove_finalizer-eq f obj h)

  -- Against a server that stores what it is sent, removing a finalizer that was just added gives the
  -- object's finalizers back, where it did not have that one before.
  pub remove-add :
      (f : String) (obj : O) (h : History)
      → ((o : O) (fs : List String) → finalizers k (set_finalizers k fs o) ≡ fs)
      → ((a b : O) (h' : History) → (Kind.patch k a b h').0 ≡ ok b)
      → contains f (finalizers k obj) ≡ false
      → finalizers k ((add_finalizer k f obj >>= λ x. remove_finalizer k f x.2) h).0.2
        ≡ finalizers k obj
  unfolding ◌>>=◌ patch_object on_reply
  remove-add f obj h law echo fresh =
      let fs = finalizers k obj in
      let sent = set_finalizers k (fs ++ f ∷ []) obj in
      rw (add_finalizer-eq f obj h, fresh, echo obj sent h)
        (rw (
          remove_finalizer-eq f sent _,
          law obj (fs ++ f ∷ []),
          contains-append f fs,
          echo sent _ _,
          law sent _,
          without-append f fs fresh,
        ))
