-- ===== src/Helpers/CleanUp.antt =====
-- `cleanUp` and `cleanUpAll`: what has happened when they report no error, and how errors add up.
use konfirm.Base.{
  String, ◌≡◌, refl, ◌⊎◌, Bool, true, false, ◌||◌, Option, none, some, List, [], ◌∷◌, ◌++◌, is_some,
  arith, Bool-cases, Option-cases, inl, inr,
}
use mathlib.Core.List.{append-nil, append_assoc}
use konfirm.Cluster.{
  Failure, Reply, ok, err, Env, History, M, pure, ◌>>=◌, on_reply, on_error, Kind,
}
use konfirm.Helpers.Errors.{ErrorList, no_errors, collect, join_errors}
use konfirm.Helpers.Objects.{
  finalizers, set_finalizers, patch_object, remove_finalizer, release, clean_up, clean_each,
  clean_up_all,
}
use konfirm.Helpers.Finalizers.{contains, without, contains-without, remove_finalizer-eq}

abbrev pub any_modified : List (Bool × Option Failure) → Bool
any_modified [] = false
any_modified (x ∷ xs) = x.0 || any_modified xs

abbrev pub failures : List (Bool × Option Failure) → List Failure
failures [] = []
failures ((m, none) ∷ xs) = failures xs
failures ((m, some e) ∷ xs) = e ∷ failures xs

-- Recording one more failure, before or after the others.
collect-append :
    (errs : ErrorList) (m : Bool) (o : Option Failure) (xs : List (Bool × Option Failure))
    → (collect errs o).errors ++ failures xs ≡ errs.errors ++ failures ((m, o) ∷ xs)
collect-append errs m none xs = refl
collect-append errs m (some e) xs = append_assoc errs.errors (e ∷ []) (failures xs)

module _ {O : Type 0} (k : Kind O) (env : Env) (f : String) where
  -- `cleanUp` on each object in turn, with all that it returned.
  unfoldable pub each : List O → M (List (Bool × Option Failure))
  each [] = pure []
  each (o ∷ os) = do
    (m, failure, _) ← clean_up k env f o
    rest ← each os
    pure ((m, failure) ∷ rest)

  pub clean_each-eq :
      (b : Bool) (errs : ErrorList) (os : List O) (h : History)
      → clean_each k env f b errs os h ≡ (
        (
          b || any_modified (each os h).0,
          record { errors = errs.errors ++ failures (each os h).0 },
        ),
        (each os h).1,
      )
  unfolding clean_each each ◌>>=◌ pure
  clean_each-eq b errs [] h = ground (arith, append-nil errs.errors)
  clean_each-eq b errs (o ∷ os) h =
      let (m, failure, _) = (clean_up k env f o h).0 in
      let h' = (clean_up k env f o h).1 in
      ground (
        arith,
        clean_each-eq (b || m) (collect errs failure) os h',
        collect-append errs m failure (each os h').0,
      )

  -- `cleanUpAll` is `cleanUp` on every object in turn, whatever fails on the way: it reports a change
  -- where one of them did, and the joined errors of those that failed.
  pub clean_up_all-eq :
      (os : List O) (h : History)
      → clean_up_all k env f os h
        ≡ ((any_modified (each os h).0, join_errors (failures (each os h).0)), (each os h).1)
  unfolding clean_up_all ◌>>=◌
  clean_up_all-eq os h = rw (clean_each-eq false no_errors os h)

module _ {O : Type 0} (k : Kind O) where
  -- A reply to a patch that stored the finalizers that it was sent.
  abbrev pub StoresFinalizers : O → Reply O → Type 0
  StoresFinalizers new (ok o) = finalizers k o ≡ finalizers k new
  StoresFinalizers new (err e) = Unit

module _ {O : Type 0} (k : Kind O) (env : Env) (f : String)
    (law : (o : O) (fs : List String) → finalizers k (set_finalizers k fs o) ≡ fs)
    (stores : (a b : O) (h : History) → StoresFinalizers k b (Kind.patch k a b h).0) where
  patch_lacks :
      (o : O) (reply : Reply O) (h : History)
      → let sent = set_finalizers k (without f (finalizers k o)) o in
        let tail =
          on_reply {B = Bool × Option Failure × O} reply
            (λ e. pure (true, some e, sent))
            (λ o'. pure (true, none, o'))
            h in
        StoresFinalizers k sent reply → tail.0.1 ≡ none → contains f (finalizers k tail.0.2) ≡ false
  unfolding on_reply pure
  patch_lacks o (ok o') h stored e =
      rw (stored, law o (without f (finalizers k o))) (contains-without f (finalizers k o))
  patch_lacks o (err x) h stored e = cc

  remove_lacks :
      (o : O) (h : History)
      → (remove_finalizer k f o h).0.1 ≡ none
      → contains f (finalizers k (remove_finalizer k f o h).0.2) ≡ false
  unfolding patch_object ◌>>=◌
  remove_lacks o h e = elim (Bool-cases (contains f (finalizers k o))) [
    | inl has ↦
        rw (remove_finalizer-eq k f o h, has)
          (patch_lacks o _ _ (stores o _ h) (rw (remove_finalizer-eq k f o h, has) at e))
    | inr lacks ↦ rw (remove_finalizer-eq k f o h, lacks) lacks
  ]

  -- `release` ends as the removal of the finalizer does.
  release_ends :
      (m : Bool) (o : O) (h : History)
      → ((release k f m o h).0.1 ≡ (remove_finalizer k f o h).0.1)
        × ((release k f m o h).0.2 ≡ (remove_finalizer k f o h).0.2)
  unfolding release ◌>>=◌ on_error pure
  release_ends m o h = ground arith

  release_lacks :
      (m : Bool) (o : O) (h : History)
      → (release k f m o h).0.1 ≡ none
      → contains f (finalizers k (release k f m o h).0.2) ≡ false
  release_lacks m o h e =
      let (same_error, same_object) = release_ends m o h in
      rw same_object (remove_lacks o h (rw same_error at e))

  -- Where `cleanUp` reports no error, the object is free of the finalizer as the server last stored
  -- it, or it was not deleted before and its deletion failed because it no longer exists.
  pub clean_up_releases :
      (o : O) (h : History)
      → (clean_up k env f o h).0.1 ≡ none
      → (contains f (finalizers k (clean_up k env f o h).0.2) ≡ false)
        ⊎ ((e : Failure) × ((Kind.delete k o h).0 ≡ some e) × (env.ignore_not_found e ≡ none))
  unfolding clean_up ◌>>=◌ on_error pure
  clean_up_releases o h e = elim (Bool-cases (is_some (Kind.meta k o).deletion_timestamp)) [
    | inl old ↦ inl (rw old (release_lacks false o h (rw old at e)))
    | inr fresh ↦ elim (Option-cases (Kind.delete k o h).0) [
      | inl fine ↦
          inl
            (rw (fresh, fine) (release_lacks true o (Kind.delete k o h).1 (rw (fresh, fine) at e)))
      | inr (x, refused) ↦ inr (x, refused, rw (fresh, refused) at e)
    ]
  ]
