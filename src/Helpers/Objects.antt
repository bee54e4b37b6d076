-- ===== src/Helpers/Objects.antt =====
-- The helpers of controllers/helpers.go that change an object in the cluster. Each returns what the
-- Go function returns, and then the object that the caller's pointer refers to afterwards: the
-- server's answer after a patch that succeeds, and otherwise the object as it was sent.
use konfirm.Base.{
  String, Bool, true, false, ◌||◌, Option, none, some, List, [], ◌∷◌, ◌++◌, str_eq, is_some,
  if◌then◌else◌,
}
use konfirm.Cluster.{Failure, Env, M, pure, ◌>>=◌, on_error, on_reply, Kind}
use konfirm.Helpers.Errors.{ErrorList, no_errors, collect, join_errors}

-- The loop of `addFinalizer` over the finalizers.
abbrev pub lacks : String → Bool → List String → Bool
lacks finalizer patch [] = patch
lacks finalizer patch (f ∷ fs) = lacks finalizer (if str_eq f finalizer then false else patch) fs

-- The loop of `removeFinalizer`: whether to patch, and the finalizers that stay.
abbrev pub strip : String → Bool → List String → List String → Bool × List String
strip finalizer patch kept [] = (patch, kept)
strip finalizer patch kept (f ∷ fs) =
    strip finalizer (if str_eq f finalizer then true else patch)
      (if str_eq f finalizer then kept else kept ++ f ∷ []) fs

module _ {O : Type 0} (k : Kind O) where
  abbrev pub finalizers : O → List String
  finalizers obj = (Kind.meta k obj).finalizers

  abbrev pub set_finalizers : List String → O → O
  set_finalizers fs obj = Kind.with_meta k obj (record (Kind.meta k obj) { finalizers = fs })

  -- `kClient.Patch(ctx, obj, client.MergeFrom(orig))` as the last step of a helper.
  unfoldable pub patch_object : O → O → M (Bool × Option Failure × O)
  patch_object orig obj = do
    reply ← Kind.patch k orig obj
    on_reply reply (λ e. pure (true, some e, obj)) (λ obj'. pure (true, none, obj'))

  unfoldable pub add_finalizer : String → O → M (Bool × Option Failure × O)
  unfolding patch_object
  add_finalizer finalizer obj =
      if lacks finalizer true (finalizers obj)
      then patch_object obj (set_finalizers (finalizers obj ++ finalizer ∷ []) obj)
      else pure (false, none, obj)

  unfoldable pub remove_finalizer : String → O → M (Bool × Option Failure × O)
  unfolding patch_object
  remove_finalizer finalizer obj =
      let (patch, kept) = strip finalizer false [] (finalizers obj) in
      if patch then patch_object obj (set_finalizers kept obj) else pure (false, none, obj)

  -- The second half of `cleanUp`, once the object is deleted.
  unfoldable pub release : String → Bool → O → M (Bool × Option Failure × O)
  release finalizer modified obj = do
    (patched, failure, obj') ← remove_finalizer finalizer obj
    on_error failure (λ e. pure (modified, some e, obj')) (pure (modified || patched, none, obj'))

  unfoldable pub clean_up : Env → String → O → M (Bool × Option Failure × O)
  unfolding release
  clean_up env finalizer obj =
      if is_some (Kind.meta k obj).deletion_timestamp then release finalizer false obj else do
        failure ← Kind.delete k obj
        on_error failure (λ e. pure (false, env.ignore_not_found e, obj))
            (release finalizer true obj)

  -- The loop of `cleanUpAll`, with its `modified` and `errs`.
  unfoldable pub clean_each : Env → String → Bool → ErrorList → List O → M (Bool × ErrorList)
  clean_each env finalizer modified errs [] = pure (modified, errs)
  clean_each env finalizer modified errs (o ∷ os) = do
    (m, failure, _) ← clean_up env finalizer o
    clean_each env finalizer (modified || m) (collect errs failure) os

  unfoldable pub clean_up_all : Env → String → List O → M (Bool × Option Failure)
  unfolding clean_each
  clean_up_all env finalizer objs = do
    (modified, errs) ← clean_each env finalizer false no_errors objs
    pure (modified, join_errors errs.errors)
