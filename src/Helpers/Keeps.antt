-- ===== src/Helpers/Keeps.antt =====
-- What the helpers keep, for a kind whose patches and deletions all keep `I`.
use konfirm.Base.{Bool, String, List, [], ◌∷◌, All, All-everywhere}
use konfirm.Cluster.{History, Env, Kind}
use konfirm.Cluster.Keeps.{Keeps, keeps_rules, Keeps-bind, Keeps-pure}
use konfirm.Helpers.Errors.{ErrorList}
use konfirm.Helpers.Objects.{
  patch_object, add_finalizer, remove_finalizer, release, clean_up, clean_each, clean_up_all,
}

-- For one object, of which every patch keeps `I`.
module _ {I : History → Type 0} {O : Type 0} (k : Kind O) (o : O)
    (on_patch : (new : O) → Keeps I (Kind.patch k o new)) where
  patch_object-Keeps : (new : O) → Keeps I (patch_object k o new)
  unfolding patch_object
  patch_object-Keeps new = search (keeps_rules, on_patch)

  remove_finalizer-Keeps_of : (f : String) → Keeps I (remove_finalizer k f o)
  unfolding remove_finalizer
  remove_finalizer-Keeps_of f = search (keeps_rules, patch_object-Keeps)

  release-Keeps : (f : String) (m : Bool) → Keeps I (release k f m o)
  unfolding release
  release-Keeps f m = search (keeps_rules, remove_finalizer-Keeps_of)

  pub clean_up-Keeps_of :
      Keeps I (Kind.delete k o) → (env : Env) (f : String) → Keeps I (clean_up k env f o)
  unfolding clean_up
  clean_up-Keeps_of on_delete env f = search (keeps_rules, release-Keeps)

-- For objects of which the cleanup of each keeps `I`.
module _ {I : History → Type 0} {O : Type 0} (k : Kind O) (env : Env) (f : String) where
  clean_each-Keeps_of :
      (os : List O) (m : Bool) (errs : ErrorList)
      → All (λ o. Keeps I (clean_up k env f o)) os
      → Keeps I (clean_each k env f m errs os)
  unfolding clean_each
  clean_each-Keeps_of [] m errs kept = search keeps_rules
  clean_each-Keeps_of (o ∷ os) m errs (here, behind) =
      Keeps-bind _ _ here (λ x. clean_each-Keeps_of os _ _ behind)

  pub clean_up_all-Keeps_of :
      (os : List O) → All (λ o. Keeps I (clean_up k env f o)) os → Keeps I (clean_up_all k env f os)
  unfolding clean_up_all
  clean_up_all-Keeps_of os kept =
      Keeps-bind _ _ (clean_each-Keeps_of os _ _ kept) (λ x. Keeps-pure _)

module _ {I : History → Type 0} {O : Type 0} (k : Kind O)
    (on_patch : (orig new : O) → Keeps I (Kind.patch k orig new)) where
  pub add_finalizer-Keeps : (f : String) (o : O) → Keeps I (add_finalizer k f o)
  unfolding add_finalizer
  add_finalizer-Keeps f o = search (keeps_rules, patch_object-Keeps k o (on_patch o))

  pub remove_finalizer-Keeps : (f : String) (o : O) → Keeps I (remove_finalizer k f o)
  remove_finalizer-Keeps f o = remove_finalizer-Keeps_of k o (on_patch o) f

  module _ (on_delete : (o : O) → Keeps I (Kind.delete k o)) where
    pub clean_up-Keeps : (env : Env) (f : String) (o : O) → Keeps I (clean_up k env f o)
    clean_up-Keeps env f o = clean_up-Keeps_of k o (on_patch o) (on_delete o) env f

    pub clean_each-Keeps :
        (env : Env) (f : String) (m : Bool) (errs : ErrorList) (os : List O)
        → Keeps I (clean_each k env f m errs os)
    clean_each-Keeps env f m errs os =
        clean_each-Keeps_of k env f os m errs (All-everywhere os (λ o. clean_up-Keeps env f o))

    pub clean_up_all-Keeps :
        (env : Env) (f : String) (os : List O) → Keeps I (clean_up_all k env f os)
    clean_up_all-Keeps env f os =
        clean_up_all-Keeps_of k env f os (All-everywhere os (λ o. clean_up-Keeps env f o))
