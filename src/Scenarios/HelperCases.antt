-- ===== src/Scenarios/HelperCases.antt =====
-- The helpers on concrete pods.
use konfirm.Base.{◌≡◌, refl, false, none, some, [], ◌∷◌, ◌⊎◌}
use konfirm.Api.{Pod, PodPhase, TestPhase}
use konfirm.Cluster.{Env, Failure, Kind, pod_kind, ◌>>=◌, call, on_reply, on_error}
use konfirm.Helpers.{
  finalizers, set_finalizers, patch_object, add_finalizer, remove_finalizer, clean_up, clean_up_all,
  join_errors,
}
use konfirm.Helpers.Finalizers.{contains, finalizer_patches}
use konfirm.Helpers.CleanUp.{each, any_modified, failures, clean_up_all-eq, clean_up_releases}
use konfirm.TestController.{test_finalizer}
use konfirm.Scenarios.Sample.{accepting, named, held_by, smoke_test, pod_in, empty_run}

abbrev env : Env
env = accepting (smoke_test TestPhase.running (named "smoke")) [] empty_run []

abbrev pods : Kind Pod
pods = pod_kind env

abbrev free : Pod
free = pod_in PodPhase.running (held_by "other" (named "a"))

abbrev held : Pod
held = pod_in PodPhase.running (held_by test_finalizer (named "b"))

finalizer_patches_example :
    (add_finalizer pods test_finalizer held [] ≡ ((false, none, held), []))
    × (remove_finalizer pods test_finalizer held []
        ≡ patch_object pods held (set_finalizers pods [] held) [])
unfolding pod_kind
finalizer_patches_example = finalizer_patches pods test_finalizer held []

clean_up_all-eq_example :
    let xs = (each pods env test_finalizer (free ∷ held ∷ []) []) in
    clean_up_all pods env test_finalizer (free ∷ held ∷ []) []
    ≡ ((any_modified xs.0, join_errors (failures xs.0)), xs.1)
clean_up_all-eq_example = clean_up_all-eq pods env test_finalizer (free ∷ held ∷ []) []

held_cleaned : (clean_up pods env test_finalizer held []).0.1 ≡ none
unfolding clean_up remove_finalizer ◌>>=◌ pod_kind call on_reply on_error
held_cleaned = refl

clean_up_releases_example :
    (contains test_finalizer (finalizers pods (clean_up pods env test_finalizer held []).0.2)
      ≡ false)
    ⊎ ((e : Failure) × ((Kind.delete pods held []).0 ≡ some e) × (env.ignore_not_found e ≡ none))
unfolding pod_kind call
clean_up_releases_example =
    clean_up_releases pods env test_finalizer (λ o fs. refl) (λ a b h. refl) held [] held_cleaned
