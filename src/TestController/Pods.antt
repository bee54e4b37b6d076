-- ===== src/TestController/Pods.antt =====
-- The loops of `TestReconciler` over the controlled pods, and the pod that it creates.
use konfirm.Base.{
  ℕ, String, Bool, true, false, not, ◌&&◌, Option, none, some, List, [], ◌∷◌, ◌++◌, is_some, concat,
  if◌then◌else◌,
}
use konfirm.Api.{Pod, PodPhase, Test}
use konfirm.Cluster.{Failure, Env, M, pure, ◌>>=◌, pod_kind}
use konfirm.Helpers.{ErrorList, collect, remove_finalizer, clean_up}

-- The reconciler's fields that its methods use; the recorder's calls are effects.
pub record TestReconciler : Type 0 where
  pub client : Env
  pub err_requeue_delay : ℕ

abbrev pub test_finalizer : String
test_finalizer = "konfirm.goraft.tech/test-controller"

abbrev pub pod_created_condition : String
pod_created_condition = "PodCreated"

abbrev pub test_completed_condition : String
test_completed_condition = "TestCompleted"

abbrev pub is_deleted : Pod → Bool
is_deleted p = is_some p.meta.deletion_timestamp

-- `phase == v1.PodSucceeded || phase == v1.PodFailed`
abbrev pub has_completed : PodPhase → Bool
has_completed PodPhase.succeeded = true
has_completed PodPhase.failed = true
has_completed _ = false

-- `if err = client.IgnoreNotFound(err); err != nil { errs.Append(err) }`, under `err != nil`.
abbrev pub collect_found : Env → ErrorList → Option Failure → ErrorList
collect_found env errs none = errs
collect_found env errs (some e) = collect errs (env.ignore_not_found e)

module _ (r : TestReconciler) where
  -- The first loop of `isRunning`: it drops the deleted pods that have not completed, and frees every
  -- deleted pod of the finalizer. `new_pods` holds pointers, so a kept pod is the patched one.
  unfoldable pub usable_pods : ErrorList → List Pod → List Pod → M (ErrorList × List Pod)
  usable_pods errs new_pods [] = pure (errs, new_pods)
  usable_pods errs new_pods (p ∷ ps) =
      if is_deleted p
      then (do
        (_, failure, p') ← remove_finalizer (pod_kind r.client) test_finalizer p
        usable_pods (collect_found r.client errs failure)
            (if has_completed p'.status.phase then new_pods ++ p' ∷ [] else new_pods) ps)
      else usable_pods errs (new_pods ++ p ∷ []) ps

  -- The second loop of `isRunning`, from index 1: a pod that is not deleted replaces a deleted one,
  -- and any other further pod is cleaned up.
  unfoldable pub select_pod : Pod → ErrorList → List Pod → M (ErrorList × Pod)
  select_pod pod errs [] = pure (errs, pod)
  select_pod pod errs (p ∷ ps) =
      if not (is_deleted p) && is_deleted pod then select_pod p errs ps else do
        (_, failure, _) ← clean_up (pod_kind r.client) r.client test_finalizer p
        select_pod pod (collect_found r.client errs failure) ps

  -- The first loop of `isComplete`. It changes the pods in place.
  unfoldable pub free_deleted_pods : ErrorList → List Pod → List Pod → M (ErrorList × List Pod)
  free_deleted_pods errs seen [] = pure (errs, seen)
  free_deleted_pods errs seen (p ∷ ps) =
      if is_deleted p
      then (do
        (_, failure, p') ← remove_finalizer (pod_kind r.client) test_finalizer p
        free_deleted_pods (collect_found r.client errs failure) (seen ++ p' ∷ []) ps)
      else free_deleted_pods errs (seen ++ p ∷ []) ps

-- The pod that `isRunning` builds from the template: its metadata and spec, with the name, the
-- owner, the finalizer and the restart policy set.
unfoldable pub new_pod : Test → Pod
new_pod test = record {
  meta = record test.spec.template.meta {
    name = "";
    namespace = test.meta.namespace;
    generate_name = concat (test.meta.name ∷ "-" ∷ []);
    owner_references =
        record {
          api_version = test.type.api_version;
          kind = test.type.kind;
          name = test.meta.name;
          uid = test.meta.uid;
          controller = true;
          block_owner_deletion = true;
        }
        ∷ [];
    finalizers = test_finalizer ∷ [];
  };
  spec = record test.spec.template.spec { restart_policy = "Never" };
  -- The zero value: no phase is set.
  status = record { phase = PodPhase.other ""; container_statuses = [] };
}
