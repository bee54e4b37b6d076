-- ===== src/TestController/Created.antt =====
-- The pods that the Test controller creates.
use konfirm.Base.{◌≡◌, refl, true, false, [], ◌∷◌}
use konfirm.Api.{OwnerReference, Pod, Test, is_final}
use konfirm.Cluster.{Effect, NamespacedName, create_pod}
use konfirm.TestController.Pods.{TestReconciler, test_finalizer, new_pod}
use konfirm.TestController.Answers.{IsAnswer}

-- A pod of the test `t`: it holds the controller's finalizer, runs once, and is controlled by `t`
-- alone, in the namespace of `t`; the rest is the template's.
pub record IsTestPod (t : Test) (p : Pod) : Type 0 where
  pub held : p.meta.finalizers ≡ test_finalizer ∷ []
  pub runs_once : p.spec.restart_policy ≡ "Never"
  pub placed : p.meta.namespace ≡ t.meta.namespace
  pub one_owner :
      (o : OwnerReference) × (p.meta.owner_references ≡ o ∷ [])
      × (o.uid ≡ t.meta.uid)
      × (o.controller ≡ true)
  pub labelled : p.meta.labels ≡ t.spec.template.meta.labels
  pub images : p.spec.images ≡ t.spec.template.spec.images

-- A pod is created for a Test that the server answered with, and whose phase there is not final.
abbrev pub CreatesTestPod : TestReconciler → Effect → Type 0
CreatesTestPod r (create_pod p) =
    (req : NamespacedName) × (t : Test) × IsAnswer r req t
    × (is_final t.status.phase ≡ false)
    × IsTestPod t p
CreatesTestPod r _ = Unit

pub new_pod-IsTestPod : (t : Test) → IsTestPod t (new_pod t)
unfolding new_pod
new_pod-IsTestPod t = record {
  held = refl;
  runs_once = refl;
  placed = refl;
  one_owner = (_, refl, refl, refl);
  labelled = refl;
  images = refl;
}
