-- ===== src/System/Calls.antt =====
-- The calls of the handlers, in any order.
use konfirm.Cluster.{History, NamespacedName}
use konfirm.TestController.{TestReconciler, reconcile}
use konfirm.RunController.{TestRunReconciler, reconcile_run}
use konfirm.SuiteController.{TestSuiteReconciler, reconcile_suite}
use konfirm.HelmWatcher.{EnqueueForHelmTrigger, HelmEvent, on_event}

-- What `main` registers with the manager.
pub record Operator : Type 0 where
  pub tests : TestReconciler
  pub runs : TestRunReconciler
  pub suites : TestSuiteReconciler
  pub releases : EnqueueForHelmTrigger

-- One call of a handler, with the writes before it and after it.
pub data Step (s : Operator) : History → History → Type 0 where
  test : (req : NamespacedName) (h : History) → Step s h (reconcile s.tests req h).1
  run : (req : NamespacedName) (h : History) → Step s h (reconcile_run s.runs req h).1
  suite : (req : NamespacedName) (h : History) → Step s h (reconcile_suite s.suites req h).1
  release : (e : HelmEvent) (h : History) → Step s h (on_event s.releases e h).1

pub data Steps (s : Operator) : History → History → Type 0 where
  stop : {h : History} → Steps s h h
  next : {h h' h'' : History} → Step s h h' → Steps s h' h'' → Steps s h h''

-- What every call keeps, any sequence of calls keeps.
pub Steps-keep :
    {s : Operator} {I : History → Type 0} {h h' : History}
    → ((g g' : History) → Step s g g' → I g → I g')
    → Steps s h h'
    → I h
    → I h'
Steps-keep keep stop i = i
Steps-keep keep (next step steps) i = Steps-keep keep steps (keep _ _ step i)
