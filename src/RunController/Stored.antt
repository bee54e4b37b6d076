-- ===== src/RunController/Stored.antt =====
-- The phases of TestRuns as the server stores them, and a client whose reads are not behind it.
use konfirm.Base.{◌≡◌, String, [], ◌∷◌, str_eq, if◌then◌else◌}
use konfirm.Api.{TestRun, TestRunPhase}
use konfirm.Cluster.{Reply, ok, err, Env, History, NamespacedName, patch_run_status}

-- The server's answers to status patches of TestRuns.
abbrev pub Answer : Type 0
Answer = History → TestRun → TestRun → Reply TestRun

abbrev pub patched : Reply TestRun → TestRunPhase → TestRunPhase
patched (ok t) phase = t.status.phase
patched (err e) phase = phase

-- The phase of the TestRun with the given uid: the one that the server answered to the latest status
-- patch that it accepted for it, and before the first one that with which the history begins.
abbrev pub stored : Answer → (String → TestRunPhase) → String → History → TestRunPhase
stored answer before uid [] = before uid
stored answer before uid (patch_run_status a b ∷ h) =
    let rest = stored answer before uid h in
    if str_eq a.meta.uid uid then patched (answer h a b) rest else rest
stored answer before uid (_ ∷ h) = stored answer before uid h

-- Reads and patches of a TestRun answer with the phase that is stored, and a status patch with the
-- TestRun that it was sent for.
pub record IsCurrent (env : Env) (before : String → TestRunPhase) : Type 0 where
  pub get :
      (h : History) (req : NamespacedName) (t : TestRun)
      → env.get_run h req ≡ ok t
      → t.status.phase ≡ stored env.patch_run_status before t.meta.uid h
  pub patch :
      (h : History) (a b t : TestRun)
      → env.patch_run h a b ≡ ok t
      → t.status.phase ≡ stored env.patch_run_status before t.meta.uid h
  pub patch_status :
      (h : History) (a b t : TestRun) → env.patch_run_status h a b ≡ ok t → t.meta.uid ≡ a.meta.uid
