-- ===== src/TestController/Stored.antt =====
-- The phases of Tests as the server stores them, and a client whose reads are not behind it.
use konfirm.Base.{◌≡◌, String, [], ◌∷◌, str_eq, if◌then◌else◌}
use konfirm.Api.{Test, TestPhase}
use konfirm.Cluster.{Reply, ok, err, Env, History, NamespacedName, patch_test_status}

-- The server's answers to status patches of Tests.
abbrev pub Answer : Type 0
Answer = History → Test → Test → Reply Test

-- The phase after a status patch that is answered so, where it was `phase` before.
abbrev pub patched : Reply Test → TestPhase → TestPhase
patched (ok t) phase = t.status.phase
patched (err e) phase = phase

-- The phase of the Test with the given uid: the one that the server answered to the latest status
-- patch that it accepted for it, and before the first one that with which the history begins.
abbrev pub stored : Answer → (String → TestPhase) → String → History → TestPhase
stored answer before uid [] = before uid
stored answer before uid (patch_test_status a b ∷ h) =
    let rest = stored answer before uid h in
    if str_eq a.meta.uid uid then patched (answer h a b) rest else rest
stored answer before uid (_ ∷ h) = stored answer before uid h

-- Reads and patches of a Test answer with the phase that is stored, and a status patch with the Test
-- that it was sent for.
pub record IsCurrent (env : Env) (before : String → TestPhase) : Type 0 where
  pub get :
      (h : History) (req : NamespacedName) (t : Test)
      → env.get_test h req ≡ ok t
      → t.status.phase ≡ stored env.patch_test_status before t.meta.uid h
  pub patch :
      (h : History) (a b t : Test)
      → env.patch_test h a b ≡ ok t
      → t.status.phase ≡ stored env.patch_test_status before t.meta.uid h
  pub patch_status :
      (h : History) (a b t : Test) → env.patch_test_status h a b ≡ ok t → t.meta.uid ≡ a.meta.uid
