-- ===== src/Commands/Startup.antt =====
-- main.go: what is set up before the manager starts, and how the program ends.
use konfirm.Base.{ℕ, String, Bool, false, Option, none, some, List, [], ◌∷◌, ◌*◌}
use konfirm.Cluster.{Failure, Reply, Env, History}
use konfirm.Logging.{EncoderConfig, Level, encoder_level_config, lowercase_level_encoder}
use konfirm.TestController.{TestReconciler}
use konfirm.RunController.{TestRunReconciler}
use konfirm.SuiteController.{TestSuiteReconciler}

-- The variables that the flags set.
pub record Flags : Type 0 where
  pub metrics_bind_address : String
  pub health_probe_bind_address : String
  pub leader_elect : Bool

-- Their defaults.
abbrev pub default_flags : Flags
default_flags = record {
  metrics_bind_address = ":8080";
  health_probe_bind_address = ":8081";
  leader_elect = false;
}

-- `ctrl.Options`
pub record ManagerOptions : Type 0 where
  pub metrics_bind_address : String
  pub health_probe_bind_address : String
  pub leader_election : Bool
  pub leader_election_id : String

abbrev pub manager_options : Flags → ManagerOptions
manager_options flags = record {
  metrics_bind_address = flags.metrics_bind_address;
  health_probe_bind_address = flags.health_probe_bind_address;
  leader_election = flags.leader_elect;
  leader_election_id = "1337e21f.goraft.tech";
}

-- `zap.Options`, before the flags of zap are bound to it.
abbrev pub encoder_options : (Level → String) → List (EncoderConfig → EncoderConfig)
encoder_options string = encoder_level_config (lowercase_level_encoder string) ∷ []

-- `time.Minute`, in nanoseconds.
abbrev pub minute : ℕ
minute = 60 * 1000000000

-- What is set up, with the calls that may fail: the reconcilers' `SetupWithManager`, the checks of
-- the probe's endpoint, and `Start`, which returns when the manager stops.
pub data Action : Type 0 where
  new_manager : ManagerOptions → Action
  set_up_tests : TestReconciler → Action
  set_up_runs : TestRunReconciler → Action
  set_up_suites : TestSuiteReconciler → Action
  add_healthz_check add_readyz_check : String → Action
  start : Action
  log_info : String → Action
  -- `setupLog.Error`, with the value of "controller" where it is given, and `os.Exit`.
  log_error : Failure → String → Option String → Action
  exit : ℕ → Action

-- The manager, as far as it is used: its client, the parser and the clock of the libraries, and how
-- each of the calls, which are made once, ends.
pub record Manager : Type 0 where
  pub client : Env
  pub parse_standard : String → Reply (ℕ → ℕ)
  pub real_clock : History → ℕ
  pub fails : Action → Option Failure

module _ (mgr : Manager) where
  abbrev pub test_reconciler : TestReconciler
  test_reconciler = record { client = mgr.client; err_requeue_delay = minute }

  abbrev pub run_reconciler : TestRunReconciler
  run_reconciler = record { client = mgr.client; err_requeue_delay = minute }

  abbrev pub suite_reconciler : TestSuiteReconciler
  suite_reconciler = record {
    client = mgr.client;
    err_requeue_delay = minute;
    cron_parser = mgr.parse_standard;
    clock = mgr.real_clock;
  }

  -- `if err := …; err != nil { setupLog.Error(err, …); os.Exit(1) }`, and the code behind it.
  abbrev attempt : Action → String → Option String → List Action → List Action
  attempt action message controller rest = action ∷ (elim (mgr.fails action) [
    | none ↦ rest
    | some e ↦ log_error e message controller ∷ exit 1 ∷ []
  ])

  -- `main` behind the parsing of the flags, in the order in which it acts.
  unfoldable pub main : Flags → List Action
  main flags = attempt (new_manager (manager_options flags)) "unable to start manager" none (
      attempt (set_up_tests test_reconciler) "unable to create controller" (some "Test") (
        attempt (set_up_runs run_reconciler) "unable to create controller" (some "TestRun") (
          attempt (set_up_suites suite_reconciler) "unable to create controller" (some "TestSuite")
            (attempt (add_healthz_check "healthz") "unable to set up health check" none (
              attempt (add_readyz_check "readyz") "unable to set up ready check" none
                (log_info "starting manager" ∷ attempt start "problem running manager" none []))))))

-- The exit code, which is 0 where `main` returns.
abbrev pub exit_code : List Action → ℕ
exit_code [] = 0
exit_code (exit n ∷ actions) = n
exit_code (_ ∷ actions) = exit_code actions
