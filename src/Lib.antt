-- ===== src/Lib.antt =====
-- Konfirm, a Kubernetes operator that runs integration tests in Pods.
--
-- The operator stores its work in API objects. A TestRun lists templates of Tests; its controller
-- creates a Test for each and adds their results up. A TestSuite holds the template of a TestRun;
-- its controller creates one when the suite is triggered by hand, by a Helm release or by its
-- schedule, and follows it. A Test holds the template of a Pod; its controller creates the Pod and
-- follows its phase. A new Helm release enqueues the TestSuites that subscribe to it. The
-- controllers are called again and again with the name of one object, read it and its children
-- from the API server, and write to them.
--
-- Which file models what (paths from the root of the repository):
-- - Base: lists, texts, maps and numbers as Go has them; Decimal, Numerals and Numbers are about
--   `%d`, strconv.Itoa and strconv.Atoi on bytes.
-- - Api: the types of api/v1alpha1, and of the Kubernetes types the fields that the controllers
--   use.
-- - Cluster: the API server and the recorder. Cluster/Keeps has the rules for invariants of the
--   writes, and Cluster/Leads those for facts that a program uses up.
-- - Helpers: controllers/errors.go (ErrorList), and of controllers/helpers.go the conditions
--   (getCondition, hasCondition), the finalizers (addFinalizer, removeFinalizer), the cleanup
--   (cleanUp, cleanUpAll) and computeTestRunHash with FNV-1a written out. `Kind` says how an
--   object of some type is read, patched and deleted, as `client.Object` does.
-- - TestController: controllers/test_controller.go. Pods has the loops over pods of isRunning and
--   isComplete and the pod that is created, Status the switch on the pod's phase, Reconcile the
--   rest; `reconcile` is TestReconciler.Reconcile, and its parts carry the names of the methods.
-- - Sweep: the loop of both controllers of runs that takes deleted objects out of a slice.
-- - RunController: controllers/testrun_controller.go. Mapping and Results the two loops of
--   isRunning, Reconcile the rest; `reconcile_run` is TestRunReconciler.Reconcile.
-- - SuiteController: controllers/testsuite_controller.go. Prepare has Reconcile between the
--   finalizer and the code of the phases; Schedule, Release and Trigger the three parts of
--   notRunning; Running isRunning; and Reconcile the rest: `reconcile_suite` is
--   TestSuiteReconciler.Reconcile. `Flow` is how a part of a method ends, with a value for the
--   code behind it or with a return.
-- - HelmWatcher: controllers/helmrelease_watcher.go and HelmReleaseMeta and
--   ParseHelmReleaseSecret of controllers/helpers.go. Release reads a Secret, Handle enqueues the
--   TestSuites that a release triggers; the queue is part of the history of writes.
-- - Indexes: the field indexes that SetupWithManager of the three controllers registers.
-- - Logging: logging/logging.go. Loggers has Logger over the operations of logr, Levels the two
--   level encoders, with the int8 subtraction that they print.
-- - Commands: Startup is main.go, from the flags to the exit code, and Mock cmd/mock/main.go.
-- - System: the handlers that main.go registers, called one after the other in any order on the
--   same cluster. A call runs to its end before the next one begins; the answers of the server may
--   depend on everything written before, so that reads may lag behind.
-- - The module Answers of each of the three controllers says which objects the server has answered
--   with, to the read or to a patch; what the controllers create is tied to these.
-- - Scenarios: concrete clusters, on which the definitions run and the theorems are applied.
--
-- State and calls. A call of Reconcile is a program of the monad `M`, a function of the history of
-- writes, newest first, that returns a value and the history with its own writes in front. The API
-- server is a parameter, `Env`: each of its answers is any function of the history so far, so that
-- a server may refuse, lag behind or answer differently each time. What a theorem needs of it
-- stands among its hypotheses. Events of the recorder and increments of Prometheus counters are
-- writes too. An invariant of the writes is `All P` of the history, kept from the history before
-- the call. A panic is an exit of its own in the TestRun controller, which indexes slices by
-- numbers from names, and in the TestSuite controller, which may call a schedule that is nil.
--
-- Time. The clock is a function of the history, so that any time may pass at a write, but none
-- between two reads without one. Times and durations are numbers of nanoseconds; that a
-- `time.Duration` ends at 292 years is left out. A cron schedule is the function `Next`.
--
-- Fuel and bounds. `decimal n` has fuel for n + 1 digits, which are more than it needs; `sweep`
-- has one round more than there are items, and running out of it would show as an index out of
-- range. Indices and counts are lengths of slices, far below the limits of Go's int, so they are
-- natural numbers; a parsed index is an integer.
--
-- Not modelled: the log lines of the controllers, which nothing reads; deep copies and the scheme,
-- which are generated; the wiring of SetupWithManager but for the field indexes, which is calls of
-- controller-runtime; and the manifests (config/, charts/). The merge that a patch computes and
-- `meta.SetStatusCondition` belong to libraries: the patch is written down with the objects it is
-- computed from, and the function is a field of `Env`, as are `sort.Slice`, the print of spew and
-- `rand.SafeEncodeString`. Of main.go the parsing of the flags and the making of the client's
-- configuration are library calls too.
pub mod Api
pub mod Base
pub mod Cluster
pub mod Commands
pub mod HelmWatcher
pub mod Helpers
pub mod Indexes
pub mod Logging
pub mod RunController
pub mod Scenarios
pub mod SuiteController
pub mod Sweep
pub mod System
pub mod TestController
