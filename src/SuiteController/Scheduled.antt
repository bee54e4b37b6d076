-- ===== src/SuiteController/Scheduled.antt =====
-- The schedule and the next run of a TestSuite on its way through `Reconcile`.
use konfirm.Base.{
  ℕ, ◌≡◌, sym, subst, String, true, false, ◌&&◌, Option, none, some, is_some, str_eq,
}
use konfirm.Api.{TestSuite}
use konfirm.Cluster.{Failure, History, Reply, ok, err, M, ◌>>=◌, on_reply}
use konfirm.Cluster.Keeps.{Answers, Returns, Returns-pure, Returns-call, Returns-bind_returns}
use konfirm.SuiteController.Defs.{
  TestSuiteReconciler, SuiteExit, returns, panics, Flow, next, stop, carry_on, finally,
  patch_suite_of, patch_status_of, or_later, or_as_sent,
}

-- A call of `Reconcile` returns, and with no error but the one that says that a run is missing, which
-- asks for a retry at once.
abbrev pub IsExpected : SuiteExit → Type 0
IsExpected panics = ⊥
IsExpected (returns result none) = Unit
IsExpected (returns result (some e)) =
    (e.message ≡ "current test run is missing") × (result.requeue ≡ true)

-- A part of it goes on with a value that satisfies `Q`, or ends it so.
abbrev pub EndsWell : {A : Type 0} → (A → Type 0) → Flow A → Type 0
EndsWell Q (next a) = Q a
EndsWell Q (stop e) = IsExpected e

-- What holds of the schedule and the next run of a TestSuite.
abbrev pub Of : (String → Option ℕ → Type 0) → TestSuite → Type 0
Of P suite = P suite.spec.when.schedule suite.status.next_run

-- The schedule and the next run of a TestSuite are those given.
abbrev pub Has : String → Option ℕ → TestSuite → Type 0
Has schedule next_run c = (c.spec.when.schedule ≡ schedule) × (c.status.next_run ≡ next_run)

-- The status is a subresource: a patch of a TestSuite that is accepted is answered with the schedule
-- that was sent and the next run that it began with, and a patch of its status with the schedule
-- that it began with and the next run that was sent. So nobody else changes them in the meantime.
pub record KeepsSchedule (r : TestSuiteReconciler) : Type 0 where
  pub patch :
      (h : History) (a b : TestSuite)
      → Answers (Has b.spec.when.schedule a.status.next_run) (r.client.patch_suite h a b)
  pub status :
      (h : History) (a b : TestSuite)
      → Answers (Has a.spec.when.schedule b.status.next_run) (r.client.patch_suite_status h a b)

-- Without a schedule there is no next run.
abbrev pub Idle : String → Option ℕ → Type 0
Idle schedule next_run = (str_eq schedule "" && is_some next_run) ≡ false

pub carry_on-EndsWell :
    {A B : Type 0} {R : B → Type 0} (Q : A → Type 0) (x : Flow A) (f : A → M (Flow B))
    → EndsWell Q x
    → ((a : A) → Q a → Returns (EndsWell R) (f a))
    → Returns (EndsWell R) (carry_on x f)
unfolding carry_on
carry_on-EndsWell Q (next a) f q rf = rf a q
carry_on-EndsWell Q (stop e) f q rf = Returns-pure _ q

pub finally-IsExpected :
    {A : Type 0} (Q : A → Type 0) (x : Flow A) (f : A → M SuiteExit)
    → EndsWell Q x
    → ((a : A) → Q a → Returns IsExpected (f a))
    → Returns IsExpected (finally x f)
unfolding finally
finally-IsExpected Q (next a) f q rf = rf a q
finally-IsExpected Q (stop e) f q rf = Returns-pure _ q

-- The code behind an answer may use what is known of its object.
pub answered-Returns :
    {A B : Type 0} {R : B → Type 0} (Q : A → Type 0) (x : Reply A) (f : Failure → M B) (g : A → M B)
    → Answers Q x
    → ((e : Failure) → Returns R (f e))
    → ((a : A) → Q a → Returns R (g a))
    → Returns R (on_reply x f g)
unfolding on_reply
answered-Returns Q (ok a) f g q rf rg = rg a q
answered-Returns Q (err e) f g q rf rg = rf e

module _ {r : TestSuiteReconciler} (keeps : KeepsSchedule r) (P : String → Option ℕ → Type 0) where
  carried :
      (schedule : String) (time : Option ℕ) (c : TestSuite)
      → Has schedule time c
      → P schedule time
      → Of P c
  carried schedule time c (same, set) p =
      subst (λ s. P s c.status.next_run) (sym same) (subst (P schedule) (sym set) p)

  answered :
      (schedule : String) (time : Option ℕ) (x : Reply TestSuite)
      → Answers (Has schedule time) x
      → P schedule time
      → Answers (Of P) x
  answered schedule time (ok c) has p = carried schedule time c has p
  answered schedule time (err e) has p = tt

  pub status-Answers :
      (a b : TestSuite)
      → P a.spec.when.schedule b.status.next_run
      → Returns (Answers (Of P)) (patch_status_of r a b)
  unfolding patch_status_of
  status-Answers a b p = Returns-call _ _ (λ h. answered _ _ _ (keeps.status h a b) p)

  pub patch-Answers :
      (a b : TestSuite)
      → P b.spec.when.schedule a.status.next_run
      → Returns (Answers (Of P)) (patch_suite_of r a b)
  unfolding patch_suite_of
  patch-Answers a b p = Returns-call _ _ (λ h. answered _ _ _ (keeps.patch h a b) p)

  pub or_later-EndsWell :
      (x : Reply TestSuite) → Answers (Of P) x → Returns (EndsWell (Of P)) (or_later r x)
  unfolding or_later on_reply
  or_later-EndsWell (ok s) p = Returns-pure _ p
  or_later-EndsWell (err e) p = Returns-pure _ tt

  or_as_sent-Of :
      (sent : TestSuite) (x : Reply TestSuite)
      → Of P sent
      → Answers (Of P) x
      → Returns (Of P) (or_as_sent r sent x)
  unfolding or_as_sent on_reply
  or_as_sent-Of sent (ok s) here p = Returns-pure _ p
  or_as_sent-Of sent (err e) here p = Returns-pure _ here

  pub status-EndsWell :
      (a b : TestSuite)
      → P a.spec.when.schedule b.status.next_run
      → Returns (EndsWell (Of P)) (patch_status_of r a b >>= λ reply. or_later r reply)
  status-EndsWell a b p =
      Returns-bind_returns (Answers (Of P)) _ _ (status-Answers a b p) or_later-EndsWell

  pub patch-EndsWell :
      (a b : TestSuite)
      → P b.spec.when.schedule a.status.next_run
      → Returns (EndsWell (Of P)) (patch_suite_of r a b >>= λ reply. or_later r reply)
  patch-EndsWell a b p =
      Returns-bind_returns (Answers (Of P)) _ _ (patch-Answers a b p) or_later-EndsWell

  pub status-as_sent :
      (a b : TestSuite)
      → P a.spec.when.schedule b.status.next_run
      → Of P b
      → Returns (Of P) (patch_status_of r a b >>= λ reply. or_as_sent r b reply)
  status-as_sent a b p here =
      Returns-bind_returns (Answers (Of P)) _ _ (status-Answers a b p)
        (λ x q. or_as_sent-Of b x here q)

  pub patch-as_sent :
      (a b : TestSuite)
      → P b.spec.when.schedule a.status.next_run
      → Of P b
      → Returns (Of P) (patch_suite_of r a b >>= λ reply. or_as_sent r b reply)
  patch-as_sent a b p here =
      Returns-bind_returns (Answers (Of P)) _ _ (patch-Answers a b p)
        (λ x q. or_as_sent-Of b x here q)
