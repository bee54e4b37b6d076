-- ===== src/Cluster/Monad.antt =====
-- Code that calls the cluster: it reads the history, and returns its value and the history after it.
use konfirm.Base.{true, false, Option, none, some, ◌∷◌, ℕ}
use konfirm.Cluster.Defs.{
  Failure, Reply, ok, err, Effect, delete_pod, patch_pod, delete_test, patch_test, patch_run,
  delete_run, delete_suite, patch_suite, History, Env, Result,
}
use konfirm.Api.{ObjectMeta, Pod, Test, TestRun, TestSuite}

abbrev pub M {ℓ} : Type ℓ → Type ℓ
M A = History → A × History

module _ {A : Type 0} where
  unfoldable pub pure : A → M A
  pure a h = (a, h)

infixl 10 ◌>>=◌ ◌>>◌
-- Opening this opens `pure` too.
unfoldable pub ◌>>=◌ : {A B : Type 0} → M A → (A → M B) → M B
unfolding pure
◌>>=◌ m f h = let (a, h') = m h in f a h'

abbrev pub ◌>>◌ : {A B : Type 0} → M A → M B → M B
m >> n = m >>= λ _. n

-- A write whose answer is not used.
unfoldable pub emit : Effect → M (Unit {0})
emit e h = (tt, e ∷ h)

-- A write, answered by the history before it.
unfoldable pub call : {A : Type 0} → Effect → (History → A) → M A
call e f h = (f h, e ∷ h)

-- A read.
unfoldable pub ask : {A : Type 0} → (History → A) → M A
ask f h = (f h, h)

-- `if err := …; err != nil { … } else { … }`
unfoldable pub on_error : {A : Type 0} → Option Failure → (Failure → M A) → M A → M A
on_error none f m = m
on_error (some e) f m = f e

-- `if x != nil { … } else { … }`
unfoldable pub on_some : {A B : Type 0} → Option A → (A → M B) → M B → M B
on_some none f m = m
on_some (some a) f m = f a

unfoldable pub on_reply : {A B : Type 0} → Reply A → (Failure → M B) → (A → M B) → M B
on_reply (ok a) f g = g a
on_reply (err e) f g = f e

-- `client.Object` with the client's methods for its type.
pub record Kind (O : Type 0) : Type 0 where
  pub meta : O → ObjectMeta
  pub with_meta : O → ObjectMeta → O
  pub patch : O → O → M (Reply O)
  pub delete : O → M (Option Failure)

unfoldable pub pod_kind : Env → Kind Pod
unfolding call
pod_kind env = record {
  meta = λ p. p.meta;
  with_meta = λ p m. record p { meta = m };
  patch = λ orig new. call (patch_pod orig new) (λ h. env.patch_pod h orig new);
  delete = λ p. call (delete_pod p) (λ h. env.delete_pod h p);
}

unfoldable pub test_kind : Env → Kind Test
unfolding call
test_kind env = record {
  meta = λ t. t.meta;
  with_meta = λ t m. record t { meta = m };
  patch = λ orig new. call (patch_test orig new) (λ h. env.patch_test h orig new);
  delete = λ t. call (delete_test t) (λ h. env.delete_test h t);
}

unfoldable pub run_kind : Env → Kind TestRun
unfolding call
run_kind env = record {
  meta = λ t. t.meta;
  with_meta = λ t m. record t { meta = m };
  patch = λ orig new. call (patch_run orig new) (λ h. env.patch_run h orig new);
  delete = λ t. call (delete_run t) (λ h. env.delete_run h t);
}

unfoldable pub suite_kind : Env → Kind TestSuite
unfolding call
suite_kind env = record {
  meta = λ t. t.meta;
  with_meta = λ t m. record t { meta = m };
  patch = λ orig new. call (patch_suite orig new) (λ h. env.patch_suite h orig new);
  delete = λ t. call (delete_suite t) (λ h. env.delete_suite h t);
}

-- ctrl.Result{}, and the request to be called again after a delay.
abbrev pub done : Result
done = record { requeue = false; requeue_after = 0 }

abbrev pub retry_after : ℕ → Result
retry_after d = record { requeue = true; requeue_after = d }
