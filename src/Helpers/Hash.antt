-- ===== src/Helpers/Hash.antt =====
-- `computeTestRunHash`: FNV-1a of 32 bits over the print of a TestRunSpec.
use Prim.Native.Nat.{bit_xor, ◌^◌}
use konfirm.Base.{ℕ, ◌*◌, ◌%◌, String, List, [], ◌∷◌, decimal}
use konfirm.Api.{TestRunSpec}
use konfirm.Cluster.{Env}

abbrev pub fnv_prime : ℕ
fnv_prime = 16777619

abbrev pub fnv_offset : ℕ
fnv_offset = 2166136261

-- `Write` of `fnv.New32a()`, on bytes: the product is that of a uint32.
unfoldable pub fnv32a : ℕ → List ℕ → ℕ
fnv32a hash [] = hash
fnv32a hash (b ∷ bs) = fnv32a (bit_xor hash b * fnv_prime % 2 ^ 32) bs

unfoldable pub compute_test_run_hash : Env → TestRunSpec → String
unfolding fnv32a
compute_test_run_hash env spec = env.safe_encode (decimal (fnv32a fnv_offset (env.print_spec spec)))
