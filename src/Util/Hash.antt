-- ===== src/Util/Hash.antt =====
-- src/util.rs: `fnv1a`, the 64-bit FNV-1a hash.
use Prim.Native.Nat.{bit_xor}
use proxy_watch.Prelude.{ℕ, ◌*◌, ◌%◌, ◌^◌, List, [], ◌∷◌}

abbrev pub u64_mod : ℕ
u64_mod = 2 ^ 64

-- `wrapping_mul`
fnv_step : ℕ → ℕ → ℕ
fnv_step hash byte = bit_xor hash byte * 0x100000001b3 % u64_mod

fnv_from : ℕ → List ℕ → ℕ
fnv_from hash [] = hash
fnv_from hash (b ∷ bs) = fnv_from (fnv_step hash b) bs

unfoldable pub fnv1a : List ℕ → ℕ
unfolding fnv_step fnv_from
fnv1a = fnv_from 0xcbf29ce484222325
