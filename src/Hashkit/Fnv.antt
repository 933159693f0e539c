-- ===== src/Hashkit/Fnv.antt =====
-- libhashkit/one_at_a_time.cc, fnv_32.cc and fnv_64.cc: the hashes that fold over single bytes.
use Prim.Native.Nat.{bit_xor}
use libmemcached.Prelude.{ℕ, ◌*◌, ◌%◌, List, [], ◌∷◌, Bool, if◌then◌else◌}
use libmemcached.Prelude.Words.{u32_mod, u64_mod, add32, mul32, shl32, shr, char32, char64}

unfoldable pub one_at_a_time_round : ℕ → ℕ → ℕ
one_at_a_time_round value c =
    let v = add32 value (char32 c) in let w = add32 v (shl32 v 10) in bit_xor w (shr w 6)

unfoldable pub one_at_a_time_loop : ℕ → List ℕ → ℕ
one_at_a_time_loop value [] = value
one_at_a_time_loop value (c ∷ key) = one_at_a_time_loop (one_at_a_time_round value c) key

unfoldable pub one_at_a_time_end : ℕ → ℕ
one_at_a_time_end value =
    let v = add32 value (shl32 value 3) in let w = bit_xor v (shr v 11) in add32 w (shl32 w 15)

unfoldable pub one_at_a_time : List ℕ → ℕ
unfolding one_at_a_time_loop one_at_a_time_round one_at_a_time_end
one_at_a_time key = one_at_a_time_end (one_at_a_time_loop 0 key)

abbrev pub fnv_32_init : ℕ
fnv_32_init = 2166136261

abbrev pub fnv_32_prime : ℕ
fnv_32_prime = 16777619

abbrev pub fnv_64_init : ℕ
fnv_64_init = 0xcbf29ce484222325

abbrev pub fnv_64_prime : ℕ
fnv_64_prime = 0x100000001b3

unfoldable pub fnv1_32_loop : ℕ → List ℕ → ℕ
fnv1_32_loop hash [] = hash
fnv1_32_loop hash (c ∷ key) = fnv1_32_loop (bit_xor (mul32 hash fnv_32_prime) (char32 c)) key

unfoldable pub fnv1_32 : List ℕ → ℕ
unfolding fnv1_32_loop
fnv1_32 key = fnv1_32_loop fnv_32_init key

unfoldable pub fnv1a_32_loop : ℕ → List ℕ → ℕ
fnv1a_32_loop hash [] = hash
fnv1a_32_loop hash (c ∷ key) = fnv1a_32_loop (mul32 (bit_xor hash (char32 c)) fnv_32_prime) key

unfoldable pub fnv1a_32 : List ℕ → ℕ
unfolding fnv1a_32_loop
fnv1a_32 key = fnv1a_32_loop fnv_32_init key

unfoldable pub fnv1_64_loop : ℕ → List ℕ → ℕ
fnv1_64_loop hash [] = hash
fnv1_64_loop hash (c ∷ key) = fnv1_64_loop (bit_xor (hash * fnv_64_prime % u64_mod) (char64 c)) key

-- `enabled` is `__WORDSIZE == 64 && defined(HAVE_FNV64_HASH)`.
unfoldable pub fnv1_64 : Bool → List ℕ → ℕ
unfolding fnv1_64_loop
fnv1_64 enabled key = if enabled then fnv1_64_loop fnv_64_init key % u32_mod else 0

-- The source keeps `hash` in 32 bits and casts the 64-bit constants.
unfoldable pub fnv1a_64_loop : ℕ → List ℕ → ℕ
fnv1a_64_loop hash [] = hash
fnv1a_64_loop hash (c ∷ key) =
    fnv1a_64_loop (mul32 (bit_xor hash (char32 c)) (fnv_64_prime % u32_mod)) key

unfoldable pub fnv1a_64 : Bool → List ℕ → ℕ
unfolding fnv1a_64_loop
fnv1a_64 enabled key = if enabled then fnv1a_64_loop (fnv_64_init % u32_mod) key else 0
