-- ===== src/Hashkit/Truncation.antt =====
-- libhashkit/fnv_64.cc: `hashkit_fnv1a_64` keeps its state in 32 bits.
use Prim.Native.Nat.{bit_xor}
use libmemcached.Prelude.{ℕ, ◌*◌, ◌%◌, ◌^◌, ◌≡◌, refl, List, [], ◌∷◌, true, arith, IsByte, Bytes}
use libmemcached.Prelude.Bits.{bit_xor-mod}
use libmemcached.Prelude.Words.{u64_mod, mul32, char32, char64}
use libmemcached.Hashkit.Fnv.{fnv_64_init, fnv_64_prime, fnv1a_64_loop, fnv1a_64}

-- FNV-1a over 64 bits as it is published: exclusive or, then multiply.
pub fnv1a_reference : ℕ → List ℕ → ℕ
fnv1a_reference hash [] = hash
fnv1a_reference hash (c ∷ key) =
    fnv1a_reference (bit_xor hash (char64 c) * fnv_64_prime % u64_mod) key

char64-mod : (c : ℕ) → IsByte c → char64 c % 2 ^ 32 ≡ char32 c
char64-mod c h = ground arith

round-mod :
    (hash c : ℕ)
    → IsByte c
    → mul32 (bit_xor (hash % 2 ^ 32) (char32 c)) (fnv_64_prime % 2 ^ 32)
      ≡ bit_xor hash (char64 c) * fnv_64_prime % u64_mod % 2 ^ 32
round-mod hash c h = rw (← char64-mod c h, ← bit_xor-mod 32 hash (char64 c)) (omega arith)

loop-mod :
    (key : List ℕ) (hash : ℕ)
    → Bytes key
    → fnv1a_64_loop (hash % 2 ^ 32) key ≡ fnv1a_reference hash key % 2 ^ 32
unfolding fnv1a_64_loop fnv1a_reference
loop-mod [] hash h = refl
loop-mod (c ∷ key) hash h = rw (round-mod hash c h.0) (loop-mod key _ h.1)

-- The 32-bit loop of `hashkit_fnv1a_64` gives the low 32 bits of the 64-bit FNV-1a of the key (its
-- bytes extended as signed characters), on a build that has the hash.
pub fnv1a_64-reference :
    (key : List ℕ) → Bytes key → fnv1a_64 true key ≡ fnv1a_reference fnv_64_init key % 2 ^ 32
unfolding fnv1a_64
fnv1a_64-reference key h = loop-mod key fnv_64_init h
