-- ===== src/Prelude/Words.antt =====
-- `uint32_t` and `uint64_t` arithmetic: native numbers below the modulus, wrap-around by `%`.
use Prim.Native.Nat.{ℕ, ◌+◌, ◌-◌, ◌*◌, ◌/◌, ◌%◌, ◌^◌, bit_or}
use libmemcached.Prelude.Tests.{ltb, if◌then◌else◌}

abbrev pub u32_mod : ℕ
u32_mod = 2 ^ 32

abbrev pub u64_mod : ℕ
u64_mod = 2 ^ 64

abbrev pub add32 : ℕ → ℕ → ℕ
add32 a b = (a + b) % u32_mod

abbrev pub sub32 : ℕ → ℕ → ℕ
sub32 a b = (a + u32_mod - b) % u32_mod

abbrev pub mul32 : ℕ → ℕ → ℕ
mul32 a b = (a * b) % u32_mod

abbrev pub shl32 : ℕ → ℕ → ℕ
shl32 a k = (a * 2 ^ k) % u32_mod

abbrev pub shr : ℕ → ℕ → ℕ
shr a k = a / 2 ^ k

-- `(x << r) | (x >> (32 - r))`
abbrev pub rotl32 : ℕ → ℕ → ℕ
rotl32 x r = bit_or (shl32 x r) (shr x (32 - r))

-- `~x` of a `uint32_t`
abbrev pub not32 : ℕ → ℕ
not32 x = u32_mod - 1 - x

-- A `char` is signed: a byte above 127 becomes a negative `int`, extended to 32 or 64 bits.
abbrev pub char32 : ℕ → ℕ
char32 c = if ltb c 128 then c else u32_mod - 256 + c

abbrev pub char64 : ℕ → ℕ
char64 c = if ltb c 128 then c else u64_mod - 256 + c
