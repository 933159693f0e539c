-- ===== src/Hashkit/Murmur.antt =====
-- libhashkit/murmur.cc, murmur3.cc and murmur3_api.cc, on a little-endian machine.
use Prim.Native.Nat.{bit_xor}
use libmemcached.Prelude.{ℕ, ◌+◌, ◌*◌, ◌%◌, List, [], ◌∷◌, length, Bool, if◌then◌else◌}
use libmemcached.Prelude.Words.{u32_mod, add32, mul32, shr, rotl32}

-- `memcpy(&k, data, n)` into a zeroed `uint32_t`, n ≤ 4: the first byte is the lowest.
abbrev pub read32 : List ℕ → ℕ
read32 [] = 0
read32 (b ∷ bs) = b + 256 * read32 bs

abbrev pub murmur_m : ℕ
murmur_m = 0x5bd1e995

unfoldable pub murmur_block : ℕ → ℕ → ℕ
murmur_block h word =
    let k = mul32 word murmur_m in
    let k' = mul32 (bit_xor k (shr k 24)) murmur_m in bit_xor (mul32 h murmur_m) k'

-- `if (length) { … }` after the loop
unfoldable pub murmur_tail : ℕ → List ℕ → ℕ
murmur_tail h [] = h
murmur_tail h (b ∷ rest) = mul32 (bit_xor h (read32 (b ∷ rest))) murmur_m

-- `while (length >= 4) { … }`
unfoldable pub murmur_loop : ℕ → List ℕ → ℕ
murmur_loop h (b0 ∷ b1 ∷ b2 ∷ b3 ∷ rest) =
    murmur_loop (murmur_block h (read32 (b0 ∷ b1 ∷ b2 ∷ b3 ∷ []))) rest
murmur_loop h rest = murmur_tail h rest

unfoldable pub murmur_end : ℕ → ℕ
murmur_end h = let h1 = bit_xor h (shr h 13) in let h2 = mul32 h1 murmur_m in bit_xor h2 (shr h2 15)

abbrev pub seed_of : List ℕ → ℕ
seed_of key = mul32 0xdeadbeef (length key % u32_mod)

-- `enabled` is `defined(HAVE_MURMUR_HASH)`.
unfoldable pub murmur : Bool → List ℕ → ℕ
unfolding murmur_loop murmur_block murmur_tail murmur_end
murmur enabled key =
    if enabled
    then murmur_end (murmur_loop (bit_xor (seed_of key) (length key % u32_mod)) key)
    else 0

unfoldable pub fmix32 : ℕ → ℕ
fmix32 h =
    let h1 = mul32 (bit_xor h (shr h 16)) 0x85ebca6b in
    let h2 = mul32 (bit_xor h1 (shr h1 13)) 0xc2b2ae35 in bit_xor h2 (shr h2 16)

abbrev pub scramble : ℕ → ℕ
scramble k1 = mul32 (rotl32 (mul32 k1 0xcc9e2d51) 15) 0x1b873593

unfoldable pub murmur3_block : ℕ → ℕ → ℕ
murmur3_block h1 k1 = add32 (mul32 (rotl32 (bit_xor h1 (scramble k1)) 13) 5) 0xe6546b64

-- The loop over the whole blocks, then the tail of `len & 3` bytes.
unfoldable pub murmur3_loop : ℕ → List ℕ → ℕ
murmur3_loop h1 (b0 ∷ b1 ∷ b2 ∷ b3 ∷ rest) =
    murmur3_loop (murmur3_block h1 (read32 (b0 ∷ b1 ∷ b2 ∷ b3 ∷ []))) rest
murmur3_loop h1 rest = bit_xor h1 (scramble (read32 rest))

-- `MurmurHash3_x86_32`, for a length that an `int` holds.
unfoldable pub murmur_hash3_x86_32 : List ℕ → ℕ → ℕ
murmur_hash3_x86_32 key seed = fmix32 (bit_xor (murmur3_loop seed key) (length key % u32_mod))

unfoldable pub murmur3 : List ℕ → ℕ
unfolding murmur3_loop murmur3_block murmur_hash3_x86_32 fmix32
murmur3 key = murmur_hash3_x86_32 key (seed_of key)
