-- ===== src/Hashkit/Hsieh.antt =====
-- libhashkit/hsieh.cc, with `get16bits` as defined for machines other than i386.
use Prim.Native.Nat.{bit_xor}
use libmemcached.Prelude.{ℕ, List, [], ◌∷◌, Bool, if◌then◌else◌}
use libmemcached.Prelude.Words.{add32, shl32, shr, char32}

abbrev pub get16bits : ℕ → ℕ → ℕ
get16bits b0 b1 = add32 (shl32 b1 8) b0

unfoldable pub hsieh_block : ℕ → ℕ → ℕ → ℕ → ℕ → ℕ
hsieh_block hash b0 b1 b2 b3 =
    let h1 = add32 hash (get16bits b0 b1) in
    let tmp = bit_xor (shl32 (get16bits b2 b3) 11) h1 in
    let h2 = bit_xor (shl32 h1 16) tmp in add32 h2 (shr h2 11)

-- The loop over four bytes at a time, and the `switch (rem)` on what is left.
unfoldable pub hsieh_loop : ℕ → List ℕ → ℕ
hsieh_loop hash (b0 ∷ b1 ∷ b2 ∷ b3 ∷ rest) = hsieh_loop (hsieh_block hash b0 b1 b2 b3) rest
hsieh_loop hash (b0 ∷ b1 ∷ b2 ∷ []) =
    let h1 = add32 hash (get16bits b0 b1) in
    let h2 = bit_xor h1 (shl32 h1 16) in
    let h3 = bit_xor h2 (shl32 (char32 b2) 18) in add32 h3 (shr h3 11)
hsieh_loop hash (b0 ∷ b1 ∷ []) =
    let h1 = add32 hash (get16bits b0 b1) in
    let h2 = bit_xor h1 (shl32 h1 11) in add32 h2 (shr h2 17)
hsieh_loop hash (b0 ∷ []) =
    let h1 = add32 hash b0 in let h2 = bit_xor h1 (shl32 h1 10) in add32 h2 (shr h2 1)
hsieh_loop hash [] = hash

unfoldable pub hsieh_end : ℕ → ℕ
hsieh_end hash =
    let h1 = bit_xor hash (shl32 hash 3) in
    let h2 = add32 h1 (shr h1 5) in
    let h3 = bit_xor h2 (shl32 h2 4) in
    let h4 = add32 h3 (shr h3 17) in let h5 = bit_xor h4 (shl32 h4 25) in add32 h5 (shr h5 6)

hsieh_key : List ℕ → ℕ
unfolding hsieh_loop hsieh_block hsieh_end
hsieh_key [] = 0
hsieh_key (b ∷ key) = hsieh_end (hsieh_loop 0 (b ∷ key))

-- `enabled` is `defined(HAVE_HSIEH_HASH)`.
unfoldable pub hsieh : Bool → List ℕ → ℕ
unfolding hsieh_key
hsieh enabled key = if enabled then hsieh_key key else 0
