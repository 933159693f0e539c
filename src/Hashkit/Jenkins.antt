-- ===== src/Hashkit/Jenkins.antt =====
-- libhashkit/jenkins.cc on a little-endian machine. The source has three copies of the loop, by
-- the alignment of the key's address; they differ in how a block and a last lane are read, so the
-- loop stands here once, over a `Reader`.
pub mod Alignment
use Prim.Native.Nat.{bit_and, bit_xor}
use libmemcached.Prelude.{
  ℕ, ◌+◌, ◌*◌, ◌%◌, List, [], ◌∷◌, ◌++◌, length, take, drop, ◌==◌, if◌then◌else◌,
}
use libmemcached.Prelude.Words.{u32_mod, add32, sub32, shl32, rotl32}

-- The internal state.
pub record Mix : Type 0 where
  pub a : ℕ
  pub b : ℕ
  pub c : ℕ

-- The macro `mix`.
unfoldable pub mix : Mix → Mix
mix s =
    let a1 = bit_xor (sub32 s.a s.c) (rotl32 s.c 4) in
    let c1 = add32 s.c s.b in
    let b1 = bit_xor (sub32 s.b a1) (rotl32 a1 6) in
    let a2 = add32 a1 c1 in
    let c2 = bit_xor (sub32 c1 b1) (rotl32 b1 8) in
    let b2 = add32 b1 a2 in
    let a3 = bit_xor (sub32 a2 c2) (rotl32 c2 16) in
    let c3 = add32 c2 b2 in
    let b3 = bit_xor (sub32 b2 a3) (rotl32 a3 19) in
    let a4 = add32 a3 c3 in
    let c4 = bit_xor (sub32 c3 b3) (rotl32 b3 4) in record { a = a4; b = add32 b3 a4; c = c4 }

-- The macro `final`; only `c` is read after it.
unfoldable pub final_c : Mix → ℕ
final_c s =
    let c1 = sub32 (bit_xor s.c s.b) (rotl32 s.b 14) in
    let a1 = sub32 (bit_xor s.a c1) (rotl32 c1 11) in
    let b1 = sub32 (bit_xor s.b a1) (rotl32 a1 25) in
    let c2 = sub32 (bit_xor c1 b1) (rotl32 b1 16) in
    let a2 = sub32 (bit_xor a1 c2) (rotl32 c2 4) in
    let b2 = sub32 (bit_xor b1 a2) (rotl32 a2 14) in sub32 (bit_xor c2 b2) (rotl32 b2 24)

-- How a copy of the loop adds four bytes to a lane, and the up to four bytes of a last lane.
pub record Reader : Type 0 where
  pub block : ℕ → ℕ → ℕ → ℕ → ℕ → ℕ
  pub lane : ℕ → List ℕ → ℕ

abbrev pub word : ℕ → ℕ → ℕ → ℕ → ℕ
word b0 b1 b2 b3 = b0 + 256 * (b1 + 256 * (b2 + 256 * b3))

abbrev pub half : ℕ → ℕ → ℕ
half b0 b1 = b0 + 256 * b1

-- `k[i]` of a `uint32_t` array: a word read past the key's end takes the bytes that lie there.
unfoldable pub read_word : List ℕ → ℕ
read_word [] = 0
read_word (b ∷ bs) = b + 256 * read_word bs

unfoldable pub lane32 : List ℕ → ℕ → List ℕ → ℕ
lane32 beyond x [] = x
lane32 beyond x (b0 ∷ []) = add32 x (bit_and (read_word (take 4 (b0 ∷ beyond))) 0xff)
lane32 beyond x (b0 ∷ b1 ∷ []) = add32 x (bit_and (read_word (take 4 (b0 ∷ b1 ∷ beyond))) 0xffff)
lane32 beyond x (b0 ∷ b1 ∷ b2 ∷ []) =
    add32 x (bit_and (read_word (take 4 (b0 ∷ b1 ∷ b2 ∷ beyond))) 0xffffff)
lane32 beyond x (b0 ∷ b1 ∷ b2 ∷ b3 ∷ rest) = add32 x (word b0 b1 b2 b3)

unfoldable pub lane16 : ℕ → List ℕ → ℕ
lane16 x [] = x
lane16 x (b0 ∷ []) = add32 x b0
lane16 x (b0 ∷ b1 ∷ []) = add32 x (half b0 b1)
lane16 x (b0 ∷ b1 ∷ b2 ∷ []) = add32 (add32 x (shl32 b2 16)) (half b0 b1)
lane16 x (b0 ∷ b1 ∷ b2 ∷ b3 ∷ rest) = add32 x (add32 (half b0 b1) (shl32 (half b2 b3) 16))

-- The cases fall through from the highest byte down.
unfoldable pub lane8 : ℕ → List ℕ → ℕ
lane8 x [] = x
lane8 x (b0 ∷ []) = add32 x b0
lane8 x (b0 ∷ b1 ∷ []) = add32 (add32 x (shl32 b1 8)) b0
lane8 x (b0 ∷ b1 ∷ b2 ∷ []) = add32 (add32 (add32 x (shl32 b2 16)) (shl32 b1 8)) b0
lane8 x (b0 ∷ b1 ∷ b2 ∷ b3 ∷ rest) =
    add32 (add32 (add32 (add32 x (shl32 b3 24)) (shl32 b2 16)) (shl32 b1 8)) b0

-- The key's address is a multiple of four; `beyond` is what lies behind the key.
abbrev pub reader32 : List ℕ → Reader
reader32 beyond = record {
  block = λ x b0 b1 b2 b3. add32 x (word b0 b1 b2 b3);
  lane = lane32 beyond;
}

-- A multiple of two.
abbrev pub reader16 : Reader
reader16 = record {
  block = λ x b0 b1 b2 b3. add32 x (add32 (half b0 b1) (shl32 (half b2 b3) 16));
  lane = lane16;
}

abbrev pub reader8 : Reader
reader8 = record {
  block =
      λ x b0 b1 b2 b3. add32 (add32 (add32 (add32 x b0) (shl32 b1 8)) (shl32 b2 16)) (shl32 b3 24);
  lane = lane8;
}

-- The last block: up to four bytes to each lane; no byte, no mixing.
unfoldable pub last_block : Reader → Mix → List ℕ → ℕ
last_block r s [] = s.c
last_block r s (b0 ∷ rest) = final_c (record {
  a = r.lane s.a (take 4 (b0 ∷ rest));
  b = r.lane s.b (take 4 (drop 4 (b0 ∷ rest)));
  c = r.lane s.c (take 4 (drop 8 (b0 ∷ rest)));
})

-- `while (length > 12)`
unfoldable pub jenkins_loop : Reader → Mix → List ℕ → ℕ
jenkins_loop r s (b0 ∷ b1 ∷ b2 ∷ b3 ∷ b4 ∷ b5 ∷ b6 ∷ b7 ∷ b8 ∷ b9 ∷ b10 ∷ b11 ∷ b12 ∷ rest) =
    jenkins_loop r
      (mix (record {
        a = r.block s.a b0 b1 b2 b3;
        b = r.block s.b b4 b5 b6 b7;
        c = r.block s.c b8 b9 b10 b11;
      }))
      (b12 ∷ rest)
jenkins_loop r s rest = last_block r s rest

-- `0xdeadbeef + length + JENKINS_INITVAL`
abbrev pub jenkins_init : List ℕ → Mix
jenkins_init key = record { a = v; b = v; c = v }
  where
    v : ℕ
    v = add32 (add32 0xdeadbeef (length key % u32_mod)) 13

abbrev pub reader_at : ℕ → List ℕ → Reader
reader_at address beyond =
    if address % 4 == 0 then reader32 beyond else if address % 2 == 0 then reader16 else reader8

-- `hashkit_jenkins` of the bytes `key` that stand at `address`, followed by `beyond`.
unfoldable pub jenkins : ℕ → List ℕ → List ℕ → ℕ
unfolding jenkins_loop last_block mix final_c lane32 lane16 lane8 read_word
jenkins address beyond key = jenkins_loop (reader_at address beyond) (jenkins_init key) key
