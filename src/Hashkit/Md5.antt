-- ===== src/Hashkit/Md5.antt =====
-- libhashkit/md5.cc: the context, its update and the signature.
pub mod Transform
use Prim.Native.Nat.{bit_and, bit_or}
use Transform.{Registers, transform, encode}
use libmemcached.Prelude.{
  ℕ, zero, suc, ◌+◌, ◌-◌, ◌*◌, ◌%◌, List, [], ◌∷◌, ◌++◌, true, false, length, take, drop, get_or,
  replicate, ltb, leb, if◌then◌else◌,
}
use libmemcached.Prelude.Words.{u32_mod, add32, shl32, shr}

-- `MD5_CTX`
pub record Context : Type 0 where
  pub state : Registers
  pub count0 : ℕ
  pub count1 : ℕ
  pub buffer : List ℕ

-- `memcpy(&buffer[idx], input, length of input)`
unfoldable pub splice : List ℕ → ℕ → List ℕ → List ℕ
splice buffer idx input = take idx buffer ++ input ++ drop (idx + length input) buffer

-- `MD5Init`. The buffer is not set there; it is read only where it has been written.
unfoldable pub md5_init : Context
md5_init = record {
  state = record { a = 0x67452301; b = 0xefcdab89; c = 0x98badcfe; d = 0x10325476 };
  count0 = 0;
  count1 = 0;
  buffer = replicate 64 0;
}

-- `for (i = partLen; i + 63 < inputLen; i += 64)`: the state, and the input left over. Each round
-- takes 64 bytes, so the input's length is fuel enough.
unfoldable pub transform_blocks : ℕ → Registers → List ℕ → Registers × List ℕ
transform_blocks zero r input = (r, input)
transform_blocks (suc fuel) r input = elim (ltb 63 (length input)) [
  | true ↦ transform_blocks fuel (transform r (take 64 input)) (drop 64 input)
  | false ↦ (r, input)
]

-- The bytes buffered by a context: `(count[0] >> 3) & 0x3F`.
abbrev pub buffered : Context → ℕ
buffered ctx = bit_and (shr ctx.count0 3) 0x3f

-- The branch of `MD5Update` whose input fills the buffer.
unfoldable pub fill_buffer : Context → List ℕ → Registers × List ℕ
fill_buffer ctx input =
    let idx = buffered ctx in
    let part = 64 - idx in
    let full = splice ctx.buffer idx (take part input) in
    let (r, rest) = transform_blocks (length input) (transform ctx.state full) (drop part input) in
    (r, splice full 0 rest)

unfoldable pub update_buffer : Context → List ℕ → Registers × List ℕ
unfolding fill_buffer
update_buffer ctx input =
    let idx = buffered ctx in
    if leb (64 - idx) (length input)
    then fill_buffer ctx input
    else (ctx.state, splice ctx.buffer idx input)

-- `MD5Update`, of fewer than 2 ^ 32 bytes.
unfoldable pub md5_update : Context → List ℕ → Context
md5_update ctx input =
    let shifted = shl32 (length input) 3 in
    let low = add32 ctx.count0 shifted in
    let carried = if ltb low shifted then add32 ctx.count1 1 else ctx.count1 in
    let (r, buffer) = update_buffer ctx input in
    record {
      state = r;
      count0 = low;
      count1 = add32 carried (shr (length input) 29);
      buffer = buffer;
    }

-- The first `n` bytes of PADDING.
abbrev pub padding : ℕ → List ℕ
padding n = take n (0x80 ∷ replicate 63 0)

-- `MD5Final`: the digest.
unfoldable pub md5_final : Context → List ℕ
md5_final ctx =
    let bits = encode (ctx.count0 ∷ ctx.count1 ∷ []) in
    let idx = buffered ctx in
    let pad_len = if ltb idx 56 then 56 - idx else 120 - idx in
    let done = md5_update (md5_update ctx (padding pad_len)) bits in
    encode (done.state.a ∷ done.state.b ∷ done.state.c ∷ done.state.d ∷ [])

-- `md5_signature`; the length goes in as an `unsigned int`.
unfoldable pub md5_signature : List ℕ → List ℕ
unfolding splice md5_init transform_blocks transform update_buffer md5_update encode md5_final
md5_signature key = md5_final (md5_update md5_init (take (length key % u32_mod) key))

-- Four bytes of the signature as a word, the last one highest.
unfoldable pub signature_word : List ℕ → ℕ → ℕ
signature_word results i =
    bit_or
      (bit_or
        (bit_or (shl32 (bit_and (get_or results (3 + i) 0) 0xff) 24)
          (shl32 (bit_and (get_or results (2 + i) 0) 0xff) 16))
        (shl32 (bit_and (get_or results (1 + i) 0) 0xff) 8))
      (bit_and (get_or results i 0) 0xff)

-- `hashkit_md5`
unfoldable pub md5 : List ℕ → ℕ
unfolding md5_signature signature_word
md5 key = signature_word (md5_signature key) 0
