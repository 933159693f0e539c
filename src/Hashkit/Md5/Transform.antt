-- ===== src/Hashkit/Md5/Transform.antt =====
-- libhashkit/md5.cc: `MD5Transform` and what it calls. Each call of the macros FF, GG, HH and II
-- names the registers one place further round than the call before: here the registers go round.
use Prim.Native.Nat.{bit_and, bit_or, bit_xor}
use libmemcached.Prelude.{ℕ, List, [], ◌∷◌, get_or}
use libmemcached.Prelude.Words.{add32, shl32, shr, rotl32, not32}

-- `UINT4 state[4]`
pub record Registers : Type 0 where
  pub a : ℕ
  pub b : ℕ
  pub c : ℕ
  pub d : ℕ

-- The index into `x`, the rotation and the constant of a call.
abbrev pub Step : Type 0
Step = ℕ × ℕ × ℕ

abbrev round1 : List Step
round1 =
    (0, 7, 0xd76aa478)
    ∷ (1, 12, 0xe8c7b756)
    ∷ (2, 17, 0x242070db)
    ∷ (3, 22, 0xc1bdceee)
    ∷ (4, 7, 0xf57c0faf)
    ∷ (5, 12, 0x4787c62a)
    ∷ (6, 17, 0xa8304613)
    ∷ (7, 22, 0xfd469501)
    ∷ (8, 7, 0x698098d8)
    ∷ (9, 12, 0x8b44f7af)
    ∷ (10, 17, 0xffff5bb1)
    ∷ (11, 22, 0x895cd7be)
    ∷ (12, 7, 0x6b901122)
    ∷ (13, 12, 0xfd987193)
    ∷ (14, 17, 0xa679438e)
    ∷ (15, 22, 0x49b40821)
    ∷ []

abbrev round2 : List Step
round2 =
    (1, 5, 0xf61e2562)
    ∷ (6, 9, 0xc040b340)
    ∷ (11, 14, 0x265e5a51)
    ∷ (0, 20, 0xe9b6c7aa)
    ∷ (5, 5, 0xd62f105d)
    ∷ (10, 9, 0x2441453)
    ∷ (15, 14, 0xd8a1e681)
    ∷ (4, 20, 0xe7d3fbc8)
    ∷ (9, 5, 0x21e1cde6)
    ∷ (14, 9, 0xc33707d6)
    ∷ (3, 14, 0xf4d50d87)
    ∷ (8, 20, 0x455a14ed)
    ∷ (13, 5, 0xa9e3e905)
    ∷ (2, 9, 0xfcefa3f8)
    ∷ (7, 14, 0x676f02d9)
    ∷ (12, 20, 0x8d2a4c8a)
    ∷ []

abbrev round3 : List Step
round3 =
    (5, 4, 0xfffa3942)
    ∷ (8, 11, 0x8771f681)
    ∷ (11, 16, 0x6d9d6122)
    ∷ (14, 23, 0xfde5380c)
    ∷ (1, 4, 0xa4beea44)
    ∷ (4, 11, 0x4bdecfa9)
    ∷ (7, 16, 0xf6bb4b60)
    ∷ (10, 23, 0xbebfbc70)
    ∷ (13, 4, 0x289b7ec6)
    ∷ (0, 11, 0xeaa127fa)
    ∷ (3, 16, 0xd4ef3085)
    ∷ (6, 23, 0x4881d05)
    ∷ (9, 4, 0xd9d4d039)
    ∷ (12, 11, 0xe6db99e5)
    ∷ (15, 16, 0x1fa27cf8)
    ∷ (2, 23, 0xc4ac5665)
    ∷ []

abbrev round4 : List Step
round4 =
    (0, 6, 0xf4292244)
    ∷ (7, 10, 0x432aff97)
    ∷ (14, 15, 0xab9423a7)
    ∷ (5, 21, 0xfc93a039)
    ∷ (12, 6, 0x655b59c3)
    ∷ (3, 10, 0x8f0ccc92)
    ∷ (10, 15, 0xffeff47d)
    ∷ (1, 21, 0x85845dd1)
    ∷ (8, 6, 0x6fa87e4f)
    ∷ (15, 10, 0xfe2ce6e0)
    ∷ (6, 15, 0xa3014314)
    ∷ (13, 21, 0x4e0811a1)
    ∷ (4, 6, 0xf7537e82)
    ∷ (11, 10, 0xbd3af235)
    ∷ (2, 15, 0x2ad7d2bb)
    ∷ (9, 21, 0xeb86d391)
    ∷ []

-- The macros F, G, H and I.
abbrev f_ff : ℕ → ℕ → ℕ → ℕ
f_ff x y z = bit_or (bit_and x y) (bit_and (not32 x) z)

abbrev f_gg : ℕ → ℕ → ℕ → ℕ
f_gg x y z = bit_or (bit_and x z) (bit_and y (not32 z))

abbrev f_hh : ℕ → ℕ → ℕ → ℕ
f_hh x y z = bit_xor (bit_xor x y) z

abbrev f_ii : ℕ → ℕ → ℕ → ℕ
f_ii x y z = bit_xor y (bit_or x (not32 z))

-- `Decode` on the block: sixteen little-endian words.
pub decode : List ℕ → List ℕ
decode (b0 ∷ b1 ∷ b2 ∷ b3 ∷ rest) =
    bit_or (bit_or (bit_or b0 (shl32 b1 8)) (shl32 b2 16)) (shl32 b3 24) ∷ decode rest
decode rest = []

-- `Encode`
unfoldable pub encode : List ℕ → List ℕ
encode [] = []
encode (w ∷ ws) =
    bit_and w 0xff
    ∷ bit_and (shr w 8) 0xff
    ∷ bit_and (shr w 16) 0xff
    ∷ bit_and (shr w 24) 0xff
    ∷ encode ws

-- One call of FF, GG, HH or II, with the macro's function.
pub operation : (ℕ → ℕ → ℕ → ℕ) → List ℕ → Registers → Step → Registers
operation f x r (k, s, ac) =
    let sum = add32 r.a (add32 (add32 (f r.b r.c r.d) (get_or x k 0)) ac) in
    record { a = r.d; b = add32 (rotl32 sum s) r.b; c = r.b; d = r.c }

pub round : (ℕ → ℕ → ℕ → ℕ) → List ℕ → Registers → List Step → Registers
round f x r [] = r
round f x r (step ∷ steps) = round f x (operation f x r step) steps

-- `MD5Transform`
unfoldable pub transform : Registers → List ℕ → Registers
unfolding decode operation round
transform r block =
    let x = decode block in
    let r1 = round f_ff x r round1 in
    let r2 = round f_gg x r1 round2 in
    let r3 = round f_hh x r2 round3 in
    let r4 = round f_ii x r3 round4 in
    record { a = add32 r.a r4.a; b = add32 r.b r4.b; c = add32 r.c r4.c; d = add32 r.d r4.d }
