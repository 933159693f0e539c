-- ===== src/Protocol/Header.antt =====
-- include/libmemcachedprotocol-0.0/binary.h: the header of the binary protocol, in network order, and
-- the numbers of its commands and results.
use libmemcached.Prelude.{
  ℕ, zero, suc, ◌+◌, ◌*◌, ◌/◌, ◌%◌, ◌^◌, ◌<◌, ◌≡◌, refl, ap, ◌∙◌, List, [], ◌∷◌, ◌++◌, take, drop,
  length, length-append, arith,
}
use native.Mathlib.Numerals.{unary_clauses}

-- A number in `width` bytes, the most significant first: `htons`, `htonl`, `memcached_htonll`.
unfoldable pub to_network : ℕ → ℕ → List ℕ
to_network zero n = []
to_network (suc width) n = to_network width (n / 256) ++ n % 256 ∷ []

-- `ntohs`, `ntohl`, `memcached_ntohll`
unfoldable pub from_network_onto : ℕ → List ℕ → ℕ
from_network_onto n [] = n
from_network_onto n (b ∷ bs) = from_network_onto (n * 256 + b) bs

abbrev pub from_network : List ℕ → ℕ
from_network = from_network_onto 0

-- `protocol_binary_request_header`, `protocol_binary_response_header`: the field at offset 6 is the
-- status of a response, and reserved in a request.
pub record Header : Type 0 where
  pub magic : ℕ
  pub opcode : ℕ
  pub keylen : ℕ
  pub extlen : ℕ
  pub datatype : ℕ
  pub status : ℕ
  pub bodylen : ℕ
  pub opaque : ℕ
  pub cas : ℕ

abbrev pub header_size : ℕ
header_size = 24

unfoldable pub header_bytes : Header → List ℕ
unfolding to_network
header_bytes h =
    to_network 1 h.magic
    ++ (to_network 1 h.opcode
        ++ (to_network 2 h.keylen
            ++ (to_network 1 h.extlen
                ++ (to_network 1 h.datatype
                    ++ (to_network 2 h.status
                        ++ (to_network 4 h.bodylen
                            ++ (to_network 4 h.opaque ++ to_network 8 h.cas)))))))

-- The field of `width` bytes at `offset`.
abbrev pub field : ℕ → ℕ → List ℕ → ℕ
field offset width bytes = from_network (take width (drop offset bytes))

unfoldable pub read_header : List ℕ → Header
unfolding from_network_onto
read_header bytes = record {
  magic = field 0 1 bytes;
  opcode = field 1 1 bytes;
  keylen = field 2 2 bytes;
  extlen = field 4 1 bytes;
  datatype = field 5 1 bytes;
  status = field 6 2 bytes;
  bodylen = field 8 4 bytes;
  opaque = field 12 4 bytes;
  cas = field 16 8 bytes;
}

pub record IsHeader (h : Header) : Type 0 where
  pub magic : h.magic < 256
  pub opcode : h.opcode < 256
  pub keylen : h.keylen < 2 ^ 16
  pub extlen : h.extlen < 256
  pub datatype : h.datatype < 256
  pub status : h.status < 2 ^ 16
  pub bodylen : h.bodylen < 2 ^ 32
  pub opaque : h.opaque < 2 ^ 32
  pub cas : h.cas < 2 ^ 64

from_network_onto-append :
    (n : ℕ) (bs : List ℕ) (b : ℕ)
    → from_network_onto n (bs ++ b ∷ []) ≡ from_network_onto n bs * 256 + b
unfolding from_network_onto
from_network_onto-append n [] b = refl
from_network_onto-append n (c ∷ bs) b = from_network_onto-append (n * 256 + c) bs b

pow_byte : (width : ℕ) → 256 ^ suc width ≡ 256 ^ width * 256
pow_byte width = simp unary_clauses refl

-- A number that fits comes back.
pub from_network-to_network :
    (width n : ℕ) → n < 256 ^ width → from_network (to_network width n) ≡ n
unfolding to_network
from_network-to_network zero n h = unfold from_network_onto in omega arith
from_network-to_network (suc width) n h =
    from_network_onto-append 0 (to_network width (n / 256)) (n % 256)
    ∙ ap (λ m. m * 256 + n % 256)
        (from_network-to_network width (n / 256) (omega (arith, pow_byte width, h)))
    ∙ omega arith

-- A header is read back from its bytes.
pub read_header-header_bytes :
    (h : Header) (rest : List ℕ) → IsHeader h → read_header (header_bytes h ++ rest) ≡ h
unfolding read_header header_bytes to_network from_network_onto
read_header-header_bytes h rest v =
    let f : (width n : ℕ) → n < 256 ^ width → from_network (to_network width n) ≡ n =
      from_network-to_network in
    cc (
      f 1 h.magic v.magic,
      f 1 h.opcode v.opcode,
      f 2 h.keylen v.keylen,
      f 1 h.extlen v.extlen,
      f 1 h.datatype v.datatype,
      f 2 h.status v.status,
      f 4 h.bodylen v.bodylen,
      f 4 h.opaque v.opaque,
      f 8 h.cas v.cas,
    )

pub length-to_network : (width n : ℕ) → length (to_network width n) ≡ width
unfolding to_network
length-to_network zero n = refl
length-to_network (suc width) n = omega (
  arith,
  length-append (to_network width (n / 256)) (n % 256 ∷ []),
  length-to_network width (n / 256),
)

pub length-header_bytes : (h : Header) → length (header_bytes h) ≡ header_size
unfolding header_bytes to_network
length-header_bytes h = refl
