-- ===== src/Protocol/Binary/Values.antt =====
-- libmemcached/response.cc: a value that comes in by the binary protocol.
use libmemcached.Prelude.{
  ◌≤◌, leb, drop-length_append, ℕ, ◌+◌, ◌^◌, ◌<◌, ◌≡◌, refl, sym, ap, subst, ◌∙◌, Bool, true, List,
  [], ◌∷◌, ◌++◌, some, none, length, arith, length-append, if◌then◌else◌,
}
use libmemcached.Prelude.Words.{sub32}
use libmemcached.Return.{success, memory_allocation_failure}
use libmemcached.Io.{Instance}
use libmemcached.Io.Read.{safe_read}
use libmemcached.Io.Stream.{coming, Leaves}
use libmemcached.Protocol.Value.{Result, result_reset, Answer}
use libmemcached.Protocol.Header.{
  Header, header_bytes, to_network, from_network, from_network-to_network, length-to_network,
}
use libmemcached.Protocol.Binary.{
  response_magic, unknown, trim_key, getk_value, getk_key, getk_bytes, item_key_size, getk,
  dispatch, header_switch, then_bytes, status_result, binary_read_one_response,
}
use libmemcached.Protocol.Binary.Replies.{header-Continues, then_part}
use libmemcached.Protocol.Command
use libmemcached.Protocol.Status

-- The header that a server sends in front of a value of such lengths.
abbrev pub value_header : ℕ → ℕ → ℕ → ℕ → Header
value_header keylen len cas opaque = record {
  magic = response_magic;
  opcode = Command.getk;
  keylen = keylen;
  extlen = 4;
  datatype = 0;
  status = Status.succeeded;
  bodylen = 4 + keylen + len;
  opaque = opaque;
  cas = cas;
}

-- The result that holds it.
abbrev pub binary_holding : List ℕ → ℕ → List ℕ → ℕ → Result
binary_holding key flags value cas = record result_reset {
  item_key = key;
  item_flags = flags;
  item_cas = cas;
  value = value;
}

header_switch-getk :
    (allocates : ℕ → Bool) (p n keylen len cas opaque : ℕ) (r : Result) (i : Instance)
    → header_switch allocates p n (value_header keylen len cas opaque) r i
      ≡ getk allocates p n (value_header keylen len cas opaque) i
unfolding header_switch dispatch
header_switch-getk allocates p n keylen len cas opaque r i = refl

trim_key-append : (ns key : List ℕ) → 0 < length key → trim_key (length ns) (ns ++ key) ≡ some key
unfolding trim_key
trim_key-append [] [] h = absurd (omega arith)
trim_key-append [] (c ∷ key) h = refl
trim_key-append (c ∷ ns) key h = ground (arith, length-append ns key, drop-length_append ns key)

sub32-add : (a b : ℕ) → a + b < 2 ^ 32 → sub32 (a + b) a ≡ b
sub32-add a b h = omega arith

le-leb : (a b : ℕ) → a ≤ b → leb a b ≡ true
le-leb a b h = ground arith

getk_value-Leaves :
    (allocates : ℕ → Bool) (p n : ℕ) (h : Header) (r : Result) (len : ℕ) (i : Instance)
    (value rest : List ℕ)
    → h.status ≡ Status.succeeded
    → allocates len ≡ true
    → i.has_socket ≡ true
    → len ≡ length value
    → coming i ≡ value ++ rest
    → (j : Instance) × (getk_value allocates p n h r len i
        ≡ some (success, record r { value = value }, j))
      × Leaves i j rest
unfolding getk_value status_result
getk_value-Leaves allocates p n h r len i value rest s a o e c =
    let (j, f, l) =
      then_part unknown r len i
        (λ bytes j. some (status_result h.status, record r { value = bytes }, j)) value rest o e
        c in
    (
      j,
      ap
            (λ b.
              if b
              then then_bytes unknown r (safe_read i len)
                  (λ bytes j. some (status_result h.status, record r { value = bytes }, j))
              else some (memory_allocation_failure, r, i))
            a
          ∙ f
          ∙ ap (λ x. some (status_result x, record r { value = value }, j)) s,
      l,
    )

getk_key-trimmed :
    (allocates : ℕ → Bool) (n : ℕ) (h : Header) (r : Result) (bodylen : ℕ) (ns key : List ℕ)
    (i : Instance)
    → 0 < length key
    → getk_key allocates (length ns) n h r bodylen (ns ++ key) i
      ≡ getk_value allocates
          (length ns)
          n
          h
          (record r { item_key = key })
          (sub32 bodylen h.keylen)
          i
unfolding getk_key
getk_key-trimmed allocates n h r bodylen ns key i k = rw (trim_key-append ns key k, getk_key)

module _ (allocates : ℕ → Bool) (n : ℕ) (ns key : List ℕ) (flags cas opaque : ℕ)
    (value : List ℕ) where
  abbrev head : Header
  head = value_header (length (ns ++ key)) (length value) cas opaque

  abbrev with_flags : ℕ → Result
  with_flags f = record result_reset { item_flags = f; item_cas = cas }

  abbrev key_next : ℕ → List ℕ → Instance → Answer
  key_next f bytes i =
      getk_key allocates (length ns) n head (with_flags f) (sub32 head.bodylen head.extlen) bytes i

  abbrev flags_next : List ℕ → Instance → Answer
  flags_next bytes i = getk_bytes allocates (length ns) n head (with_flags (from_network bytes)) i

  abbrev Fits : Type 0
  Fits =
      (allocates (length value) ≡ true)
      × (0 < length key)
      × (flags < 2 ^ 32)
      × (4 + length (ns ++ key) + length value < 2 ^ 32)
      × (length (ns ++ key) ≤ item_key_size)

  key_next-Leaves :
      (i : Instance) (rest : List ℕ)
      → Fits
      → i.has_socket ≡ true
      → coming i ≡ value ++ rest
      → (j : Instance) × (key_next flags (ns ++ key) i
          ≡ some (success, binary_holding key flags value cas, j))
        × Leaves i j rest
  key_next-Leaves i rest v o c =
      let len = sub32 (sub32 head.bodylen head.extlen) head.keylen in
      let e : len ≡ length value = lengths (length (ns ++ key)) (length value) v.3 in
      let (j, f, l) =
        getk_value-Leaves allocates (length ns) n head
          (record (with_flags flags) { item_key = key }) len i value rest refl
          (subst (λ m. allocates m ≡ true) (sym e) v.0) o e c in
      (
        j,
        getk_key-trimmed allocates n head (with_flags flags) (sub32 head.bodylen head.extlen) ns key
              i v.1
            ∙ f,
        l,
      )
    where
      lengths : (k m : ℕ) → 4 + k + m < 2 ^ 32 → sub32 (sub32 (4 + k + m) 4) k ≡ m
      lengths k m h =
          ap (λ x. sub32 x k)
            (ap (λ x. sub32 x 4) (omega arith) ∙ sub32-add 4 (k + m) (omega arith))
          ∙ sub32-add k m (omega arith)

  getk_bytes-fits :
      (i : Instance)
      → length (ns ++ key) ≤ item_key_size
      → getk_bytes allocates (length ns) n head (with_flags flags) i
        ≡ then_bytes unknown (with_flags flags) (safe_read i head.keylen) (key_next flags)
  unfolding getk_bytes
  getk_bytes-fits i h =
      ap
        (λ b.
          if b
          then then_bytes unknown (with_flags flags) (safe_read i head.keylen) (key_next flags)
          else none)
        (le-leb (length (ns ++ key)) item_key_size h)

  getk-Leaves :
      (i : Instance) (rest : List ℕ)
      → Fits
      → i.has_socket ≡ true
      → coming i ≡ to_network 4 flags ++ ((ns ++ key) ++ (value ++ rest))
      → (j : Instance) × (getk allocates (length ns) n head i
          ≡ some (success, binary_holding key flags value cas, j))
        × Leaves i j rest
  unfolding getk
  getk-Leaves i rest v o c =
      let (j, e, l) =
        then_part unknown (record result_reset { item_cas = cas }) 4 i flags_next
          (to_network 4 flags) _ o (sym (length-to_network 4 flags)) c in
      let same = from_network-to_network 4 flags v.2 in
      let (k, f, m) =
        then_part unknown (with_flags flags) head.keylen j (key_next flags) (ns ++ key) _
          (l.socket ∙ o) refl l.bytes in
      let (q, g, t) = key_next-Leaves k rest v (m.socket ∙ l.socket ∙ o) m.bytes in
      (
        q,
        e
            ∙ ap (λ x. getk_bytes allocates (length ns) n head (with_flags x) j) same
            ∙ getk_bytes-fits j v.4
            ∙ f
            ∙ g,
        record {
          bytes = t.bytes;
          socket = t.socket ∙ m.socket ∙ l.socket;
          responses = t.responses ∙ m.responses ∙ l.responses;
        },
      )

-- Let the bytes that are coming on a connected socket be the response to a get with key (GETK): the
-- header, flags of 32 bits, the client's namespace and a key that is not empty, a value, and `rest`;
-- let the key and the namespace fit into `item_key`, of 251 bytes, and the lengths and the number
-- `opaque` into their fields, and let there be memory for the value.
-- Then `binary_read_one_response` returns with success, the result holds the key without the
-- namespace, the flags, the cas value and the value, exactly `rest` is coming afterwards, the socket
-- is still there, and the number of expected responses has not changed.
pub binary_read_one_response-getk :
    (allocates : ℕ → Bool) (n : ℕ) (r : Result) (i : Instance) (ns key : List ℕ)
    (flags cas opaque : ℕ) (value rest : List ℕ)
    → i.has_socket ≡ true
    → allocates (length value) ≡ true
    → 0 < length key
    → flags < 2 ^ 32
    → length (ns ++ key) ≤ item_key_size
    → 4 + length (ns ++ key) + length value < 2 ^ 32
    → opaque < 2 ^ 32
    → cas < 2 ^ 64
    → coming i
      ≡ header_bytes (value_header (length (ns ++ key)) (length value) cas opaque)
        ++ (to_network 4 flags ++ ((ns ++ key) ++ (value ++ rest)))
    → (j : Instance) × (binary_read_one_response allocates (length ns) n r i
        ≡ some (success, binary_holding key flags value cas, j))
      × Leaves i j rest
binary_read_one_response-getk allocates n r i ns key flags cas opaque value rest o a hk hf hl hb hq
      hc c =
    let h = value_header (length (ns ++ key)) (length value) cas opaque in
    let (j, e, l) =
      header-Continues allocates (length ns) n r i h _ o
        (record {
          magic = omega arith;
          opcode = omega arith;
          keylen = omega arith;
          extlen = omega arith;
          datatype = omega arith;
          status = omega arith;
          bodylen = hb;
          opaque = hq;
          cas = hc;
        })
        c in
    let (k, f, m) =
      getk-Leaves allocates n ns key flags cas opaque value j rest (a, hk, hf, hb, hl)
        (l.socket ∙ o) l.bytes in
    (
      k,
      e
          ∙ header_switch-getk allocates (length ns) n (length (ns ++ key)) (length value) cas
              opaque r j
          ∙ f,
      record {
        bytes = m.bytes;
        socket = m.socket ∙ l.socket;
        responses = m.responses ∙ l.responses;
      },
    )
