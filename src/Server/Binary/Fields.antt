-- ===== src/Server/Binary/Fields.antt =====
-- libmemcached/storage.cc, libmemcachedprotocol/binary_handler.c: the server finds the fields of a
-- request where the client has put them.
use libmemcached.Prelude.{
  ℕ, ◌+◌, ◌%◌, ◌<◌, ◌≤◌, ◌≡◌, ◌∙◌, refl, sym, ap, ap₂, Bool, List, [], ◌++◌, take, drop, length,
  append_assoc, length-append, take-length_append, drop-length_append, arith,
}
use libmemcached.Prelude.Words.{u32_mod}
use libmemcached.Protocol.Header.{
  Header, IsHeader, header_bytes, read_header, from_network_onto, to_network,
  from_network-to_network, read_header-header_bytes, length-header_bytes, header_size,
}
use libmemcached.Protocol.Storage.{
  StorageAction, set_op, replace_op, add_op, prepend_op, append_op, cas_op, binary_request,
  get_com_code, set_extras, initialize_binary_request,
}
use libmemcached.Server.Binary.{flags_of, expiration_of, key_at, data_at, call_of}
use libmemcached.Server.Binary.Requests.{
  Request, IsRequest, sent, extras, request_header, text, handler_of, asks,
}

module _ (h : Header) (extlen : ℕ) (body ns key value rest : List ℕ) where
  key_at-part :
      drop extlen body ≡ (ns ++ (key ++ value)) ++ rest
      → h.keylen ≡ length key + length ns
      → key_at extlen h body ≡ ns ++ key
  key_at-part e k =
      ap₂ take (k ∙ omega (arith, length-append ns key)) (
        e
        ∙ ap (λ t. t ++ rest) (sym (append_assoc ns key value))
        ∙ append_assoc (ns ++ key) value rest)
      ∙ take-length_append (ns ++ key) (value ++ rest)

  data_at-part :
      drop extlen body ≡ (ns ++ (key ++ value)) ++ rest
      → h.keylen ≡ length key + length ns
      → h.bodylen ≡ length key + length ns + length value + extlen
      → h.bodylen < u32_mod
      → data_at extlen h body ≡ value
  data_at-part e k l m =
      ap₂ take (omega (arith, k, l, m)) (
        ap₂ drop (k ∙ omega (arith, length-append ns key)) (
          e
          ∙ ap (λ t. t ++ rest) (sym (append_assoc ns key value))
          ∙ append_assoc (ns ++ key) value rest)
        ∙ drop-length_append (ns ++ key) (value ++ rest))
      ∙ take-length_append value rest

module _ (request_id : ℕ) (ns key : List ℕ) (flags expiration : ℕ) (value : List ℕ) (cas : ℕ)
    (reply : Bool) (rest : List ℕ) where
  abbrev request : StorageAction → Request
  request verb = record {
    request_id = request_id;
    verb = verb;
    ns = ns;
    key = key;
    flags = flags;
    expiration = expiration;
    value = value;
    cas = cas;
    reply = reply;
  }

  abbrev body : StorageAction → List ℕ
  body verb = extras (request verb) ++ ((ns ++ (key ++ value)) ++ rest)

  keylen :
      (verb : StorageAction)
      → IsRequest (request verb)
      → (request_header (request verb)).keylen ≡ length key + length ns
  keylen verb v = omega (arith, v.key_size)

  -- Of the four fields of a body with extras.
  with_extras :
      (verb : StorageAction)
      → extras (request verb) ≡ to_network 4 flags ++ to_network 4 (expiration % u32_mod)
      → IsRequest (request verb)
      → (key_at 8 (request_header (request verb)) (body verb) ≡ ns ++ key)
        × (data_at 8 (request_header (request verb)) (body verb) ≡ value)
        × (flags_of (body verb) ≡ flags)
        × (expiration_of (body verb) ≡ expiration)
  unfolding to_network
  with_extras verb e v =
      let h = request_header (request verb) in
      let t = (ns ++ (key ++ value)) ++ rest in
      let size : length (extras (request verb)) ≡ 8 = ap length e in
      let e' : drop 8 (body verb) ≡ t = ap (λ x. drop 8 (x ++ t)) e in
      (
        key_at-part h 8 (body verb) ns key value rest e' (keylen verb v),
        data_at-part h 8 (body verb) ns key value rest e' (keylen verb v)
            (omega (arith, v.body_size, size)) (omega arith),
        ap (λ x. flags_of (x ++ t)) e ∙ from_network-to_network 4 flags v.flags,
        ap (λ x. expiration_of (x ++ t)) e
            ∙ from_network-to_network 4 (expiration % u32_mod) (omega arith)
            ∙ omega (arith, v.expiration),
      )

  without_extras :
      (verb : StorageAction)
      → extras (request verb) ≡ []
      → IsRequest (request verb)
      → (key_at 0 (request_header (request verb)) (body verb) ≡ ns ++ key)
        × (data_at 0 (request_header (request verb)) (body verb) ≡ value)
  without_extras verb e v =
      let h = request_header (request verb) in
      let t = (ns ++ (key ++ value)) ++ rest in
      let size : length (extras (request verb)) ≡ 0 = ap length e in
      let e' : body verb ≡ t = ap (λ x. x ++ t) e in
      (
        key_at-part h 0 (body verb) ns key value rest e' (keylen verb v),
        data_at-part h 0 (body verb) ns key value rest e' (keylen verb v)
            (omega (arith, v.body_size, size)) (omega arith),
      )

  pub call_of-asks :
      (verb : StorageAction)
      → IsRequest (request verb)
      → call_of (handler_of verb) (request_header (request verb)) (body verb) ≡ asks (request verb)
  unfolding call_of asks set_extras from_network_onto
  call_of-asks set_op v = let (a, b, c, d) = with_extras set_op refl v in cc (a, b, c, d)
  call_of-asks replace_op v = let (a, b, c, d) = with_extras replace_op refl v in cc (a, b, c, d)
  call_of-asks cas_op v = let (a, b, c, d) = with_extras cas_op refl v in cc (a, b, c, d)
  call_of-asks add_op v = let (a, b, c, d) = with_extras add_op refl v in cc (a, b, c, d)
  call_of-asks append_op v = let (a, b) = without_extras append_op refl v in cc (a, b)
  call_of-asks prepend_op v = let (a, b) = without_extras prepend_op refl v in cc (a, b)

-- A request as a header, what the handler reads and what follows.
pub sent-append :
    (r : Request) (rest : List ℕ)
    → sent r ++ rest ≡ header_bytes (request_header r) ++ (extras r ++ (text r ++ rest))
unfolding binary_request
sent-append r rest =
    append_assoc (header_bytes (request_header r)) (extras r ++ text r) rest
    ∙ ap (λ t. header_bytes (request_header r) ++ t) (append_assoc (extras r) (text r) rest)

length-set_extras :
    (verb : StorageAction) (flags expiration : ℕ) → length (set_extras verb flags expiration) ≤ 8
unfolding set_extras to_network
length-set_extras set_op flags expiration = omega arith
length-set_extras replace_op flags expiration = omega arith
length-set_extras add_op flags expiration = omega arith
length-set_extras cas_op flags expiration = omega arith
length-set_extras append_op flags expiration = omega arith
length-set_extras prepend_op flags expiration = omega arith

get_com_code-lt : (verb : StorageAction) (reply : Bool) → get_com_code verb reply < 256
unfolding get_com_code
get_com_code-lt set_op reply = ground arith
get_com_code-lt replace_op reply = ground arith
get_com_code-lt add_op reply = ground arith
get_com_code-lt cas_op reply = ground arith
get_com_code-lt append_op reply = ground arith
get_com_code-lt prepend_op reply = ground arith

request_header-IsHeader : (r : Request) → IsRequest r → IsHeader (request_header r)
unfolding initialize_binary_request
request_header-IsHeader r v = record {
  magic = omega arith;
  opcode = get_com_code-lt r.verb r.reply;
  keylen = omega arith;
  extlen = omega (arith, length-set_extras r.verb r.flags r.expiration);
  datatype = omega arith;
  status = omega arith;
  bodylen = omega arith;
  opaque = omega arith;
  cas = v.cas;
}

pub read_header-sent :
    (r : Request) (rest : List ℕ) → IsRequest r → read_header (sent r ++ rest) ≡ request_header r
read_header-sent r rest v =
    ap read_header (sent-append r rest)
    ∙ read_header-header_bytes (request_header r) _ (request_header-IsHeader r v)

pub length-sent :
    (r : Request) → IsRequest r → length (sent r) ≡ header_size + (request_header r).bodylen
unfolding binary_request
length-sent r v = omega (
  arith,
  v.body_size,
  length-append (header_bytes (request_header r)) (extras r ++ text r),
  length-header_bytes (request_header r),
  length-append (extras r) (text r),
  length-append r.ns (r.key ++ r.value),
  length-append r.key r.value,
  length-set_extras r.verb r.flags r.expiration,
)
