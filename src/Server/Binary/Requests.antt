-- ===== src/Server/Binary/Requests.antt =====
-- libmemcached/storage.cc, libmemcachedprotocol/binary_handler.c: what a request of the client asks the
-- server for.
use libmemcached.Prelude.{
  ℕ, ◌+◌, ◌%◌, ◌^◌, ◌<◌, ◌≡◌, refl, Bool, true, false, List, ◌++◌, some, length, ◌==◌,
}
use libmemcached.Prelude.Words.{u32_mod}
use libmemcached.Protocol.Header.{Header}
use libmemcached.Protocol.Storage.{
  StorageAction, set_op, replace_op, add_op, prepend_op, append_op, cas_op, binary_request,
  get_com_code, set_extras, initialize_binary_request, request_magic,
}
use libmemcached.Server.Call.{Call, call_set, call_replace, call_add, call_append, call_prepend}
use libmemcached.Server.Binary.{
  Handler, set_handler, add_handler, replace_handler, append_handler, prepend_handler,
  comcode_remap, answered,
}

-- What the client wants stored, on a connection with this request id.
pub record Request : Type 0 where
  pub request_id : ℕ
  pub verb : StorageAction
  pub ns : List ℕ
  pub key : List ℕ
  pub flags : ℕ
  pub expiration : ℕ
  pub value : List ℕ
  pub cas : ℕ
  pub reply : Bool

-- The sizes fit into the fields of the header, and the numbers into their words.
pub record IsRequest (r : Request) : Type 0 where
  pub key_size : length r.key + length r.ns < 2 ^ 16
  pub body_size : length r.key + length r.ns + length r.value + 8 < 2 ^ 32
  pub flags : r.flags < 2 ^ 32
  pub expiration : r.expiration < 2 ^ 32
  pub cas : r.cas < 2 ^ 64

abbrev pub sent : Request → List ℕ
sent r = binary_request r.request_id r.verb r.ns r.key r.flags r.expiration r.value r.cas r.reply

abbrev pub extras : Request → List ℕ
extras r = set_extras r.verb r.flags r.expiration

abbrev pub request_header : Request → Header
request_header r = record {
  magic = request_magic;
  opcode = get_com_code r.verb r.reply;
  keylen = (length r.key + length r.ns) % 2 ^ 16;
  extlen = length (extras r);
  datatype = 0;
  status = 0;
  bodylen = (length r.key + length r.ns + length r.value + length (extras r)) % u32_mod;
  opaque = (initialize_binary_request r.request_id).1;
  cas = r.cas;
}

abbrev pub text : Request → List ℕ
text r = r.ns ++ (r.key ++ r.value)

abbrev pub handler_of : StorageAction → Handler
handler_of set_op = set_handler
handler_of replace_op = replace_handler
handler_of cas_op = replace_handler
handler_of add_op = add_handler
handler_of append_op = append_handler
handler_of prepend_op = prepend_handler

pub comcode_remap-get_com_code :
    (verb : StorageAction) (reply : Bool)
    → comcode_remap (get_com_code verb reply) ≡ some (handler_of verb)
unfolding comcode_remap get_com_code
comcode_remap-get_com_code set_op true = refl
comcode_remap-get_com_code set_op false = refl
comcode_remap-get_com_code replace_op true = refl
comcode_remap-get_com_code replace_op false = refl
comcode_remap-get_com_code cas_op true = refl
comcode_remap-get_com_code cas_op false = refl
comcode_remap-get_com_code add_op true = refl
comcode_remap-get_com_code add_op false = refl
comcode_remap-get_com_code append_op true = refl
comcode_remap-get_com_code append_op false = refl
comcode_remap-get_com_code prepend_op true = refl
comcode_remap-get_com_code prepend_op false = refl

-- Only a request for a reply is answered.
pub answered-get_com_code :
    (verb : StorageAction) (reply : Bool)
    → (get_com_code verb reply == answered (handler_of verb)) ≡ reply
unfolding get_com_code
answered-get_com_code set_op true = refl
answered-get_com_code set_op false = refl
answered-get_com_code replace_op true = refl
answered-get_com_code replace_op false = refl
answered-get_com_code cas_op true = refl
answered-get_com_code cas_op false = refl
answered-get_com_code add_op true = refl
answered-get_com_code add_op false = refl
answered-get_com_code append_op true = refl
answered-get_com_code append_op false = refl
answered-get_com_code prepend_op true = refl
answered-get_com_code prepend_op false = refl

-- The call that a request asks for: `cas` replaces, and `add` has no cas value.
unfoldable pub asks : Request → Call
asks r = elim r.verb [
  | set_op ↦ call_set (r.ns ++ r.key) r.value r.flags r.expiration r.cas
  | replace_op ↦ call_replace (r.ns ++ r.key) r.value r.flags r.expiration r.cas
  | cas_op ↦ call_replace (r.ns ++ r.key) r.value r.flags r.expiration r.cas
  | add_op ↦ call_add (r.ns ++ r.key) r.value r.flags r.expiration
  | append_op ↦ call_append (r.ns ++ r.key) r.value r.cas
  | prepend_op ↦ call_prepend (r.ns ++ r.key) r.value r.cas
]
