-- ===== src/Protocol/Storage.antt =====
-- libmemcached/storage.cc: what the client sends to store a value.
use libmemcached.Prelude.{
  ℕ, ◌+◌, ◌*◌, ◌%◌, ◌^◌, Bool, true, false, List, [], ◌∷◌, ◌++◌, Option, none, some, length, leb,
  ◌==◌, ◌>>=◌, if◌then◌else◌,
}
use libmemcached.Prelude.Words.{u32_mod, add32}
use libmemcached.Return.{Return, success, stored, buffered, is_success}
use libmemcached.Protocol.Command
use libmemcached.Protocol.Header.{header_bytes, to_network}
use libmemcached.Protocol.Numbers.{print}
use libmemcached.Protocol.Words

-- `memcached_storage_action_t`
pub data StorageAction : Type 0 where
  set_op replace_op add_op prepend_op append_op cas_op : StorageAction

unfoldable pub storage_op_string : StorageAction → List ℕ
storage_op_string replace_op = Words.word_replace
storage_op_string add_op = Words.word_add
storage_op_string prepend_op = Words.word_prepend
storage_op_string append_op = Words.word_append
storage_op_string cas_op = Words.word_cas
storage_op_string set_op = Words.word_set

unfoldable pub can_be_encrypted : StorageAction → Bool
can_be_encrypted append_op = false
can_be_encrypted prepend_op = false
can_be_encrypted verb = true

unfoldable pub get_com_code : StorageAction → Bool → ℕ
get_com_code set_op reply = if reply then Command.set else Command.setq
get_com_code add_op reply = if reply then Command.add else Command.addq
get_com_code cas_op reply = if reply then Command.replace else Command.replaceq
get_com_code replace_op reply = if reply then Command.replace else Command.replaceq
get_com_code append_op reply = if reply then Command.append else Command.appendq
get_com_code prepend_op reply = if reply then Command.prepend else Command.prependq

-- MEMCACHED_MAXIMUM_INTEGER_DISPLAY_LENGTH
abbrev pub display_length : ℕ
display_length = 20

-- `snprintf` of " %llu" into a buffer of `size` bytes; `none` is a text that does not fit with its zero.
unfoldable pub printed : ℕ → ℕ → Option (List ℕ)
printed size n = let text = b' ' ∷ print n in if leb size (length text) then none else some text

-- The bytes that `memcached_send_ascii` sends; `none` if it fails before it sends. The expiration is a
-- time that is not negative.
unfoldable pub ascii_request :
    StorageAction → List ℕ → List ℕ → ℕ → ℕ → List ℕ → ℕ → Bool → Option (List ℕ)
unfolding storage_op_string printed
ascii_request verb ns key flags expiration value cas reply = do
  flags_text ← printed (display_length + 1) flags
  expiration_text ← printed (display_length + 2) expiration
  value_text ← printed (display_length + 1) (length value)
  cas_text ← if cas == 0 then some [] else printed (display_length + 1) cas
  some (
      storage_op_string verb
      ++ (ns
          ++ (key
              ++ (flags_text
                  ++ (expiration_text
                      ++ (value_text
                          ++ (cas_text
                              ++ ((if reply then [] else Words.word_noreply)
                                  ++ (Words.word_crlf ++ (value ++ Words.word_crlf))))))))))

-- What `memcached_send_ascii` returns for the code of `memcached_vdo` and, if it comes to that, for the
-- code of the response.
unfoldable pub ascii_result : Bool → Bool → Return → Return → Return
unfolding is_success
ascii_result false flush rc response = if is_success rc then success else rc
ascii_result true false rc response = if is_success rc then buffered else rc
ascii_result true true success stored = success
ascii_result true true success response = response
ascii_result true true rc response = rc

-- PROTOCOL_BINARY_REQ
abbrev pub request_magic : ℕ
request_magic = 0x80

-- `initialize_binary_request`, on the request id of the instance before it: `htons` puts the low 16
-- bits of the next one in front of a field of 32.
unfoldable pub initialize_binary_request : ℕ → ℕ × ℕ
initialize_binary_request request_id =
    let next = add32 request_id 1 in (next, next % 2 ^ 16 * 2 ^ 16)

-- Only append and prepend have no extras.
unfoldable pub set_extras : StorageAction → ℕ → ℕ → List ℕ
set_extras append_op flags expiration = []
set_extras prepend_op flags expiration = []
set_extras verb flags expiration = to_network 4 flags ++ to_network 4 (expiration % u32_mod)

-- The bytes that `memcached_send_binary` sends to the server, whose request id is `request_id`.
unfoldable pub binary_request :
    ℕ → StorageAction → List ℕ → List ℕ → ℕ → ℕ → List ℕ → ℕ → Bool → List ℕ
unfolding get_com_code initialize_binary_request set_extras
binary_request request_id verb ns key flags expiration value cas reply =
    let extras = set_extras verb flags expiration in
    header_bytes (record {
      magic = request_magic;
      opcode = get_com_code verb reply;
      keylen = (length key + length ns) % 2 ^ 16;
      extlen = length extras;
      datatype = 0;
      status = 0;
      bodylen = (length key + length ns + length value + length extras) % u32_mod;
      opaque = (initialize_binary_request request_id).1;
      cas = cas;
    })
    ++ (extras ++ (ns ++ (key ++ value)))
