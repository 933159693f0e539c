-- ===== src/Protocol/Binary.antt =====
-- libmemcached/response.cc: `binary_read_one_response`.
pub mod Replies
pub mod Errors
pub mod Values
mod Tests
use libmemcached.Prelude.{
  ℕ, zero, suc, ◌-◌, Bool, ◌||◌, ◌&&◌, not, List, [], ◌∷◌, ◌++◌, Option, none, some, drop, length,
  ltb, leb, min, ◌==◌, replicate, if◌then◌else◌,
}
use libmemcached.Prelude.Words.{add32, sub32, u64_mod}
use libmemcached.Return.{
  Return, success, end, notfound, data_exists, notstored, e2big, memory_allocation_failure,
  auth_continue, auth_failure, unknown_read_failure, fetch_notfinished, is_failed,
}
use libmemcached.Io.{Instance, response_increment}
use libmemcached.Io.Read.{Reading, safe_read}
use libmemcached.Protocol.Value.{Result, result_reset, Answer}
use libmemcached.Protocol.Header.{Header, header_size, read_header, from_network}
use libmemcached.Protocol.Command
use libmemcached.Protocol.Status
use libmemcached.Protocol.Response.{version_read}

-- PROTOCOL_BINARY_RES
abbrev pub response_magic : ℕ
response_magic = 0x81

-- MEMCACHED_MAX_KEY, the size of `item_key`
abbrev pub item_key_size : ℕ
item_key_size = 251

-- SMALL_STRING_LEN
abbrev pub hole_size : ℕ
hole_size = 1024

-- One part of a response has been read, or not: `failed` turns the code of the read into that of the
-- response.
unfoldable pub then_bytes :
    (Return → Return) → Result → Reading → (List ℕ → Instance → Answer) → Answer
then_bytes failed r none k = none
then_bytes failed r (some (success, bytes, i)) k = k bytes i
then_bytes failed r (some (rc, bytes, i)) k = some (failed rc, r, i)

abbrev unknown : Return → Return
unknown rc = unknown_read_failure

-- The key without the namespace, of `prefix_length` bytes; `none` if it is not longer.
unfoldable pub trim_key : ℕ → List ℕ → Option (List ℕ)
trim_key prefix_length [] = some []
trim_key prefix_length (c ∷ cs) =
    if not (prefix_length == 0) && leb (length (c ∷ cs)) prefix_length
    then none
    else some (drop prefix_length (c ∷ cs))

-- What `status` means behind the switch over the commands.
unfoldable pub status_result : ℕ → Return
status_result status =
    if status == Status.succeeded
    then success
    else if status == Status.key_enoent
    then notfound
    else if status == Status.key_eexists
    then data_exists
    else if status == Status.not_stored
    then notstored
    else if status == Status.e2big
    then e2big
    else if status == Status.enomem
    then memory_allocation_failure
    else if status == Status.auth_continue
    then auth_continue
    else if status == Status.auth_error
    then auth_failure
    else unknown_read_failure

-- The body that comes with an error, read in pieces of `hole_size` bytes.
unfoldable pub skip_body : ℕ → Result → ℕ → Instance → (Instance → Answer) → Answer
unfolding then_bytes
skip_body zero r bodylen i k = none
skip_body (suc fuel) r zero i k = k i
skip_body (suc fuel) r (suc bodylen) i k =
    let nr = min hole_size (suc bodylen) in
    then_bytes unknown r (safe_read i nr) λ bytes j. skip_body fuel r (suc bodylen - nr) j k

-- Behind an error: a command that is quiet is passed over.
unfoldable pub after_error : Header → Result → Instance → Answer
unfolding status_result
after_error h r i =
    if h.opcode == Command.setq
      || h.opcode == Command.addq
      || h.opcode == Command.replaceq
      || h.opcode == Command.appendq
      || h.opcode == Command.prependq
    then some (fetch_notfinished, r, i)
    else some (status_result h.status, r, i)

module _ (allocates : ℕ → Bool) (prefix_length buffer_length : ℕ) where
  -- The value behind the key.
  unfoldable pub getk_value : Header → Result → ℕ → Instance → Answer
  unfolding then_bytes status_result
  getk_value h r bodylen i =
      let fetched =
        then_bytes unknown r (safe_read i bodylen)
          λ bytes j. some (status_result h.status, record r { value = bytes }, j) in
      if allocates bodylen then fetched else some (memory_allocation_failure, r, i)

  -- The key behind the flags.
  unfoldable pub getk_key : Header → Result → ℕ → List ℕ → Instance → Answer
  unfolding getk_value trim_key
  getk_key h r bodylen key i = elim (trim_key prefix_length key) [
    | none ↦ some (unknown_read_failure, record r { item_key = key }, i)
    | some k ↦ getk_value h (record r { item_key = k }) (sub32 bodylen h.keylen) i
  ]

  -- The key, read into `item_key` by a length that nothing checks: `none` for one that runs behind it.
  unfoldable pub getk_bytes : Header → Result → Instance → Answer
  unfolding getk_key
  getk_bytes h r i =
      let read =
        then_bytes unknown r (safe_read i h.keylen)
          λ key k. getk_key h r (sub32 h.bodylen h.extlen) key k in
      if leb h.keylen item_key_size then read else none

  -- PROTOCOL_BINARY_CMD_GETK
  unfoldable pub getk : Header → Instance → Answer
  unfolding getk_bytes
  getk h i =
      let r = record result_reset { item_cas = h.cas } in
      then_bytes unknown r (safe_read i 4)
        λ flags j. getk_bytes h (record r { item_flags = from_network flags }) j

  -- PROTOCOL_BINARY_CMD_INCREMENT, PROTOCOL_BINARY_CMD_DECREMENT
  unfoldable pub counter : Header → Result → Instance → Answer
  unfolding then_bytes status_result
  counter h r i =
      let lost = record r { numeric_value = u64_mod - 1 } in
      let read = then_bytes unknown lost (safe_read i 8) λ bytes j.
        some (status_result h.status, record r { numeric_value = from_network bytes }, j) in
      if h.bodylen == 8 then read else some (unknown_read_failure, lost, i)

  -- PROTOCOL_BINARY_CMD_SASL_AUTH, PROTOCOL_BINARY_CMD_SASL_STEP
  unfoldable pub sasl : Header → Instance → Answer
  unfolding then_bytes status_result
  sasl h i =
      let r = record result_reset { item_cas = h.cas } in
      let read =
        then_bytes unknown r (safe_read i h.bodylen)
          λ bytes j. some (status_result h.status, record r { value = bytes }, j) in
      if allocates h.bodylen then read else some (memory_allocation_failure, r, i)

  -- PROTOCOL_BINARY_CMD_VERSION; the buffer of 32 bytes is filled with zeroes first.
  unfoldable pub version : Header → Result → Instance → Answer
  unfolding then_bytes status_result version_read
  version h r i = then_bytes unknown r (safe_read i h.bodylen) λ bytes j.
      let v = version_read j (bytes ++ replicate (32 - length bytes) 0) in
      if is_failed v.0 then some (v.0, r, v.1) else some (status_result h.status, r, v.1)

  -- PROTOCOL_BINARY_CMD_TOUCH
  unfoldable pub touch : Header → Result → Instance → Answer
  unfolding then_bytes
  touch h r i =
      let read = then_bytes (λ rc. rc) r (safe_read i 4) λ bytes j. some (success, r, j) in
      if h.bodylen == 4 then read else some (success, r, i)

  -- PROTOCOL_BINARY_CMD_STAT: the name, a zero and the value go into the caller's buffer.
  unfoldable pub stat : Header → Result → Instance → Answer
  unfolding then_bytes status_result
  stat h r i =
      let read = then_bytes unknown r (safe_read i h.keylen) λ key j.
        then_bytes unknown r (safe_read j (sub32 h.bodylen h.keylen))
          λ value k. some (status_result h.status, r, k) in
      if h.bodylen == 0
      then some (end, r, i)
      else if ltb buffer_length (add32 h.bodylen 1)
      then some (unknown_read_failure, r, i)
      else read

  -- PROTOCOL_BINARY_CMD_SASL_LIST_MECHS
  unfoldable pub mechanisms : Header → Result → Instance → Answer
  unfolding then_bytes status_result
  mechanisms h r i =
      let read =
        then_bytes unknown r (safe_read i h.bodylen)
          λ bytes j. some (status_result h.status, r, j) in
      if not (h.keylen == 0) || ltb buffer_length (add32 h.bodylen 1)
      then some (unknown_read_failure, r, i)
      else read

  -- The switch over the commands, for a response without an error.
  unfoldable pub dispatch : Header → Result → Instance → Answer
  unfolding getk counter sasl version touch stat mechanisms
  dispatch h r i =
      if h.opcode == Command.getkq
      then getk h (response_increment i)
      else if h.opcode == Command.getk
      then getk h i
      else if h.opcode == Command.increment || h.opcode == Command.decrement
      then counter h r i
      else if h.opcode == Command.sasl_list_mechs
      then mechanisms h r i
      else if h.opcode == Command.version
      then version h r i
      else if h.opcode == Command.touch
      then touch h r i
      else if h.opcode == Command.flush
          || h.opcode == Command.quit
          || h.opcode == Command.set
          || h.opcode == Command.add
          || h.opcode == Command.replace
          || h.opcode == Command.append
          || h.opcode == Command.prepend
          || h.opcode == Command.delete
      then some (success, r, i)
      else if h.opcode == Command.noop
      then some (end, r, i)
      else if h.opcode == Command.stat
      then stat h r i
      else if h.opcode == Command.sasl_auth || h.opcode == Command.sasl_step
      then sasl h i
      else some (unknown_read_failure, r, i)

  -- Behind the header.
  unfoldable pub header_switch : Header → Result → Instance → Answer
  unfolding dispatch skip_body after_error
  header_switch h r i =
      let failed = skip_body (suc h.bodylen) r h.bodylen i (after_error h r) in
      if not (h.magic == response_magic)
      then some (unknown_read_failure, r, i)
      else if h.status == Status.succeeded || h.status == Status.auth_continue
      then dispatch h r i
      else if h.bodylen == 0
      then some (status_result h.status, r, i)
      else failed

  -- `binary_read_one_response`
  unfoldable pub binary_read_one_response : Result → Instance → Answer
  unfolding header_switch then_bytes
  binary_read_one_response r i =
      then_bytes (λ rc. rc) r (safe_read i header_size)
        λ bytes j. header_switch (read_header bytes) r j
