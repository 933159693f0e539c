-- ===== src/Protocol/Value.antt =====
-- libmemcached/response.cc: `textual_value_fetch`, and libmemcached/result.cc as far as it needs it.
-- A pointer into the line buffer is the text that it points to; `behind` is its offset.
pub mod RoundTrip
use libmemcached.Prelude.{
  ℕ, zero, suc, ◌+◌, ◌-◌, ◌%◌, Bool, ◌||◌, List, [], ◌∷◌, Option, none, some, take, drop, length,
  ltb, ◌==◌, if◌then◌else◌,
}
use libmemcached.Prelude.Words.{u32_mod, u64_mod}
use libmemcached.Return.{
  Return, success, in_progress, partial_read, memory_allocation_failure, failure, is_failed,
}
use libmemcached.Io.{Instance, quit_server}
use libmemcached.Io.Read.{Reading, io_read}
use libmemcached.Protocol.Numbers.{strtoul, isspace, iscntrl}

-- `memcached_result_st`: the first `key_length` bytes of `item_key`, and the content of `value`.
pub record Result : Type 0 where
  pub item_key : List ℕ
  pub item_flags : ℕ
  pub item_expiration : ℕ
  pub item_cas : ℕ
  pub value : List ℕ
  pub numeric_value : ℕ

-- `memcached_result_reset`
abbrev pub result_reset : Result
result_reset = record {
  item_key = [];
  item_flags = 0;
  item_expiration = 0;
  item_cas = 0;
  value = [];
  numeric_value = u64_mod - 1;
}

-- MEMCACHED_DEFAULT_COMMAND_SIZE
abbrev pub command_size : ℕ
command_size = 350

abbrev pub behind : List ℕ → List ℕ → ℕ
behind buffer text = length buffer - length text

abbrev pub at_end : List ℕ → List ℕ → Bool
at_end buffer text = behind buffer text == command_size

-- The loop that takes the key up to a space or a control character, without the first `prefix_length`
-- bytes, the namespace; and the text behind it.
unfoldable pub load_key : ℕ → List ℕ → List ℕ × List ℕ
load_key prefix_length [] = ([], [])
load_key zero (c ∷ cs) =
    let (key, rest) = load_key zero cs in
    if iscntrl c || isspace c then ([], c ∷ cs) else (c ∷ key, rest)
load_key (suc prefix_length) (c ∷ cs) =
    let more = load_key prefix_length cs in if iscntrl c || isspace c then ([], c ∷ cs) else more

-- The result with the fields that the line tells, and the length of the value.
pub record Header : Type 0 where
  pub result : Result
  pub value_length : ℕ

-- A line that has been read, or the jump to `read_error` with the fields that are set by then.
pub data Loaded : Type 0 where
  loaded : Header → Loaded
  stopped : Result → Loaded

-- The end of the line, with what stands behind the length: a carriage return, or the cas value.
unfoldable pub load_cas : List ℕ → Header → List ℕ → Loaded
load_cas buffer h [] =
    let c = strtoul [] in
    if c.out_of_range || ltb command_size (behind buffer c.endptr)
    then stopped h.result
    else loaded h
load_cas buffer h (c ∷ cs) =
    let v = strtoul cs in
    let r = record h.result { item_cas = v.value } in
    if c == b'\r'
    then (if ltb command_size (behind buffer (c ∷ cs) + 2) then stopped h.result else loaded h)
    else if v.out_of_range || ltb command_size (behind buffer v.endptr)
    then stopped r
    else loaded (record h { result = r })

-- The length, at the text behind a space.
unfoldable pub load_length : List ℕ → Result → List ℕ → Loaded
unfolding load_cas
load_length buffer r text =
    let v = strtoul text in
    if at_end buffer text
    then stopped r
    else if v.out_of_range || at_end buffer v.endptr
    then stopped r
    else load_cas buffer (record { result = r; value_length = v.value }) v.endptr

-- The flags.
unfoldable pub load_flags : List ℕ → Result → List ℕ → Loaded
unfolding load_length
load_flags buffer r text =
    let v = strtoul text in
    if at_end buffer text
    then stopped r
    else if v.out_of_range || at_end buffer v.endptr
    then stopped (record r { item_flags = v.value % u32_mod })
    else load_length buffer (record r { item_flags = v.value % u32_mod }) (drop 1 v.endptr)

-- The line, for a namespace of `prefix_length` bytes.
unfoldable pub load_header : ℕ → List ℕ → Loaded
unfolding load_key load_flags
load_header prefix_length buffer =
    let k = load_key prefix_length (drop 6 buffer) in
    if at_end buffer k.1
    then stopped (record result_reset { item_key = k.0 })
    else load_flags buffer (record result_reset { item_key = k.0 }) (drop 1 k.1)

-- A response that has been read; `none` if the socket has no answer, or if something is written where
-- there is no memory for it.
abbrev pub Answer : Type 0
Answer = Option (Return × Result × Instance)

-- The value as it is on the wire, made readable; `hashkit_decrypt` is a parameter, absent without
-- encryption.
unfoldable pub decrypted : Option (List ℕ → Option (List ℕ)) → Result → Return × Result
decrypted none r = (success, r)
decrypted (some decrypt) r = if length r.value == 0 then (success, r) else elim (decrypt r.value) [
  | none ↦ (failure, result_reset)
  | some plain ↦ (success, record r { value = plain })
]

-- What follows the read of the value and of the line end behind it.
unfoldable pub value_read : Option (List ℕ → Option (List ℕ)) → Header → Reading → Answer
unfolding decrypted is_failed
value_read decrypt h none = none
value_read decrypt h (some (in_progress, bytes, i)) = some (in_progress, h.result, quit_server i)
value_read decrypt h (some (rc, bytes, i)) =
    let d = decrypted decrypt (record h.result { value = take h.value_length bytes }) in
    if is_failed rc
    then some (rc, h.result, i)
    else if length bytes == (h.value_length + 2) % u64_mod
    then some (d.0, d.1, i)
    else some (partial_read, h.result, quit_server i)

-- What follows the header. `allocates` tells whether `memcached_string_check` finds so many bytes.
unfoldable pub header_read :
    (ℕ → Bool) → Option (List ℕ → Option (List ℕ)) → Instance → Loaded → Answer
unfolding value_read io_read
header_read allocates decrypt i (stopped r) = some (partial_read, r, quit_server i)
header_read allocates decrypt i (loaded h) =
    let to_read = (h.value_length + 2) % u64_mod in
    let fetched = value_read decrypt h (io_read i to_read) in
    if allocates to_read then fetched else some (memory_allocation_failure, h.result, i)

-- `textual_value_fetch`
unfoldable pub textual_value_fetch :
    (ℕ → Bool) → Option (List ℕ → Option (List ℕ)) → ℕ → Instance → List ℕ → Answer
unfolding load_header header_read
textual_value_fetch allocates decrypt prefix_length i buffer =
    header_read allocates decrypt i (load_header prefix_length buffer)
