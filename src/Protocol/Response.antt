-- ===== src/Protocol/Response.antt =====
-- libmemcached/response.cc: `textual_read_one_response`, what the client makes of a line from the
-- server.
pub mod Values
use libmemcached.Prelude.{
  ℕ, ◌-◌, ◌%◌, ◌^◌, Bool, true, false, ◌||◌, ◌&&◌, List, [], ◌∷◌, ◌++◌, Option, none, some, drop,
  length, ltb, leb, ◌==◌, if◌then◌else◌,
}
use libmemcached.Prelude.Words.{u64_mod}
use libmemcached.Return.{
  Return, success, stat, server_error, e2big, server_memory_allocation_failure, stored, deleted,
  notfound, notstored, end, error, data_exists, item, client_error, unknown_read_failure, is_failed,
  is_fatal,
}
use libmemcached.Io.{Instance, no_version, response_increment, response_decrement, quit_server}
use libmemcached.Io.Read.{Reading, io_readline}
use libmemcached.Protocol.Numbers.{Converted, strtoul, strtol, isdigit}
use libmemcached.Protocol.Value.{Result, Answer, textual_value_fetch}
use libmemcached.Protocol.Words

-- The buffer begins with the word, as the tests of single characters and `memcmp` find.
abbrev pub starts_with : List ℕ → List ℕ → Bool
starts_with [] bs = true
starts_with (c ∷ cs) [] = false
starts_with (c ∷ cs) (b ∷ bs) = if b == c then starts_with cs bs else false

-- `strchr (buffer, ' ')`
unfoldable pub find_space : List ℕ → List ℕ
find_space [] = []
find_space (c ∷ cs) = let more = find_space cs in if c == b' ' then c ∷ cs else more

-- The error codes of a line that starts with SERVER_ERROR.
unfoldable pub server_error_result : List ℕ → ℕ → Return
server_error_result buffer total_read =
    if total_read == length Words.word_server_error
    then server_error
    else if leb (length Words.word_too_large) total_read && starts_with Words.word_too_large buffer
    then e2big
    else if leb (length Words.word_out_of_memory) total_read
        && (starts_with Words.word_out_of_memory buffer
            || starts_with Words.word_out_of_memory_upper buffer)
    then server_memory_allocation_failure
    else server_error

-- A part of the version is refused: `version` as a signed number, below `least` or too large.
abbrev bad_part : ℕ → Converted → Bool
bad_part least v =
    v.out_of_range
    || v.value == 2 ^ 63
    || (ltb no_version v.value && ltb v.value (2 ^ 63))
    || ltb v.value least

abbrev with_version : Instance → ℕ → ℕ → ℕ → Instance
with_version i major minor micro = record i {
  major_version = major;
  minor_version = minor;
  micro_version = micro;
}

-- The three parts, each by `strtol`, with a character between them; stored as `uint8_t`.
unfoldable pub version_read : Instance → List ℕ → Return × Instance
version_read i text =
    let a = strtol text in
    let b = strtol (drop 1 a.endptr) in
    let c = strtol (drop 1 b.endptr) in
    if bad_part 1 a || bad_part 0 b || bad_part 0 c
    then (unknown_read_failure, with_version i no_version no_version no_version)
    else (success, with_version i (a.value % 256) (b.value % 256) (c.value % 256))

-- The answer to an increment.
unfoldable pub numeric_read : Result → List ℕ → Return × Result
numeric_read r buffer =
    let v = strtoul buffer in
    if v.out_of_range
    then (unknown_read_failure, record r { numeric_value = u64_mod - 1 })
    else (success, record r { numeric_value = v.value })

abbrev first_digit : List ℕ → Bool
first_digit [] = false
first_digit (c ∷ cs) = isdigit c

module _ (allocates : ℕ → Bool) (decrypt : Option (List ℕ → Option (List ℕ)))
    (prefix_length : ℕ) where
  -- The switch over the line, of `total_read` bytes, that stands in the buffer.
  unfoldable pub respond : Result → Instance → List ℕ → ℕ → Answer
  unfolding version_read numeric_read server_error_result find_space
  respond r i buffer total_read =
      let says : List ℕ → Bool = λ word. starts_with word buffer in
      let v = version_read i (find_space buffer) in
      let n = numeric_read r buffer in
      if says Words.word_value
      then textual_value_fetch allocates decrypt prefix_length (response_increment i) buffer
      else if says Words.word_version
      then some (v.0, r, v.1)
      else if says Words.word_ok
      then some (success, r, i)
      else if says Words.word_stat
      then some (stat, r, response_increment i)
      else if says Words.word_server_error
      then some (server_error_result buffer total_read, r, i)
      else if says Words.word_stor
      then some (stored, r, i)
      else if says Words.word_deleted
      then some (deleted, r, i)
      else if says Words.word_not_found
      then some (notfound, r, i)
      else if says Words.word_not_stored
      then some (notstored, r, i)
      else if says Words.word_end
      then some (end, r, i)
      else if says Words.word_error
      then some (error, r, i)
      else if says Words.word_exists
      then some (data_exists, r, i)
      else if says Words.word_touched
      then some (success, r, i)
      else if says Words.word_item
      then some (item, r, response_increment i)
      else if says Words.word_client_error
      then some (client_error, r, i)
      else if first_digit buffer
      then some (n.0, n.1, i)
      else some (unknown_read_failure, r, i)

  -- What follows `memcached_io_readline`; `stale` is what the buffer holds behind the line.
  unfoldable pub line_read : Result → List ℕ → Reading → Answer
  unfolding respond is_failed
  line_read r stale none = none
  line_read r stale (some (rc, line, i)) =
      if is_failed rc then some (rc, r, i) else respond r i (line ++ stale) (length line)

  -- `textual_read_one_response`, with what the buffer of `buffer_length` bytes holds behind the line.
  unfoldable pub textual_read_one_response : Result → Instance → ℕ → List ℕ → Answer
  unfolding line_read io_readline
  textual_read_one_response r i buffer_length stale =
      line_read r stale (io_readline i buffer_length)

  -- A response that was not read leaves a connection that is of no more use.
  unfoldable pub or_reset : Answer → Answer
  unfolding is_fatal
  or_reset none = none
  or_reset (some (rc, r, i)) = if is_fatal rc then some (rc, r, quit_server i) else some (rc, r, i)

  -- `_read_one_response` of the text protocol
  unfoldable pub read_one_response : Result → Instance → ℕ → List ℕ → Answer
  unfolding textual_read_one_response or_reset
  read_one_response r i buffer_length stale =
      or_reset (textual_read_one_response r (response_decrement i) buffer_length stale)
