-- ===== src/Io/Read.antt =====
-- libmemcached/io.cc: `_io_fill`, `memcached_io_read`, `memcached_safe_read` and
-- `memcached_io_readline`.
use libmemcached.Prelude.{
  ℕ, zero, suc, ◌+◌, ◌-◌, Bool, true, false, not, List, [], ◌∷◌, ◌++◌, Option, none, some, take,
  drop, length, ltb, min, ◌==◌, if◌then◌else◌,
}
use libmemcached.Return.{
  Return, success, timeout, memory_allocation_failure, invalid_arguments, errno, connection_failure,
  protocol_error, in_progress, is_success, is_failed, is_fatal,
}
use libmemcached.Io.{
  Wait, ready, timed_out, no_memory, bad_limits, poll_failed, Arrival, received, interrupted,
  unready, closed, broken, Instance, quit_server,
}

abbrev pub wait_result : Wait → Return
wait_result ready = success
wait_result timed_out = timeout
wait_result no_memory = memory_allocation_failure
wait_result bad_limits = invalid_arguments
wait_result poll_failed = errno

-- A call that reads has not come back, because the socket has no answer for it: `none`. Or it has
-- come back with its code, the bytes that it put in the caller's buffer, and the connection.
abbrev pub Reading : Type 0
Reading = Option (Return × List ℕ × Instance)

-- The loop of `_io_fill`, over the answers of `recv`.
unfoldable pub fill_from : Instance → List Arrival → Option (Return × Instance)
unfolding is_success
fill_from i [] = none
fill_from i (received b bs ∷ rest) = some (
  success,
  record i {
    bytes_read = i.bytes_read + suc (length bs);
    io_bytes_sent = 0;
    readable = b ∷ bs;
    arrivals = rest;
  },
)
fill_from i (interrupted ∷ rest) = fill_from i rest
fill_from i (unready w ∷ rest) =
    let j = record i { read_waits = i.read_waits + 1 } in
    let again = fill_from j rest in
    if is_success (wait_result w) then again else some (wait_result w, record j { arrivals = rest })
fill_from i (closed ∷ rest) = some (connection_failure, quit_server i)
fill_from i (broken rc ∷ rest) = some (rc, quit_server i)

-- `_io_fill`
unfoldable pub io_fill : Instance → Option (Return × Instance)
unfolding fill_from
io_fill i = fill_from i i.arrivals

-- The fill at the head of the loop, if nothing is buffered.
unfoldable pub fill_if_empty : Instance → List ℕ → Option (Return × Instance)
unfolding io_fill
fill_if_empty i [] = io_fill i
fill_if_empty i (b ∷ bs) = some (success, i)

-- `n` bytes leave the buffer.
abbrev pub consume : ℕ → Instance → Instance
consume n i = record i { readable = drop n i.readable }

-- The loop of `memcached_io_read`: `need` bytes are still wanted, and each round brings at least one.
unfoldable pub read_loop : ℕ → ℕ → List ℕ → Instance → Reading
unfolding fill_if_empty is_fatal
read_loop zero need got i = none
read_loop (suc fuel) zero got i = some (success, got, i)
read_loop (suc fuel) (suc need) got i = elim (fill_if_empty i i.readable) [
  | none ↦ none
  | some (rc, j) ↦
      let difference = min (suc need) (length j.readable) in
      let got' = got ++ take difference j.readable in
      let rest = read_loop fuel (suc need - difference) got' (consume difference j) in
      if is_fatal rc
      then some (rc, got, j)
      else if need == 0
      then some (success, got ++ take 1 j.readable, consume 1 j)
      else rest
]

-- `memcached_io_read`
unfoldable pub io_read : Instance → ℕ → Reading
unfolding read_loop
io_read i size =
    if i.has_socket then read_loop (suc size) size [] i else some (connection_failure, [], i)

-- A round of `memcached_safe_read` with what `memcached_io_read` came back with.
unfoldable pub safe_body : (ℕ → List ℕ → Instance → Reading) → ℕ → List ℕ → Reading → Reading
unfolding is_failed
safe_body loop need got none = none
safe_body loop need got (some (in_progress, bytes, i)) = loop need got i
safe_body loop need got (some (rc, bytes, i)) =
    if is_failed rc then some (rc, got ++ bytes, i) else loop (need - length bytes) (got ++ bytes) i

-- The loop of `memcached_safe_read`: `need` bytes behind `got` are still wanted.
unfoldable pub safe_loop : ℕ → ℕ → List ℕ → Instance → Reading
unfolding io_read safe_body
safe_loop zero need got i = none
safe_loop (suc fuel) zero got i = some (success, got, i)
safe_loop (suc fuel) (suc need) got i =
    safe_body (safe_loop fuel) (suc need) got (io_read i (suc need))

-- `memcached_safe_read`
unfoldable pub safe_read : Instance → ℕ → Reading
unfolding safe_loop
safe_read i size = safe_loop (size + 3) size [] i

-- The inner loop of `memcached_io_readline`: bytes are copied from the buffer while there is room in
-- `size`, up to a line feed. The result is the line so far, and if it is complete.
unfoldable pub copy_line : ℕ → List ℕ → List ℕ → List ℕ × (Bool × List ℕ)
copy_line size line [] = (line, (false, []))
copy_line size line (b ∷ bs) =
    let longer = copy_line size (line ++ b ∷ []) bs in
    if not (ltb (length line) size)
    then (line, (false, b ∷ bs))
    else if b == b'\n'
    then (line ++ b ∷ [], (true, bs))
    else longer

-- The first half of a round: one byte by `memcached_io_read`, if nothing is buffered.
unfoldable pub first_byte : List ℕ → Instance → Reading
unfolding io_read
first_byte [] i = io_read i 1
first_byte (b ∷ bs) i = some (success, [], i)

abbrev ends_line : List ℕ → Bool
ends_line [] = false
ends_line (b ∷ bs) = b == b'\n'

-- The second half, behind `one`, the byte that the first half read, if any.
unfoldable pub rest_of_round : ℕ → List ℕ → List ℕ → Instance → List ℕ × (Bool × List ℕ)
unfolding copy_line
rest_of_round size line one i =
    if ends_line one
    then (line ++ one, (true, i.readable))
    else copy_line size (line ++ one) i.readable

-- The end of a round, and the next one: `k` is the connection behind the bytes that were copied.
unfoldable pub end_round :
    (List ℕ → Instance → Reading) → ℕ → Instance → List ℕ × (Bool × List ℕ) → Reading
end_round loop size i (line, (complete, left)) =
    let k = record i { readable = left } in
    if length line == size
    then some (protocol_error, line, k)
    else if complete
    then some (success, line, k)
    else loop line k

-- A round with what its first half came back with.
unfoldable pub line_body : (List ℕ → Instance → Reading) → ℕ → List ℕ → Reading → Reading
unfolding rest_of_round end_round is_failed
line_body loop size line none = none
line_body loop size line (some (in_progress, one, i)) = some (in_progress, line, quit_server i)
line_body loop size line (some (rc, one, i)) =
    if is_failed rc
    then some (rc, line, i)
    else end_round loop size i (rest_of_round size line one i)

-- The loop of `memcached_io_readline`. Each round adds a byte to the line.
unfoldable pub readline_loop : ℕ → ℕ → List ℕ → Instance → Reading
unfolding first_byte line_body
readline_loop zero size line i = none
readline_loop (suc fuel) size line i =
    line_body (readline_loop fuel size) size line (first_byte i.readable i)

-- `memcached_io_readline`: `total_nr` is the length of the line.
unfoldable pub io_readline : Instance → ℕ → Reading
unfolding readline_loop
io_readline i size = readline_loop (size + 1) size [] i
