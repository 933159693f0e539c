-- ===== src/Io/Write.antt =====
-- libmemcached/io.cc: `io_flush`, `_io_write`, `memcached_io_write` and `memcached_io_writev`, for a
-- client without response callbacks; `memcached_vdo` of libmemcached/do.cc over TCP; and the test of `memcached_purge` in libmemcached/purge.cc.
pub mod Flush
pub mod Order
mod Tests
use libmemcached.Prelude.{
  ℕ, zero, suc, ◌+◌, ◌-◌, Bool, true, false, ◌||◌, ◌&&◌, List, [], ◌∷◌, ◌++◌, Option, none, some,
  take, drop, length, ltb, leb, min, ◌==◌, if◌then◌else◌,
}
use libmemcached.Prelude.Words.{add32}
use libmemcached.Return.{Return, success, timeout, is_failed}
use libmemcached.Io.{Instance, Wait, quit_server, response_increment}
use libmemcached.Io.Read.{wait_result}

-- What one `send` gives: that it takes so many bytes and one more, but no more than there are; no
-- buffers for the moment; no room in the socket, with what the `recv` of `repack_input_buffer` brings
-- and the answer of the wait, if it comes to these; a connection that is lost; another error.
pub data Sending : Type 0 where
  accepted : ℕ → Sending
  no_buffers lost : Sending
  blocked : List ℕ → Wait → Sending
  failed : Return → Sending

-- The settings of the client, and if it is in a purge.
pub record Watermarks : Type 0 where
  pub io_msg_watermark : ℕ
  pub io_bytes_watermark : ℕ
  pub is_purging : Bool

-- A connection, with what the calls of `send` are going to give, and what they have taken.
pub record Writer : Type 0 where
  pub instance_ : Instance
  pub write_waits : ℕ
  pub sends : List Sending
  pub sent : List ℕ

-- `none`: the socket has no answer, or responses have to be read first, by `memcached_purge`.
abbrev pub Writing : Type 0
Writing = Option (Bool × Writer)

-- MEMCACHED_MAX_BUFFER
abbrev pub max_buffer : ℕ
max_buffer = 8196

-- `memcached_purge` has nothing to do.
unfoldable pub nothing_to_purge : Watermarks → Instance → Bool
nothing_to_purge m i =
    m.is_purging
    || ((ltb i.cursor_active m.io_msg_watermark && ltb i.io_bytes_sent m.io_bytes_watermark)
        || (leb m.io_bytes_watermark i.io_bytes_sent && ltb i.cursor_active 2))

-- `n` bytes of the text are taken.
abbrev pub took : ℕ → List ℕ → Writer → Writer
took n text w = record w {
  instance_ = record w.instance_ {
    io_bytes_sent = add32 w.instance_.io_bytes_sent (length (take n text));
  };
  sent = w.sent ++ take n text;
}

-- What `repack_input_buffer` appends, if the buffer has room.
abbrev pub repacked : List ℕ → Writer → List ℕ
repacked input w = take (max_buffer - length w.instance_.readable) input

abbrev pub repack : List ℕ → Writer → Writer
repack input w = record w {
  instance_ = record w.instance_ { readable = w.instance_.readable ++ repacked input w };
}

abbrev pub waiting : Writer → Writer
waiting w = record w { write_waits = w.write_waits + 1 }

-- The socket is closed.
abbrev pub give_up : Writer → Writing
give_up w = some (false, record w { instance_ = quit_server w.instance_; sends = [] })

-- The end of the wait for output: `again` is the next round.
unfoldable pub waited : Return → Writing → List Sending → Writer → Writing
waited success again rest w = again
waited timeout again rest w = some (false, record w { sends = rest })
waited rc again rest w = give_up w

-- A `send` without room: input was taken in, or it waits.
unfoldable pub unblock :
    List ℕ → Bool → Writing → Return → Writing → List Sending → Writer → Writing
unfolding waited
unblock (b ∷ bs) idle repeat_ rc again rest w = repeat_
unblock [] idle repeat_ rc again rest w = if idle then waited rc again rest w else none

-- The loop of `io_flush`, over the calls of `send`; the text is what is left of the buffer.
unfoldable pub flush_loop : Watermarks → List ℕ → Writer → List Sending → Writing
unfolding nothing_to_purge unblock
flush_loop m [] w sends =
    some (true, record w { instance_ = record w.instance_ { pending = [] }; sends = sends })
flush_loop m (b ∷ bs) w [] = none
flush_loop m (b ∷ bs) w (accepted n ∷ rest) =
    flush_loop m (drop n bs) (took (suc n) (b ∷ bs) w) rest
flush_loop m (b ∷ bs) w (no_buffers ∷ rest) = flush_loop m (b ∷ bs) w rest
flush_loop m (b ∷ bs) w (blocked input answer ∷ rest) =
    let repeat_ = flush_loop m (b ∷ bs) (repack input w) rest in
    let again = flush_loop m (b ∷ bs) (waiting (repack input w)) rest in
    unblock (repacked input w) (nothing_to_purge m w.instance_) repeat_ (wait_result answer) again
      rest (waiting w)
flush_loop m (b ∷ bs) w (lost ∷ rest) = give_up w
flush_loop m (b ∷ bs) w (failed rc ∷ rest) = give_up w

-- `io_flush`
unfoldable pub io_flush : Watermarks → Writer → Writing
unfolding nothing_to_purge flush_loop
io_flush m w =
    if nothing_to_purge m w.instance_ then flush_loop m w.instance_.pending w w.sends else none

unfoldable pub and_then : Writing → (Writer → Writing) → Writing
and_then none next = none
and_then (some (false, w)) next = some (false, w)
and_then (some (true, w)) next = next w

-- `memcpy` of the next `n` bytes into the buffer.
abbrev pub copied_in : ℕ → List ℕ → Writer → Writer
copied_in n text w = record w {
  instance_ = record w.instance_ { pending = w.instance_.pending ++ take n text };
}

-- The room for the text, or all of it.
abbrev pub should_write : List ℕ → Writer → ℕ
should_write text w = min (max_buffer - length w.instance_.pending) (length text)

-- The flush of a full buffer.
unfoldable pub flush_if_full : Watermarks → Writer → Writing
unfolding io_flush
flush_if_full m w =
    if length w.instance_.pending == max_buffer then io_flush m w else some (true, w)

-- The loop of `_io_write`; a round takes at least one byte if the buffer is not full.
unfoldable pub write_loop : Watermarks → ℕ → List ℕ → Writer → Writing
unfolding flush_if_full and_then
write_loop m fuel [] w = some (true, w)
write_loop m zero (b ∷ bs) w = none
write_loop m (suc fuel) (b ∷ bs) w =
    let n = should_write (b ∷ bs) w in
    and_then (flush_if_full m (copied_in n (b ∷ bs) w)) (write_loop m fuel (drop n (b ∷ bs)))

unfoldable pub flush_if : Bool → Watermarks → Writer → Writing
unfolding io_flush
flush_if with_flush m w = if with_flush then io_flush m w else some (true, w)

-- `_io_write`; when it returns true, it has written all the text.
unfoldable pub io_write : Watermarks → List ℕ → Bool → Writer → Writing
unfolding write_loop and_then flush_if
io_write m text with_flush w =
    and_then (write_loop m (suc (length text)) text w) (flush_if with_flush m)

-- `memcached_io_writev`: the lengths it adds up at the end agree, since each write that returns true
-- has written all its text.
unfoldable pub io_writev : Watermarks → List (List ℕ) → Bool → Writer → Writing
unfolding io_write and_then
io_writev m [] true w = io_write m [] true w
io_writev m [] false w = some (true, w)
io_writev m ([] ∷ vector) with_flush w = io_writev m vector with_flush w
io_writev m ((b ∷ bs) ∷ vector) with_flush w =
    and_then (io_write m (b ∷ bs) false w) (io_writev m vector with_flush)

-- A client whose request is answered counts the response to come.
abbrev pub response_counted : Bool → Writer → Writer
response_counted is_replying w =
    if is_replying then record w { instance_ = response_increment w.instance_ } else w

-- The end of `memcached_vdo`: `connected` is the code of the connection, `last_error` that of the
-- client behind a write that failed.
unfoldable pub end_vdo : Bool → Return → Return → Writing → Option (Return × Writer)
end_vdo is_replying connected last_error none = none
end_vdo is_replying connected last_error (some (true, w)) =
    some (connected, response_counted is_replying w)
end_vdo is_replying connected last_error (some (false, w)) =
    some (last_error, record w { instance_ = quit_server w.instance_; sends = [] })

-- `memcached_vdo` over TCP, on the connection that `memcached_connect` leaves behind.
unfoldable pub vdo :
    Watermarks → Bool → Return → Return → List (List ℕ) → Bool → Writer → Option (Return × Writer)
unfolding is_failed io_writev end_vdo
vdo m is_replying connected last_error vector with_flush w =
    if is_failed connected
    then some (connected, w)
    else end_vdo is_replying connected last_error (io_writev m vector with_flush w)
