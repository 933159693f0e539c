-- ===== src/Io.antt =====
-- libmemcached/instance.hpp, instance.cc, io.cc: a connection over TCP, as the state that the reads
-- and the closing of a socket touch. Blocks of memory are lists: `readable` is the
-- `read_buffer_length` bytes at `read_ptr`, `pending` the first `write_buffer_offset` bytes of
-- `write_buffer`.
pub mod Read
pub mod Write
pub mod Stream
pub mod Tests
use libmemcached.Prelude.{ℕ, ◌+◌, ◌-◌, Bool, true, false, List, []}
use libmemcached.Return.{Return}

-- `memcached_server_state_t`
pub data ServerState : Type 0 where
  new addrinfo in_progress connected in_timeout disabled : ServerState

-- What `memcached_io_poll` answers to a wait for input.
pub data Wait : Type 0 where
  ready timed_out no_memory bad_limits poll_failed : Wait

-- What one `recv` gives: at least one byte, a signal, no data yet and the answer of the wait that
-- follows, the end of the stream, or an error with the code that `memcached_set_errno` keeps for it.
pub data Arrival : Type 0 where
  received : ℕ → List ℕ → Arrival
  interrupted closed : Arrival
  unready : Wait → Arrival
  broken : Return → Arrival

-- `arrivals` is what the socket is going to answer.
pub record Instance : Type 0 where
  pub has_socket : Bool
  pub state : ServerState
  pub is_shutting_down : Bool
  pub cursor_active : ℕ
  pub io_bytes_sent : ℕ
  pub read_waits : ℕ
  pub bytes_read : ℕ
  pub readable : List ℕ
  pub pending : List ℕ
  pub major_version : ℕ
  pub minor_version : ℕ
  pub micro_version : ℕ
  pub arrivals : List Arrival

abbrev pub no_version : ℕ
no_version = 255

-- `memcached_instance_st::close_socket`: what is left in the buffers is dropped.
unfoldable pub close_socket : Instance → Instance
close_socket i = record i {
  has_socket = false;
  state = new;
  is_shutting_down = false;
  cursor_active = 0;
  io_bytes_sent = 0;
  readable = [];
  pending = [];
  major_version = no_version;
  minor_version = no_version;
  micro_version = no_version;
  arrivals = [];
}

-- `memcached_quit_server (instance, true)`, which is also `memcached_io_reset`
abbrev pub quit_server : Instance → Instance
quit_server = close_socket

-- `memcached_server_response_increment`, `memcached_server_response_decrement`
abbrev pub response_increment : Instance → Instance
response_increment i = record i { cursor_active = i.cursor_active + 1 }

abbrev pub response_decrement : Instance → Instance
response_decrement i = record i { cursor_active = i.cursor_active - 1 }
