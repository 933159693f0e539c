-- ===== src/Io/Tests.antt =====
-- A line and a block that come in pieces.
use libmemcached.Prelude.{ℕ, ◌≡◌, refl, true, false, List, [], ◌∷◌, some, none, arith}
use libmemcached.Return.{Return, success, connection_failure, protocol_error, timeout}
use libmemcached.Io.{
  connected, Arrival, received, interrupted, unready, closed, ready, timed_out, Instance,
  no_version,
}
use libmemcached.Io.Read.{Reading, io_readline, safe_read}
use libmemcached.Io.Stream.{Reads}
use libmemcached.Io.Stream.Safe.{safe_read-Reads}
use libmemcached.Io.Stream.Line.{ReadsLine, io_readline-ReadsLine}

abbrev pub instance_with : List ℕ → List Arrival → Instance
instance_with readable arrivals = record {
  has_socket = true;
  state = connected;
  is_shutting_down = false;
  cursor_active = 1;
  io_bytes_sent = 0;
  read_waits = 0;
  bytes_read = 0;
  readable = readable;
  pending = [];
  major_version = no_version;
  minor_version = no_version;
  micro_version = no_version;
  arrivals = arrivals;
}

abbrev pieces : Instance
pieces = instance_with (b'E' ∷ []) (
    received b'N' (b'D' ∷ [])
    ∷ interrupted
    ∷ unready ready
    ∷ received b'\r' []
    ∷ received b'\n' (b'O' ∷ b'K' ∷ [])
    ∷ [])

-- The connection is lost in the middle of a block.
abbrev code : Reading → Return
code none = success
code (some (rc, bytes, i)) = rc

lost :
    code (safe_read (instance_with (b'E' ∷ []) (received b'N' [] ∷ closed ∷ [])) 4)
    ≡ connection_failure
unfolding safe_read
lost = refl

late : code (safe_read (instance_with [] (unready ready ∷ unready timed_out ∷ [])) 4) ≡ timeout
unfolding safe_read
late = refl

-- A line that fills the buffer is refused, even if it is complete.
full : code (io_readline (instance_with (b'O' ∷ b'K' ∷ b'\n' ∷ []) []) 3) ≡ protocol_error
unfolding io_readline
full = refl

safe_read-Reads_example : Reads (safe_read pieces 4) 4 [] pieces
safe_read-Reads_example = safe_read-Reads pieces 4 refl (omega arith)

io_readline-ReadsLine_example :
    ReadsLine (io_readline pieces 10) [] (b'E' ∷ b'N' ∷ b'D' ∷ b'\r' ∷ []) (b'O' ∷ b'K' ∷ []) pieces
io_readline-ReadsLine_example =
    io_readline-ReadsLine pieces 10 (b'E' ∷ b'N' ∷ b'D' ∷ b'\r' ∷ []) (b'O' ∷ b'K' ∷ []) refl refl
      (
        (λ e. absurd (omega arith)),
        (
          (λ e. absurd (omega arith)),
          ((λ e. absurd (omega arith)), ((λ e. absurd (omega arith)), tt)),
        ),
      )
      (omega arith)
