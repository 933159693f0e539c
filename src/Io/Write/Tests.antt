-- ===== src/Io/Write/Tests.antt =====
-- A text and its line end, written over a short `send` and a wait.
use libmemcached.Prelude.{concat, ℕ, ◌≡◌, refl, true, false, List, [], ◌∷◌, some, none, arith}
use libmemcached.Return.{success, timeout, is_failed}
use libmemcached.Io.{ready, timed_out}
use libmemcached.Io.Tests.{instance_with}
use libmemcached.Io.Write
use libmemcached.Io.Write.Flush.{Writes, IsEmpty}
use libmemcached.Io.Write.Order.{vdo-Wrote}

abbrev watermarks : Write.Watermarks
watermarks = record { io_msg_watermark = 500; io_bytes_watermark = 65536; is_purging = false }

abbrev writer_with : List Write.Sending → Write.Writer
writer_with sends = record {
  instance_ = instance_with [] [];
  write_waits = 0;
  sends = sends;
  sent = [];
}

abbrev slow : Write.Writer
slow = writer_with (
    Write.accepted 0
    ∷ Write.blocked (b'E' ∷ []) ready
    ∷ Write.blocked [] ready
    ∷ Write.no_buffers
    ∷ Write.accepted 1
    ∷ Write.accepted 100
    ∷ Write.accepted 0
    ∷ [])

abbrev vector : List (List ℕ)
vector = (b'g' ∷ b'e' ∷ []) ∷ [] ∷ (b'\r' ∷ b'\n' ∷ []) ∷ []

vdo-Wrote_example :
    (v : Write.Writer) × (Write.vdo watermarks true success timeout vector true slow
      ≡ some (success, Write.response_counted true v))
    × Writes slow v (concat vector)
    × IsEmpty v
vdo-Wrote_example =
    vdo-Wrote watermarks true success timeout vector true slow (unfold is_failed in refl)
      (omega arith)
      (record { calm = record { few = omega arith; below = omega arith }; capacity = omega arith })

abbrev sent : Write.Writing → List ℕ
sent none = []
sent (some (ok, w)) = w.sent

abbrev pending : Write.Writing → List ℕ
pending none = []
pending (some (ok, w)) = w.instance_.pending

abbrev short : Write.Writer
short = writer_with (Write.accepted 0 ∷ Write.blocked [] timed_out ∷ Write.accepted 9 ∷ [])

abbrev again : Write.Writing → Write.Writing
again none = none
again (some (ok, w)) = Write.io_write watermarks [] true w

-- A flush that times out behind a short `send` leaves the buffer, with the byte that was sent.
timed_out_pending :
    pending (Write.io_writev watermarks vector true short) ≡ b'g' ∷ b'e' ∷ b'\r' ∷ b'\n' ∷ []
unfolding Write.io_writev Write.io_write Write.write_loop Write.flush_if_full Write.flush_if
    Write.and_then Write.io_flush Write.flush_loop Write.nothing_to_purge Write.unblock Write.waited
timed_out_pending = refl

-- The next flush sends it once more.
timed_out_again :
    sent (again (Write.io_writev watermarks vector true short))
    ≡ b'g' ∷ b'g' ∷ b'e' ∷ b'\r' ∷ b'\n' ∷ []
unfolding Write.io_writev Write.io_write Write.write_loop Write.flush_if_full Write.flush_if
    Write.and_then Write.io_flush Write.flush_loop Write.nothing_to_purge Write.unblock Write.waited
timed_out_again = refl
