-- ===== src/Connect.antt =====
-- libmemcached/connect.cc, server.hpp, instance.hpp, instance.cc: when the client tries to connect to a
-- server, and when it leaves it alone for a time.
pub mod Retry
mod Tests
use libmemcached.Prelude.{
  ℕ, ◌+◌, ◌-◌, Bool, true, false, not, ◌&&◌, Option, none, some, ltb, leb, ◌==◌, if◌then◌else◌,
}
use libmemcached.Prelude.Words.{sub32}
use libmemcached.Return.{
  Return, success, server_marked_dead, server_temporarily_disabled, invalid_host_protocol,
  is_success, is_failed,
}
use libmemcached.Io.{ServerState, new, in_timeout}

-- What a client tells its servers: the fields of `memcached_st` that count here.
pub record Policy : Type 0 where
  pub server_failure_limit : ℕ
  pub server_timeout_limit : ℕ
  pub retry_timeout : ℕ
  pub dead_timeout : ℕ
  pub auto_eject_hosts : Bool
  -- SASL callbacks are set, and UDP is on.
  pub sasl_over_udp : Bool

-- The fields of an instance that tell how it fares, with the version of the server that the client
-- lost last (`root->last_disconnected_server`).
pub record Health : Type 0 where
  pub has_socket : Bool
  pub state : ServerState
  pub server_failure_counter : ℕ
  pub server_failure_counter_query_id : ℕ
  pub server_timeout_counter : ℕ
  pub server_timeout_counter_query_id : ℕ
  pub next_retry : ℕ
  pub version : ℕ
  pub last_disconnected : Option ℕ

-- `_server_init`
abbrev pub server_init : ℕ → Option ℕ → Health
server_init version last = record {
  has_socket = false;
  state = new;
  server_failure_counter = 0;
  server_failure_counter_query_id = 0;
  server_timeout_counter = 0;
  server_timeout_counter_query_id = 0;
  next_retry = 0;
  version = version;
  last_disconnected = last;
}

-- `mark_server_as_clean`
abbrev pub mark_server_as_clean : Health → Health
mark_server_as_clean s = record s {
  server_failure_counter = 0;
  server_timeout_counter = 0;
  next_retry = 0;
}

-- `set_last_disconnected_host`; the copy that it keeps has the version of the original.
abbrev pub set_last_disconnected_host : Health → Health
set_last_disconnected_host s = record s { last_disconnected = some s.version }

abbrev pub is_in_timeout : ServerState → Bool
is_in_timeout in_timeout = true
is_in_timeout other = false

-- The counter of timeouts, at most one for each query.
unfoldable pub count_timeout : ℕ → Health → Health
count_timeout query_id s =
    if not (s.server_timeout_counter_query_id == query_id)
    then record s {
      server_timeout_counter = s.server_timeout_counter + 1;
      server_timeout_counter_query_id = query_id;
    }
    else s

unfoldable pub count_failure : ℕ → Health → Health
count_failure query_id s =
    if not (s.server_failure_counter_query_id == query_id)
    then record s {
      server_failure_counter = s.server_failure_counter + 1;
      server_failure_counter_query_id = query_id;
    }
    else s

-- The time to try again; without a clock it has come at once.
abbrev pub retry_at : Policy → Option ℕ → ℕ
retry_at p none = 1
retry_at p (some now) = now + p.retry_timeout

abbrev time_out : Policy → ℕ → Option ℕ → Health → Health
time_out p query_id clock s =
    set_last_disconnected_host
      (count_failure query_id (record s { next_retry = retry_at p clock; state = in_timeout }))

-- `memcached_mark_server_for_timeout`; `clock` is the answer of gettimeofday.
unfoldable pub mark_server_for_timeout : Policy → ℕ → Option ℕ → Health → Health
unfolding count_timeout count_failure
mark_server_for_timeout p query_id clock s =
    let t = count_timeout query_id s in
    if is_in_timeout s.state
    then s
    else if leb p.server_timeout_limit t.server_timeout_counter
    then time_out p query_id clock t
    else t

-- What `backoff_handling` returns, and if the server was in a timeout that is over.
pub record Backoff : Type 0 where
  pub rc : Return
  pub was_in_timeout : Bool
  pub health : Health

-- The time has come.
abbrev pub is_due : Option ℕ → ℕ → Bool
is_due none next_retry = false
is_due (some now) next_retry = ltb next_retry now

-- The second half of `backoff_handling`, on a server in a timeout or not.
unfoldable pub leave_timeout : Option ℕ → Health → Backoff
leave_timeout clock s =
    if not (is_in_timeout s.state)
    then record { rc = success; was_in_timeout = false; health = s }
    else if is_due clock s.next_retry
    then record {
      rc = success;
      was_in_timeout = true;
      health = record s { state = new; server_timeout_counter = 0 };
    }
    else record { rc = server_temporarily_disabled; was_in_timeout = false; health = s }

-- A dead server is tried once more after a time, if there is a clock and the client wants it.
abbrev pub bury : Policy → Option ℕ → Health → Health
bury p none s = set_last_disconnected_host s
bury p (some now) s =
    if ltb 0 p.dead_timeout
    then record (set_last_disconnected_host s) {
      next_retry = now + p.dead_timeout;
      server_failure_counter = sub32 p.server_failure_limit 1;
    }
    else set_last_disconnected_host s

-- The cases of `backoff_handling`: the failures have reached their limit or not, and servers are ejected
-- or not.
unfoldable pub backoff_case : Bool → Bool → Policy → Option ℕ → Return → Health → Backoff
unfolding leave_timeout is_failed
backoff_case false eject p clock rebuilt s = leave_timeout clock s
backoff_case true true p clock rebuilt s = record {
  rc = if is_failed rebuilt then rebuilt else server_marked_dead;
  was_in_timeout = false;
  health = bury p clock s;
}
backoff_case true false p clock rebuilt s =
    leave_timeout clock
      (record s { state = in_timeout; next_retry = if s.next_retry == 0 then 1 else s.next_retry })

-- `backoff_handling`; `rebuilt` is the result of `run_distribution`.
unfoldable pub backoff_handling : Policy → Option ℕ → Return → Health → Backoff
unfolding backoff_case
backoff_handling p clock rebuilt s =
    backoff_case (leb p.server_failure_limit s.server_failure_counter) p.auto_eject_hosts p clock
      rebuilt s

-- The result of `memcached_connect`, and if it has tried to connect.
pub record Connected : Type 0 where
  pub rc : Return
  pub tried : Bool
  pub health : Health

-- Behind the attempt, which came out as `attempt` and left the server in a state; the flag tells if it
-- was a success.
unfoldable pub attempted :
    Bool → Policy → ℕ → Option ℕ → Bool → Return × ServerState → Health → Connected
unfolding mark_server_for_timeout
attempted true p query_id clock was_in_timeout (attempt, reached) s = record {
  rc = attempt;
  tried = true;
  health = record (mark_server_as_clean s) { has_socket = true; state = reached };
}
attempted false p query_id clock was_in_timeout (attempt, reached) s = record {
  rc = if was_in_timeout then server_temporarily_disabled else attempt;
  tried = true;
  health =
      mark_server_for_timeout p query_id clock
        (set_last_disconnected_host (record s { state = reached }));
}

-- Behind `backoff_handling`; the flag tells if it failed.
unfoldable pub behind_backoff :
    Bool → Policy → ℕ → Option ℕ → Return × ServerState → Backoff → Connected
unfolding attempted is_success
behind_backoff true p query_id clock attempt b = record {
  rc = b.rc;
  tried = false;
  health = set_last_disconnected_host b.health;
}
behind_backoff false p query_id clock attempt b =
    if p.sasl_over_udp
    then record { rc = invalid_host_protocol; tried = false; health = b.health }
    else attempted (is_success attempt.0) p query_id clock b.was_in_timeout attempt b.health

-- `memcached_connect`, with the result `attempt` of `network_connect` or `unix_socket_connect`, if it
-- comes to that.
unfoldable pub connect : Policy → ℕ → Option ℕ → Return → Return × ServerState → Health → Connected
unfolding backoff_handling behind_backoff is_failed
connect p query_id clock rebuilt attempt s =
    let b = backoff_handling p clock rebuilt s in
    let c = behind_backoff (is_failed b.rc) p query_id clock attempt b in
    if s.has_socket then record { rc = success; tried = false; health = s } else c

-- `close_socket`, as far as it touches these fields.
abbrev pub close : Health → Health
close s = record s { has_socket = false; state = new }
