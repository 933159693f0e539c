-- ===== src/Connect/Retry.antt =====
-- libmemcached/connect.cc: a server that fails is left alone for a time, and then tried again.
use libmemcached.Prelude.{
  ℕ, ◌+◌, ◌≤◌, ◌<◌, ◌≡◌, refl, sym, ap, subst, ◌∙◌, Bool, true, false, Option, some, leb, ◌==◌,
  if◌then◌else◌, arith,
}
use libmemcached.Return.{invalid_host_protocol, Return, success, is_success, is_failed}
use libmemcached.Io.{ServerState, in_timeout}
use libmemcached.Connect.{
  Policy, Health, server_init, is_in_timeout, count_timeout, count_failure, mark_server_for_timeout,
  Backoff, leave_timeout, backoff_case, behind_backoff, backoff_handling, Connected, attempted,
  connect, close,
}

-- A server at a time, behind any number of attempts to connect, by any queries and with any outcome,
-- and of closed connections.
pub data Reached (p : Policy) : ℕ → Health → Type 0 where
  starts : (version : ℕ) (last : Option ℕ) → Reached p 0 (server_init version last)
  connects :
      (t now query_id : ℕ) (rebuilt attempt : Return) (reached : ServerState) (s : Health)
      → Reached p t s
      → t ≤ now
      → is_in_timeout reached ≡ false
      → Reached p now (connect p query_id (some now) rebuilt (attempt, reached) s).health
  closes : (t : ℕ) (s : Health) → Reached p t s → Reached p t (close s)

-- The time for which a server is left alone is bounded.
abbrev Bounded : Policy → ℕ → Health → Type 0
Bounded p t s = s.next_retry ≤ t + p.retry_timeout + 1

mark_server_for_timeout-Bounded :
    (p : Policy) (query_id t now : ℕ) (s : Health)
    → t ≤ now
    → Bounded p t s
    → Bounded p now (mark_server_for_timeout p query_id (some now) s)
unfolding mark_server_for_timeout count_timeout count_failure
mark_server_for_timeout-Bounded p query_id t now s h b = ground arith

attempted-Bounded :
    (done : Bool) (p : Policy) (query_id t now : ℕ) (was : Bool) (attempt : Return × ServerState)
    (s : Health)
    → t ≤ now
    → Bounded p t s
    → Bounded p now (attempted done p query_id (some now) was attempt s).health
unfolding attempted
attempted-Bounded true p query_id t now was attempt s h b = omega arith
attempted-Bounded false p query_id t now was attempt s h b =
    mark_server_for_timeout-Bounded p query_id t now _ h b

leave_timeout-Bounded :
    (p : Policy) (t now : ℕ) (s : Health)
    → Bounded p t s
    → Bounded p t (leave_timeout (some now) s).health
unfolding leave_timeout
leave_timeout-Bounded p t now s b = ground arith

retried-Bounded :
    (p : Policy) (t n : ℕ)
    → n ≤ t + p.retry_timeout + 1
    → (if n == 0 then 1 else n) ≤ t + p.retry_timeout + 1
retried-Bounded p t n h = ground arith

backoff_case-Bounded :
    (over : Bool) (p : Policy) (t now : ℕ) (rebuilt : Return) (s : Health)
    → Bounded p t s
    → Bounded p t (backoff_case over false p (some now) rebuilt s).health
unfolding backoff_case
backoff_case-Bounded false p t now rebuilt s b = leave_timeout-Bounded p t now s b
backoff_case-Bounded true p t now rebuilt s b =
    leave_timeout-Bounded p t now
      (record s { state = in_timeout; next_retry = if s.next_retry == 0 then 1 else s.next_retry })
      (retried-Bounded p t s.next_retry b)

if-Bounded :
    (b : Bool) (p : Policy) (t : ℕ) (x y : Connected)
    → Bounded p t x.health
    → Bounded p t y.health
    → Bounded p t (if b then x else y).health
if-Bounded true p t x y hx hy = hx
if-Bounded false p t x y hx hy = hy

later-Bounded : (p : Policy) (t now : ℕ) (s : Health) → t ≤ now → Bounded p t s → Bounded p now s
later-Bounded p t now s h b = omega arith

behind_backoff-Bounded :
    (failed : Bool) (p : Policy) (query_id t now : ℕ) (attempt : Return × ServerState) (b : Backoff)
    → t ≤ now
    → Bounded p t b.health
    → Bounded p now (behind_backoff failed p query_id (some now) attempt b).health
unfolding behind_backoff
behind_backoff-Bounded true p query_id t now attempt b h k = later-Bounded p t now b.health h k
behind_backoff-Bounded false p query_id t now attempt b h k =
    if-Bounded p.sasl_over_udp p now
      (record { rc = invalid_host_protocol; tried = false; health = b.health })
      (attempted (is_success attempt.0) p query_id (some now) b.was_in_timeout attempt b.health)
      (later-Bounded p t now b.health h k)
      (attempted-Bounded (is_success attempt.0) p query_id t now b.was_in_timeout attempt b.health h
        k)

connect-Bounded :
    (p : Policy) (query_id t now : ℕ) (rebuilt : Return) (attempt : Return × ServerState)
    (s : Health)
    → p.auto_eject_hosts ≡ false
    → t ≤ now
    → Bounded p t s
    → Bounded p now (connect p query_id (some now) rebuilt attempt s).health
unfolding connect
connect-Bounded p query_id t now rebuilt attempt s e h b =
    if-Bounded s.has_socket p now (record { rc = success; tried = false; health = s })
      (behind_backoff (is_failed (backoff_handling p (some now) rebuilt s).rc) p query_id (some now)
        attempt (backoff_handling p (some now) rebuilt s))
      (later-Bounded p t now s h b)
      (behind_backoff-Bounded _ p query_id t now attempt (backoff_handling p (some now) rebuilt s) h
        (unfold backoff_handling in
          subst
            (λ a.
              Bounded p t
                (backoff_case (leb p.server_failure_limit s.server_failure_counter) a p (some now)
                  rebuilt s).health)
            (sym e)
            (backoff_case-Bounded (leb p.server_failure_limit s.server_failure_counter) p t now
              rebuilt s b)))

Reached-Bounded :
    (p : Policy) (t : ℕ) (s : Health) → p.auto_eject_hosts ≡ false → Reached p t s → Bounded p t s
Reached-Bounded p t s e (starts version last) = omega arith
Reached-Bounded p t s e (connects t' now query_id rebuilt attempt reached s' r h _) =
    connect-Bounded p query_id t' now rebuilt (attempt, reached) s' e h
      (Reached-Bounded p t' s' e r)
Reached-Bounded p t s e (closes _ s' r) = Reached-Bounded p t s' e r

leave_timeout-success :
    (now : ℕ) (s : Health) → s.next_retry < now → (leave_timeout (some now) s).rc ≡ success
unfolding leave_timeout
leave_timeout-success now s h = ground arith

backoff_case-success :
    (over : Bool) (p : Policy) (now : ℕ) (rebuilt : Return) (s : Health)
    → s.next_retry < now
    → 1 < now
    → (backoff_case over false p (some now) rebuilt s).rc ≡ success
unfolding backoff_case
backoff_case-success false p now rebuilt s h k = leave_timeout-success now s h
backoff_case-success true p now rebuilt s h k =
    leave_timeout-success now
      (record s { state = in_timeout; next_retry = if s.next_retry == 0 then 1 else s.next_retry })
      (retried s.next_retry h)
  where
    retried : (n : ℕ) → n < now → (if n == 0 then 1 else n) < now
    retried n h = ground arith

attempted-tried :
    (done : Bool) (p : Policy) (query_id : ℕ) (clock : Option ℕ) (was : Bool)
    (attempt : Return × ServerState) (s : Health)
    → (attempted done p query_id clock was attempt s).tried ≡ true
unfolding attempted
attempted-tried true p query_id clock was attempt s = refl
attempted-tried false p query_id clock was attempt s = refl

backoff_handling-success :
    (p : Policy) (now : ℕ) (rebuilt : Return) (s : Health)
    → p.auto_eject_hosts ≡ false
    → s.next_retry < now
    → 1 < now
    → (backoff_handling p (some now) rebuilt s).rc ≡ success
unfolding backoff_handling
backoff_handling-success p now rebuilt s e h k =
    let over = leb p.server_failure_limit s.server_failure_counter in
    ap (λ a. (backoff_case over a p (some now) rebuilt s).rc) e
    ∙ backoff_case-success over p now rebuilt s h k

connect-behind :
    (p : Policy) (query_id now : ℕ) (rebuilt : Return) (attempt : Return × ServerState) (s : Health)
    → s.has_socket ≡ false
    → (connect p query_id (some now) rebuilt attempt s).tried
      ≡ (behind_backoff
          (is_failed (backoff_handling p (some now) rebuilt s).rc)
          p
          query_id
          (some now)
          attempt
          (backoff_handling p (some now) rebuilt s)).tried
unfolding connect
connect-behind p query_id now rebuilt attempt s o =
    let idle : Connected = record { rc = success; tried = false; health = s } in
    let c =
      behind_backoff (is_failed (backoff_handling p (some now) rebuilt s).rc) p query_id (some now)
        attempt (backoff_handling p (some now) rebuilt s) in
    ap (λ b. (if b then idle else c).tried) o

behind_backoff-tried :
    (p : Policy) (query_id now : ℕ) (attempt : Return × ServerState) (b : Backoff)
    → p.sasl_over_udp ≡ false
    → (behind_backoff (is_failed success) p query_id (some now) attempt b).tried ≡ true
unfolding behind_backoff is_failed
behind_backoff-tried p query_id now attempt b u =
    let refused : Connected = record {
      rc = invalid_host_protocol;
      tried = false;
      health = b.health;
    } in
    let c =
      attempted (is_success attempt.0) p query_id (some now) b.was_in_timeout attempt b.health in
    ap (λ x. (if x then refused else c).tried) u
    ∙ attempted-tried (is_success attempt.0) p query_id (some now) b.was_in_timeout attempt b.health

-- Without ejection, and without SASL over UDP, a server that has no connection is tried again by every
-- connect that comes more than a second after the retry time of the last event, whatever has happened
-- to it before: any number of attempts to connect, by any queries and with any outcome, and of closed
-- connections, at times that do not go back.
pub connect-tried :
    (p : Policy) (t now query_id : ℕ) (rebuilt : Return) (attempt : Return × ServerState)
    (s : Health)
    → p.auto_eject_hosts ≡ false
    → p.sasl_over_udp ≡ false
    → Reached p t s
    → s.has_socket ≡ false
    → t + p.retry_timeout + 1 < now
    → (connect p query_id (some now) rebuilt attempt s).tried ≡ true
connect-tried p t now query_id rebuilt attempt s e u r o h =
    let b = backoff_handling p (some now) rebuilt s in
    let rc =
      backoff_handling-success p now rebuilt s e (omega (arith, Reached-Bounded p t s e r))
        (omega arith) in
    connect-behind p query_id now rebuilt attempt s o
    ∙ ap (λ f. (behind_backoff (is_failed f) p query_id (some now) attempt b).tried) rc
    ∙ behind_backoff-tried p query_id now attempt b u
