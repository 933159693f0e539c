-- ===== src/Connect/Tests.antt =====
-- A server that refuses connections.
use libmemcached.Prelude.{◌≡◌, refl, true, false, none, some, arith}
use libmemcached.Return.{
  success, connection_failure, server_temporarily_disabled, server_marked_dead,
}
use libmemcached.Io.{addrinfo, connected}
use libmemcached.Connect.{Policy, Health, server_init, connect}
use libmemcached.Connect.Retry.{Reached, starts, connects, connect-tried}

abbrev policy : Policy
policy = record {
  server_failure_limit = 5;
  server_timeout_limit = 0;
  retry_timeout = 2;
  dead_timeout = 0;
  auto_eject_hosts = false;
  sasl_over_udp = false;
}

abbrev fresh : Health
fresh = server_init 1 none

abbrev failed : Health
failed = (connect policy 1 (some 100) success (connection_failure, addrinfo) fresh).health

-- For the retry time the server is left alone.
left_alone :
    (connect policy 2 (some 102) success (success, connected) failed).rc
    ≡ server_temporarily_disabled
unfolding connect
left_alone = refl

back : (connect policy 2 (some 103) success (success, connected) failed).rc ≡ success
unfolding connect
back = refl

-- An ejected server without a time for the dead is not tried again, whatever the time.
abbrev ejecting : Policy
ejecting = record policy { server_failure_limit = 1; auto_eject_hosts = true }

buried :
    (connect ejecting 2 (some 1000000) success (success, connected) failed).rc ≡ server_marked_dead
unfolding connect
buried = refl

abbrev failed_at : Reached policy 100 failed
failed_at =
    connects 0 100 1 success connection_failure addrinfo fresh (starts 1 none) (omega arith) refl

connect-tried_example :
    (connect policy 2 (some 104) success (success, connected) failed).tried ≡ true
connect-tried_example =
    connect-tried policy 100 104 2 success (success, connected) failed refl refl failed_at
      (unfold connect in refl) (omega arith)
