-- ===== src/Behavior/Tests.antt =====
-- Settings of a new client, over UDP for some of the runs.
use libmemcached.Prelude.{◌≡◌, ◌≢◌, refl, true, false, [], none, some, inl, inr, arith}
use libmemcached.Return.{success, errno}
use libmemcached.Hashkit.Digest.{Build}
use libmemcached.Hashkit.Function.{hashkit_create}
use libmemcached.Distribution.State.{modula, consistent, Memcached, World}
use libmemcached.Behavior.{Settings, sort_hosts, poll_timeout, buffer_requests, binary_protocol}
use libmemcached.Behavior.Setting.{behavior_set}
use libmemcached.Behavior.Modes.{Modes, HasSwitches, behavior_set-Modes, behavior_set-refused}
use libmemcached.Behavior.Reading.{behavior_get, behavior_get-set}

abbrev build : Build
build = record { fnv64 = true; hsieh_hash = false; murmur_hash = true }

abbrev world : World
world = record { digest = λ key. 0; clock = some 100; realloc = true; quarter_points = λ a b c. 40 }

abbrev routing : Memcached
routing = record {
  auto_eject_hosts = false;
  use_sort_hosts = false;
  hash_with_namespace = false;
  distribution = modula;
  servers = [];
  ketama = record {
    weighted = false;
    continuum_count = 0;
    points_counter = 0;
    next_rebuild = 0;
    continuum = [];
  };
  buckets = none;
  name_space = [];
}

abbrev over_udp : Settings
over_udp = record {
  flags = record {
    binary_protocol = false;
    buffer_requests = false;
    no_block = false;
    reply = false;
    randomize_replica_read = false;
    support_cas = false;
    tcp_nodelay = false;
    use_udp = true;
    verify_key = true;
    tcp_keepalive = false;
  };
  limits = record {
    number_of_replicas = 0;
    io_msg_watermark = 500;
    io_bytes_watermark = 66560;
    io_key_prefetch = 0;
    snd_timeout = 0;
    rcv_timeout = 0;
    server_failure_limit = 5;
    server_timeout_limit = 0;
    poll_timeout = 5000;
    connect_timeout = 4000;
    retry_timeout = 2;
    dead_timeout = 0;
    send_size = 4294967295;
    recv_size = 4294967295;
    tcp_keepidle = 0;
  };
  routing = routing;
  hashkit = hashkit_create;
}

udp-Modes : Modes over_udp.flags
udp-Modes = record { udp = inr (refl, refl); binary = inl refl }

behavior_set-Modes_example : Modes (behavior_set build world over_udp binary_protocol 1).1.flags
behavior_set-Modes_example = behavior_set-Modes build world over_udp binary_protocol 1 udp-Modes

no_buffering : (behavior_set build world over_udp buffer_requests 1).0 ≢ success
unfolding behavior_set
no_buffering e = ground (arith, e)

behavior_set-refused_example :
    ((behavior_set build world over_udp buffer_requests 1).1.flags ≡ over_udp.flags)
    × ((behavior_set build world over_udp buffer_requests 1).1.limits ≡ over_udp.limits)
    × HasSwitches build world over_udp.routing false
        (behavior_set build world over_udp buffer_requests 1).1.routing
behavior_set-refused_example =
    behavior_set-refused build world over_udp buffer_requests 1 no_buffering

minus_one : (behavior_set build world over_udp poll_timeout 18446744073709551615).0 ≡ success
unfolding behavior_set
minus_one = refl

behavior_get-set_example :
    behavior_get
      (behavior_set build world over_udp poll_timeout 18446744073709551615).1
      poll_timeout
    ≡ some 18446744073709551615
behavior_get-set_example =
    behavior_get-set build world over_udp poll_timeout 18446744073709551615 18446744073709551615
      refl minus_one

-- Sorting the hosts, without a clock to rebuild the continuum by.
abbrev stopped : World
stopped = record world { clock = none }

abbrev unsorted : Settings
unsorted = record over_udp { routing = record routing { distribution = consistent } }

sorting_fails : (behavior_set build stopped unsorted sort_hosts 1).0 ≡ errno
unfolding behavior_set libmemcached.Distribution.Continuum.run_distribution
    libmemcached.Distribution.Continuum.update_continuum
sorting_fails = refl

sorting_stays : (behavior_set build stopped unsorted sort_hosts 1).1.routing.use_sort_hosts ≡ true
unfolding behavior_set libmemcached.Distribution.Continuum.run_distribution
    libmemcached.Distribution.Continuum.update_continuum
sorting_stays = refl
