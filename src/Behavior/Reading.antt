-- ===== src/Behavior/Reading.antt =====
-- libmemcached/behavior.cc: `memcached_behavior_get`, and that it reads back what was set.
use libmemcached.Prelude.{
  ℕ, ◌≡◌, ◌∙◌, ◌-◌, ◌==◌, ap, inl, inr, Bool-cases, not, Option, none, some, if◌then◌else◌, arith,
}
use libmemcached.Prelude.Words.{u32_mod}
use libmemcached.Return.{success}
use libmemcached.Hashkit.Digest.{Build}
use libmemcached.Distribution.State.{World}
use libmemcached.Distribution.Continuum.{is_consistent}
use libmemcached.Behavior.{
  Behavior, Settings, to_bool, to_u32, of_bool, of_i32, no_block, tcp_nodelay, ketama,
  cache_lookups, support_cas, poll_timeout, buffer_requests, user_data, sort_hosts, verify_key,
  connect_timeout, retry_timeout, ketama_weighted, binary_protocol, snd_timeout, rcv_timeout,
  server_failure_limit, io_msg_watermark, io_bytes_watermark, io_key_prefetch, hash_with_prefix_key,
  noreply, use_udp, auto_eject_hosts, number_of_replicas, randomize_replica_read, tcp_keepalive,
  socket_send_size, socket_recv_size, tcp_keepidle, remove_failed_servers, dead_timeout,
  server_timeout_limit,
}
use libmemcached.Behavior.Kept.{
  run_distribution-Same, set_distribution-ketama, set_distribution-weighted,
}
use libmemcached.Behavior.Setting.{behavior_set}

-- The size of a socket's buffer; -1 asks the socket, which is `none`.
abbrev buffer_size : ℕ → Option ℕ
buffer_size n = if n == u32_mod - 1 then none else some (of_i32 n)

-- `memcached_behavior_get`, of the behaviors whose value is in the client: `none` for those that ask
-- a socket, a file or the build, and for the three enumerations.
unfoldable pub behavior_get : Settings → Behavior → Option ℕ
behavior_get s number_of_replicas = some s.limits.number_of_replicas
behavior_get s io_msg_watermark = some s.limits.io_msg_watermark
behavior_get s io_bytes_watermark = some s.limits.io_bytes_watermark
behavior_get s io_key_prefetch = some s.limits.io_key_prefetch
behavior_get s binary_protocol = some (of_bool s.flags.binary_protocol)
behavior_get s support_cas = some (of_bool s.flags.support_cas)
behavior_get s cache_lookups = some 1
behavior_get s no_block = some (of_bool s.flags.no_block)
behavior_get s buffer_requests = some (of_bool s.flags.buffer_requests)
behavior_get s use_udp = some (of_bool s.flags.use_udp)
behavior_get s tcp_nodelay = some (of_bool s.flags.tcp_nodelay)
behavior_get s verify_key = some (of_bool s.flags.verify_key)
behavior_get s ketama_weighted =
    some (if is_consistent s.routing.distribution then of_bool s.routing.ketama.weighted else 0)
behavior_get s ketama = some (of_bool (is_consistent s.routing.distribution))
behavior_get s remove_failed_servers = some (of_bool s.routing.auto_eject_hosts)
behavior_get s server_failure_limit = some s.limits.server_failure_limit
behavior_get s server_timeout_limit = some s.limits.server_timeout_limit
behavior_get s sort_hosts = some (of_bool s.routing.use_sort_hosts)
behavior_get s poll_timeout = some (of_i32 s.limits.poll_timeout)
behavior_get s connect_timeout = some (of_i32 s.limits.connect_timeout)
behavior_get s retry_timeout = some (of_i32 s.limits.retry_timeout)
behavior_get s dead_timeout = some (of_i32 s.limits.dead_timeout)
behavior_get s snd_timeout = some (of_i32 s.limits.snd_timeout)
behavior_get s rcv_timeout = some (of_i32 s.limits.rcv_timeout)
behavior_get s socket_send_size = buffer_size s.limits.send_size
behavior_get s socket_recv_size = buffer_size s.limits.recv_size
behavior_get s tcp_keepidle = some s.limits.tcp_keepidle
behavior_get s user_data = some 0
behavior_get s hash_with_prefix_key = some (of_bool s.routing.hash_with_namespace)
behavior_get s noreply = some (of_bool (not s.flags.reply))
behavior_get s auto_eject_hosts = some (of_bool s.routing.auto_eject_hosts)
behavior_get s randomize_replica_read = some (of_bool s.flags.randomize_replica_read)
behavior_get s tcp_keepalive = some (of_bool s.flags.tcp_keepalive)
behavior_get s other = none

-- How a behavior keeps its value: as a switch, as 32 bits without or with a sign, as the size of a
-- socket's buffer, or otherwise, which is an enumeration or nothing.
pub data Kind : Type 0 where
  switch unsigned signed sized otherwise : Kind

abbrev pub kind : Behavior → Kind
kind binary_protocol = switch
kind support_cas = switch
kind no_block = switch
kind buffer_requests = switch
kind use_udp = switch
kind tcp_nodelay = switch
kind verify_key = switch
kind remove_failed_servers = switch
kind hash_with_prefix_key = switch
kind noreply = switch
kind auto_eject_hosts = switch
kind randomize_replica_read = switch
kind tcp_keepalive = switch
kind sort_hosts = switch
kind ketama = switch
kind ketama_weighted = switch
kind socket_send_size = sized
kind socket_recv_size = sized
kind number_of_replicas = unsigned
kind io_msg_watermark = unsigned
kind io_bytes_watermark = unsigned
kind io_key_prefetch = unsigned
kind server_failure_limit = unsigned
kind server_timeout_limit = unsigned
kind tcp_keepidle = unsigned
kind poll_timeout = signed
kind connect_timeout = signed
kind retry_timeout = signed
kind dead_timeout = signed
kind snd_timeout = signed
kind rcv_timeout = signed
kind other = otherwise

-- The value that data has by then.
abbrev pub kept : Kind → ℕ → Option ℕ
kept switch n = some (of_bool (to_bool n))
kept unsigned n = some (to_u32 n)
kept signed n = some (of_i32 (to_u32 n))
kept sized n = buffer_size (to_u32 n)
kept otherwise n = none

module _ (build : Build) (w : World) where
  -- The weights, turned on or off.
  weighted_read :
      (s : Settings) (n : ℕ)
      → behavior_get (behavior_set build w s ketama_weighted n).1 ketama_weighted
        ≡ some (of_bool (to_bool n))
  unfolding behavior_set behavior_get
  weighted_read s n = elim (Bool-cases (to_bool n)) [
    | inl e ↦ rw e (ap some (set_distribution-weighted w s.routing).0)
    | inr e ↦ rw e (ap some (set_distribution-weighted w s.routing).1)
  ]

  -- A switch or a number that was set with success is read back: a switch as 0 or 1, a number as its
  -- low 32 bits, with the sign of an `int32_t` spread over the upper half. Among these are the sorting
  -- of hosts, ketama, with weights or without, and the sizes of a socket's buffers, if they are not -1,
  -- for which the socket is asked. The enumerations (distribution and the two hashes) are not.
  pub behavior_get-set :
      (s : Settings) (b : Behavior) (n v : ℕ)
      → kept (kind b) n ≡ some v
      → (behavior_set build w s b n).0 ≡ success
      → behavior_get (behavior_set build w s b n).1 b ≡ some v
  unfolding behavior_set behavior_get
  behavior_get-set s no_block n v k e = ground (arith, k, e)
  behavior_get-set s sort_hosts n v k e =
      ap (λ b. some (of_bool b))
        (run_distribution-Same w (record (s.routing) { use_sort_hosts = to_bool n })).sorting
      ∙ k
  behavior_get-set s ketama n v k e =
      ap (λ b. some (of_bool b)) (set_distribution-ketama w s.routing (to_bool n)) ∙ k
  behavior_get-set s ketama_weighted n v k e = weighted_read s n ∙ k
  behavior_get-set s socket_send_size n v k e = k
  behavior_get-set s socket_recv_size n v k e = k
  behavior_get-set s other n v k e = ground (arith, k, e)
