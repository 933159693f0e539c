-- ===== src/Behavior/Setting.antt =====
-- libmemcached/behavior.cc: `memcached_behavior_set` and `memcached_behavior_get`.
use libmemcached.Distribution.Buckets.{virtual_bucket_create}
use libmemcached.Prelude.{List, Option, none, some, ℕ, Bool, false, not, ◌&&◌, ◌==◌, if◌then◌else◌}
use libmemcached.Return.{is_failed, Return, success, invalid_arguments, deprecated}
use libmemcached.Hashkit.Digest.{Build, Algorithm, hash_md5}
use libmemcached.Hashkit.Function.{set_function, set_distribution_function}
use libmemcached.Distribution.State.{
  virtual_bucket, consistent_ketama, modula, consistent_weighted, Memcached, World,
}
use libmemcached.Distribution.Continuum.{run_distribution}
use libmemcached.Behavior.{
  Behavior, Flags, Limits, Settings, to_bool, to_u32, to_distribution, to_algorithm,
  set_distribution, hash_result, no_block, tcp_nodelay, hash, ketama, socket_send_size,
  socket_recv_size, cache_lookups, support_cas, poll_timeout, distribution, buffer_requests,
  user_data, sort_hosts, verify_key, connect_timeout, retry_timeout, ketama_weighted, ketama_hash,
  binary_protocol, snd_timeout, rcv_timeout, server_failure_limit, io_msg_watermark,
  io_bytes_watermark, io_key_prefetch, hash_with_prefix_key, noreply, use_udp, auto_eject_hosts,
  number_of_replicas, randomize_replica_read, cork, tcp_keepalive, tcp_keepidle, load_from_file,
  remove_failed_servers, dead_timeout, server_timeout_limit, behavior_max,
}

module _ (build : Build) (w : World) where
  -- A change of the flags, of the numbers, or of what the routing reads.
  abbrev pub with_flags : Settings → Flags → Return × Settings
  with_flags s f = (success, record s { flags = f })

  abbrev pub with_limits : Settings → Limits → Return × Settings
  with_limits s l = (success, record s { limits = l })

  abbrev pub with_routing : Settings → Return × Memcached → Return × Settings
  with_routing s (rc, m) = (rc, record s { routing = m })

  -- `memcached_behavior_set_key_hash`
  abbrev pub set_key_hash : Settings → Algorithm → Return × Settings
  set_key_hash s type =
      let r = set_function build s.hashkit type in (hash_result r.0, record s { hashkit = r.1 })

  -- `memcached_behavior_set_distribution_hash`
  abbrev pub set_distribution_hash : Settings → Algorithm → Return × Settings
  set_distribution_hash s type =
      let r = set_distribution_function build s.hashkit type in
      (hash_result r.0, record s { hashkit = r.1 })

  -- `memcached_behavior_set`
  unfoldable pub behavior_set : Settings → Behavior → ℕ → Return × Settings
  unfolding set_distribution run_distribution
  behavior_set s number_of_replicas n =
      with_limits s (record (s.limits) { number_of_replicas = to_u32 n })
  behavior_set s io_msg_watermark n =
      with_limits s (record (s.limits) { io_msg_watermark = to_u32 n })
  behavior_set s io_bytes_watermark n =
      with_limits s (record (s.limits) { io_bytes_watermark = to_u32 n })
  behavior_set s io_key_prefetch n =
      with_limits s (record (s.limits) { io_key_prefetch = to_u32 n })
  behavior_set s snd_timeout n = with_limits s (record (s.limits) { snd_timeout = to_u32 n })
  behavior_set s rcv_timeout n = with_limits s (record (s.limits) { rcv_timeout = to_u32 n })
  behavior_set s remove_failed_servers n =
      (success, record s { routing = record (s.routing) { auto_eject_hosts = to_bool n } })
  behavior_set s server_failure_limit n =
      if n == 0
      then (invalid_arguments, s)
      else with_limits s (record (s.limits) { server_failure_limit = to_u32 n })
  behavior_set s server_timeout_limit n =
      with_limits s (record (s.limits) { server_timeout_limit = to_u32 n })
  behavior_set s binary_protocol n = with_flags s (record (s.flags) {
    verify_key = if to_bool n then false else s.flags.verify_key;
    binary_protocol = to_bool n;
  })
  behavior_set s support_cas n = with_flags s (record (s.flags) { support_cas = to_bool n })
  behavior_set s no_block n = with_flags s (record (s.flags) { no_block = to_bool n })
  behavior_set s buffer_requests n =
      if s.flags.use_udp
      then (invalid_arguments, s)
      else with_flags s (record (s.flags) { buffer_requests = to_bool n })
  behavior_set s use_udp n = with_flags s (record (s.flags) {
    use_udp = to_bool n;
    reply = not (to_bool n);
    buffer_requests = if to_bool n then false else s.flags.buffer_requests;
  })
  behavior_set s tcp_nodelay n = with_flags s (record (s.flags) { tcp_nodelay = to_bool n })
  behavior_set s tcp_keepalive n = with_flags s (record (s.flags) { tcp_keepalive = to_bool n })
  behavior_set s distribution n = with_routing s (set_distribution w s.routing (to_distribution n))
  behavior_set s ketama n =
      with_routing s
        (set_distribution w s.routing (if to_bool n then consistent_ketama else modula))
  behavior_set s ketama_weighted n =
      if to_bool n
      then with_routing (set_distribution_hash (set_key_hash s hash_md5).1 hash_md5).1
          (set_distribution w s.routing consistent_weighted)
      else with_routing s (set_distribution w s.routing consistent_ketama)
  behavior_set s hash n = set_key_hash s (to_algorithm n)
  behavior_set s ketama_hash n = set_distribution_hash s (to_algorithm n)
  behavior_set s cache_lookups n = (deprecated, s)
  behavior_set s verify_key n =
      if s.flags.binary_protocol
      then (invalid_arguments, s)
      else with_flags s (record (s.flags) { verify_key = to_bool n })
  behavior_set s sort_hosts n =
      with_routing s (run_distribution w (record (s.routing) { use_sort_hosts = to_bool n }))
  behavior_set s poll_timeout n = with_limits s (record (s.limits) { poll_timeout = to_u32 n })
  behavior_set s connect_timeout n =
      with_limits s (record (s.limits) { connect_timeout = to_u32 n })
  behavior_set s retry_timeout n = with_limits s (record (s.limits) { retry_timeout = to_u32 n })
  behavior_set s dead_timeout n = with_limits s (record (s.limits) { dead_timeout = to_u32 n })
  behavior_set s socket_send_size n = with_limits s (record (s.limits) { send_size = to_u32 n })
  behavior_set s socket_recv_size n = with_limits s (record (s.limits) { recv_size = to_u32 n })
  behavior_set s tcp_keepidle n = with_limits s (record (s.limits) { tcp_keepidle = to_u32 n })
  behavior_set s user_data n = (deprecated, s)
  behavior_set s hash_with_prefix_key n =
      (success, record s { routing = record (s.routing) { hash_with_namespace = to_bool n } })
  behavior_set s noreply n =
      if s.flags.use_udp && not (to_bool n)
      then (invalid_arguments, s)
      else with_flags s (record (s.flags) { reply = not (to_bool n) })
  behavior_set s auto_eject_hosts n =
      (success, record s { routing = record (s.routing) { auto_eject_hosts = to_bool n } })
  behavior_set s randomize_replica_read n =
      with_flags s (record (s.flags) { randomize_replica_read = to_bool n })
  behavior_set s cork n = (deprecated, s)
  behavior_set s load_from_file n = (invalid_arguments, s)
  behavior_set s behavior_max n = (invalid_arguments, s)

-- `memcached_bucket_set`: a table that cannot be made puts the old distribution back.
unfoldable pub bucket_set :
    World → Bool → Memcached → Option (List ℕ) → Option (List ℕ) → ℕ → ℕ → Return × Memcached
unfolding set_distribution virtual_bucket_create
bucket_set w memory memc none forward_map buckets replicas = (invalid_arguments, memc)
bucket_set w memory memc (some host_map) forward_map buckets replicas =
    let set = set_distribution w memc virtual_bucket in
    let made = virtual_bucket_create memory set.1 (some host_map) forward_map buckets replicas in
    if is_failed set.0
    then set
    else if is_failed made.0
    then (made.0, (set_distribution w made.1 memc.distribution).1)
    else made
