-- ===== src/Distribution/Servers.antt =====
-- libmemcached/hosts.cc and instance.cc: servers join the list.
use libmemcached.Prelude.{
  ℕ, suc, List, [], ◌∷◌, ◌++◌, Bool, true, false, ◌&&◌, Option, none, some, length, replicate, ltb,
  ◌==◌, if◌then◌else◌,
}
use libmemcached.Return.{Return, memory_allocation_failure, invalid_arguments}
use libmemcached.Distribution.State.{Connection, tcp, unix_socket, Server, Memcached, World}
use libmemcached.Distribution.HostKey.{default_port}
use libmemcached.Distribution.Continuum.{is_consistent, run_distribution}

abbrev pub localhost : List ℕ
localhost = b'l' ∷ b'o' ∷ b'c' ∷ b'a' ∷ b'l' ∷ b'h' ∷ b'o' ∷ b's' ∷ b't' ∷ []

abbrev pub or_localhost : List ℕ → List ℕ
or_localhost [] = localhost
or_localhost (c ∷ cs) = c ∷ cs

-- `memcached_is_valid_servername`
abbrev pub is_valid_servername : List ℕ → Bool
is_valid_servername hostname = ltb (length hostname) 1025

-- `_server_init`, the fields of the model.
abbrev pub server_init : List ℕ → ℕ → ℕ → Connection → Server
server_init hostname port weight type = record {
  hostname = or_localhost hostname;
  port = port;
  weight = if weight == 0 then 1 else weight;
  connection = type;
  next_retry = 0;
}

-- `instance_create_with`, at a place that is given.
abbrev pub instance_create_with : List ℕ → ℕ → ℕ → Connection → Option Server
instance_create_with hostname port weight type =
    if is_valid_servername hostname then some (server_init hostname port weight type) else none

-- `server_add`. `memory` tells whether the list can be enlarged; `junk` is what the new place holds
-- until it is initialised.
unfoldable pub server_add :
    World → Bool → Server → Memcached → List ℕ → ℕ → ℕ → Connection → Return × Memcached
unfolding run_distribution
server_add w memory junk memc hostname port weight type =
    if memory
    then elim (instance_create_with hostname port weight type) [
      | none ↦ (memory_allocation_failure, record memc { servers = memc.servers ++ junk ∷ [] })
      | some s ↦ run_distribution w (record memc {
        servers = memc.servers ++ s ∷ [];
        ketama = record (memc.ketama) {
          weighted =
              if ltb 1 weight && is_consistent memc.distribution
              then true
              else memc.ketama.weighted;
        };
      })
    ]
    else (memory_allocation_failure, memc)

abbrev pub socket_or_tcp : List ℕ → Connection
socket_or_tcp [] = tcp
socket_or_tcp (c ∷ cs) = if c == b'/' then unix_socket else tcp

-- `memcached_server_add_with_weight`; an empty host name stands for NULL, too.
unfoldable pub server_add_with_weight :
    World → Bool → Server → Memcached → List ℕ → ℕ → ℕ → Return × Memcached
unfolding server_add
server_add_with_weight w memory junk memc hostname port weight =
    if is_valid_servername (or_localhost hostname)
    then server_add w memory junk memc (or_localhost hostname)
        (if port == 0 then default_port else port) weight (socket_or_tcp (or_localhost hostname))
    else (invalid_arguments, memc)

-- `memcached_server_add_unix_socket_with_weight`
unfoldable pub server_add_unix_socket_with_weight :
    World → Bool → Server → Memcached → List ℕ → ℕ → Return × Memcached
unfolding server_add
server_add_unix_socket_with_weight w memory junk memc filename weight =
    if ltb 0 (length filename) && is_valid_servername filename
    then server_add w memory junk memc filename 0 weight unix_socket
    else (invalid_arguments, memc)

-- The loop of `memcached_server_push`: the list that it comes to, whether a weight above 1 was met,
-- and false if an instance could not be made. The places behind that one are not initialised.
unfoldable pub push_loop : Server → List Server → List Server × Bool × Bool
push_loop junk [] = ([], false, true)
push_loop junk (s ∷ ss) =
    let (list, heavy, made) = push_loop junk ss in
    elim (instance_create_with s.hostname s.port s.weight s.connection) [
      | none ↦ (replicate (suc (length ss)) junk, false, false)
      | some s' ↦ (s' ∷ list, (if ltb 1 s.weight then true else heavy), made)
    ]

-- `memcached_server_push` and `memcached_instance_push`, of a list that is not NULL.
unfoldable pub server_push : World → Bool → Server → Memcached → List Server → Return × Memcached
unfolding push_loop run_distribution
server_push w memory junk memc list =
    let pushed = push_loop junk list in
    let memc' = record memc {
      servers = memc.servers ++ pushed.0;
      ketama = record (memc.ketama) { weighted = if pushed.1 then true else memc.ketama.weighted };
    } in
    if memory
    then (if pushed.2 then run_distribution w memc' else (memory_allocation_failure, memc'))
    else (memory_allocation_failure, memc)
