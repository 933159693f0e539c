-- ===== src/Distribution/State.antt =====
-- The part of `memcached_st` that routes keys (include/libmemcached-1.0/struct/memcached.h), the
-- servers that it routes to (libmemcached/instance.hpp) and the points of continuum.hpp.
use libmemcached.Prelude.{ℕ, ◌%◌, List, Bool, Option, length}
use libmemcached.Prelude.Words.{u32_mod}

-- `memcached_server_distribution_t`
pub data Distribution : Type 0 where
  modula consistent consistent_ketama random consistent_ketama_spy : Distribution
  consistent_weighted virtual_bucket consistent_max : Distribution

-- `memcached_connection_t`
pub data Connection : Type 0 where
  tcp udp unix_socket : Connection

-- `memcached_instance_st`, the fields that hosts.cc and hash.cc read.
pub record Server : Type 0 where
  pub hostname : List ℕ
  pub port : ℕ
  pub weight : ℕ
  pub connection : Connection
  pub next_retry : ℕ

-- `memcached_continuum_item_st`
pub record Point : Type 0 where
  pub index : ℕ
  pub value : ℕ

-- `memcached_st::ketama`; `continuum_count` is the length that was allocated.
pub record Ketama : Type 0 where
  pub weighted : Bool
  pub continuum_count : ℕ
  pub points_counter : ℕ
  pub next_rebuild : ℕ
  pub continuum : List Point

-- `bucket_t` and `memcached_virtual_bucket_t`
pub record Bucket : Type 0 where
  pub master : ℕ
  pub forward : ℕ

pub record VirtualBuckets : Type 0 where
  pub size : ℕ
  pub replicas : ℕ
  pub buckets : List Bucket

pub record Memcached : Type 0 where
  pub auto_eject_hosts : Bool
  pub use_sort_hosts : Bool
  pub hash_with_namespace : Bool
  pub distribution : Distribution
  pub servers : List Server
  pub ketama : Ketama
  pub buckets : Option VirtualBuckets
  pub name_space : List ℕ

abbrev pub server_count : Memcached → ℕ
server_count memc = length memc.servers

-- `memcached_st::number_of_hosts`, a `uint32_t`.
abbrev pub number_of_hosts : Memcached → ℕ
number_of_hosts memc = server_count memc % u32_mod

-- What the code asks of its surroundings: the hash function of `ptr->hashkit`, the clock (`none`
-- when `gettimeofday` fails), whether `realloc` succeeds, and the C floating point expression
-- `floor((float) (pct * 160 / 4 * (float) live_servers + 0.0000000001F))` of a server's weight, the
-- total weight and the number of live servers.
pub record World : Type 0 where
  pub digest : List ℕ → ℕ
  pub clock : Option ℕ
  pub realloc : Bool
  pub quarter_points : ℕ → ℕ → ℕ → ℕ
