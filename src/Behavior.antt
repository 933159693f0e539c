-- ===== src/Behavior.antt =====
-- libmemcached/behavior.cc: the settings of a client. Closing the connections (`send_quit`) and
-- seeding `random` change no setting, and are left out.
pub mod Setting
pub mod Kept
pub mod Modes
pub mod Reading
mod Tests
use libmemcached.Prelude.{
  List, [], ◌∷◌, get_or, ℕ, ◌+◌, ◌-◌, ◌%◌, Bool, true, false, not, ◌&&◌, Option, none, some, ltb,
  ◌==◌, if◌then◌else◌,
}
use libmemcached.Prelude.Words.{u32_mod, u64_mod}
use libmemcached.Return.{Return, success, invalid_arguments, deprecated}
use libmemcached.Hashkit.Digest.{
  Algorithm, Build, hash_default, hash_md5, hash_crc, hash_fnv1_64, hash_fnv1a_64, hash_fnv1_32,
  hash_fnv1a_32, hash_hsieh, hash_murmur, hash_jenkins, hash_murmur3, hash_custom, hash_max,
}
use libmemcached.Hashkit.Function.{HashkitReturn, Hashkit, set_function, set_distribution_function}
use libmemcached.Distribution.State.{
  Distribution, modula, consistent, consistent_ketama, random, consistent_ketama_spy,
  consistent_weighted, virtual_bucket, consistent_max, Memcached, World,
}
use libmemcached.Distribution.Continuum.{run_distribution}

-- `memcached_behavior_t`
pub data Behavior : Type 0 where
  no_block tcp_nodelay hash ketama socket_send_size socket_recv_size cache_lookups : Behavior
  support_cas poll_timeout distribution buffer_requests user_data sort_hosts verify_key : Behavior
  connect_timeout retry_timeout ketama_weighted ketama_hash binary_protocol snd_timeout : Behavior
  rcv_timeout server_failure_limit io_msg_watermark io_bytes_watermark io_key_prefetch : Behavior
  hash_with_prefix_key noreply use_udp auto_eject_hosts number_of_replicas : Behavior
  randomize_replica_read cork tcp_keepalive tcp_keepidle load_from_file : Behavior
  remove_failed_servers dead_timeout server_timeout_limit behavior_max : Behavior

-- `memcached_st::flags`, but for auto_eject_hosts, use_sort_hosts and hash_with_namespace, which are
-- part of `Memcached`.
pub record Flags : Type 0 where
  pub binary_protocol : Bool
  pub buffer_requests : Bool
  pub no_block : Bool
  pub reply : Bool
  pub randomize_replica_read : Bool
  pub support_cas : Bool
  pub tcp_nodelay : Bool
  pub use_udp : Bool
  pub verify_key : Bool
  pub tcp_keepalive : Bool

-- The numbers, each the 32 bits of a `uint32_t` or an `int32_t`.
pub record Limits : Type 0 where
  pub number_of_replicas : ℕ
  pub io_msg_watermark : ℕ
  pub io_bytes_watermark : ℕ
  pub io_key_prefetch : ℕ
  pub snd_timeout : ℕ
  pub rcv_timeout : ℕ
  pub server_failure_limit : ℕ
  pub server_timeout_limit : ℕ
  pub poll_timeout : ℕ
  pub connect_timeout : ℕ
  pub retry_timeout : ℕ
  pub dead_timeout : ℕ
  pub send_size : ℕ
  pub recv_size : ℕ
  pub tcp_keepidle : ℕ

pub record Settings : Type 0 where
  pub flags : Flags
  pub limits : Limits
  pub routing : Memcached
  pub hashkit : Hashkit

-- `bool(data)`, `(uint32_t) data` and `(int32_t) data`.
abbrev pub to_bool : ℕ → Bool
to_bool n = not (n == 0)

abbrev pub to_u32 : ℕ → ℕ
to_u32 n = n % u32_mod

-- The `uint64_t` of a `bool` and of an `int32_t`.
abbrev pub of_bool : Bool → ℕ
of_bool true = 1
of_bool false = 0

abbrev pub of_i32 : ℕ → ℕ
of_i32 n = if ltb n 2147483648 then n else u64_mod - u32_mod + n

-- The values of the two enumerations, of 32 bits; any other takes the default branch.
abbrev pub distributions : List Distribution
distributions =
    modula ∷ consistent ∷ consistent_ketama ∷ random ∷ consistent_ketama_spy ∷ consistent_weighted
    ∷ virtual_bucket ∷ []

abbrev pub to_distribution : ℕ → Distribution
to_distribution n = get_or distributions (to_u32 n) consistent_max

abbrev pub algorithms : List Algorithm
algorithms =
    hash_default ∷ hash_md5 ∷ hash_crc ∷ hash_fnv1_64 ∷ hash_fnv1a_64 ∷ hash_fnv1_32 ∷ hash_fnv1a_32
    ∷ hash_hsieh ∷ hash_murmur ∷ hash_jenkins ∷ hash_murmur3 ∷ hash_custom ∷ []

abbrev pub to_algorithm : ℕ → Algorithm
to_algorithm n = get_or algorithms (to_u32 n) hash_max

-- The weighting that `memcached_behavior_set_distribution` asks for: `none` to leave it.
abbrev pub weighting : Distribution → Option Bool
weighting consistent = some false
weighting consistent_ketama = some false
weighting consistent_weighted = some true
weighting other = none

abbrev pub weigh : Memcached → Option Bool → Memcached
weigh memc none = memc
weigh memc (some b) = record memc { ketama = record (memc.ketama) { weighted = b } }

-- `memcached_behavior_set_distribution`
unfoldable pub set_distribution : World → Memcached → Distribution → Return × Memcached
unfolding run_distribution
set_distribution w memc consistent_max = (invalid_arguments, memc)
set_distribution w memc type =
    run_distribution w (record (weigh memc (weighting type)) { distribution = type })

-- `memcached_behavior_set_key_hash` and `memcached_behavior_set_distribution_hash` report like this.
abbrev pub hash_result : HashkitReturn → Return
hash_result HashkitReturn.success = success
hash_result other = invalid_arguments
