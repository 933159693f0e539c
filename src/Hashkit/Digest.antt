-- ===== src/Hashkit/Digest.antt =====
-- libhashkit/digest.cc and has.cc: the algorithm by its name. How the library was built is a
-- parameter.
use libmemcached.Prelude.{ℕ, List, Bool, true, false, if◌then◌else◌}
use libmemcached.Hashkit.Fnv.{one_at_a_time, fnv1_32, fnv1a_32, fnv1_64, fnv1a_64}
use libmemcached.Hashkit.Crc32.{crc32}
use libmemcached.Hashkit.Md5.{md5}
use libmemcached.Hashkit.Hsieh.{hsieh}
use libmemcached.Hashkit.Murmur.{murmur, murmur3}
use libmemcached.Hashkit.Jenkins.{jenkins}

-- `hashkit_hash_algorithm_t`
pub data Algorithm : Type 0 where
  hash_default hash_md5 hash_crc hash_fnv1_64 hash_fnv1a_64 hash_fnv1_32 hash_fnv1a_32 : Algorithm
  hash_hsieh hash_murmur hash_jenkins hash_murmur3 hash_custom hash_max : Algorithm

-- `__WORDSIZE == 64 && defined(HAVE_FNV64_HASH)`, HAVE_HSIEH_HASH and HAVE_MURMUR_HASH.
pub record Build : Type 0 where
  pub fnv64 : Bool
  pub hsieh_hash : Bool
  pub murmur_hash : Bool

-- A key in memory: its address, its bytes, and the bytes that lie behind it.
pub record Key : Type 0 where
  pub address : ℕ
  pub bytes : List ℕ
  pub beyond : List ℕ

-- `libhashkit_has_algorithm`
unfoldable pub has_algorithm : Build → Algorithm → Bool
has_algorithm build hash_fnv1_64 = build.fnv64
has_algorithm build hash_fnv1a_64 = build.fnv64
has_algorithm build hash_hsieh = build.hsieh_hash
has_algorithm build hash_murmur3 = build.murmur_hash
has_algorithm build hash_murmur = build.murmur_hash
has_algorithm build hash_max = false
has_algorithm build other = true

-- `libhashkit_digest`
unfoldable pub digest : Build → Algorithm → Key → ℕ
digest build hash_default key = one_at_a_time key.bytes
digest build hash_md5 key = md5 key.bytes
digest build hash_crc key = crc32 key.bytes
digest build hash_fnv1_64 key = fnv1_64 build.fnv64 key.bytes
digest build hash_fnv1a_64 key = fnv1a_64 build.fnv64 key.bytes
digest build hash_fnv1_32 key = fnv1_32 key.bytes
digest build hash_fnv1a_32 key = fnv1a_32 key.bytes
digest build hash_hsieh key = if build.hsieh_hash then hsieh true key.bytes else 1
digest build hash_murmur3 key = murmur3 key.bytes
digest build hash_murmur key = if build.murmur_hash then murmur true key.bytes else 1
digest build hash_jenkins key = jenkins key.address key.beyond key.bytes
digest build hash_custom key = 1
digest build hash_max key = 1
