-- ===== src/Hashkit/Function.antt =====
-- libhashkit/function.cc and hashkit.cc: which function a `hashkit_st` calls. A function pointer is
-- a value of `HashFunction`; one of the caller's own is known by a number.
pub mod Selection
pub mod Compare
use libmemcached.Prelude.{ℕ, ◌==◌, Bool, true, false, ◌&&◌, List, Option, none, some, if◌then◌else◌}
use libmemcached.Hashkit.Fnv.{one_at_a_time, fnv1_32, fnv1a_32, fnv1_64, fnv1a_64}
use libmemcached.Hashkit.Crc32.{crc32}
use libmemcached.Hashkit.Md5.{md5}
use libmemcached.Hashkit.Hsieh.{hsieh}
use libmemcached.Hashkit.Murmur.{murmur, murmur3}
use libmemcached.Hashkit.Jenkins.{jenkins}
use libmemcached.Hashkit.Digest.{
  Algorithm, Build, Key, has_algorithm, hash_default, hash_md5, hash_crc, hash_fnv1_64,
  hash_fnv1a_64, hash_fnv1_32, hash_fnv1a_32, hash_hsieh, hash_murmur, hash_jenkins, hash_murmur3,
  hash_custom, hash_max,
}

-- `hashkit_return_t`
pub data HashkitReturn : Type 0 where
  success failure memory_allocation_failure invalid_hash invalid_argument : HashkitReturn

pub data HashFunction : Type 0 where
  to_one_at_a_time to_md5 to_crc32 to_fnv1_64 to_fnv1a_64 to_fnv1_32 to_fnv1a_32 : HashFunction
  to_hsieh to_murmur to_murmur3 to_jenkins : HashFunction
  to_custom : ℕ → HashFunction

-- `hashkit_st::hashkit_function_st`; the context is a pointer, `none` for NULL.
pub record Slot : Type 0 where
  pub function : HashFunction
  pub context : Option ℕ

-- `hashkit_st`, less the AES key.
pub record Hashkit : Type 0 where
  pub base_hash : Slot
  pub distribution_hash : Slot
  pub is_base_same_distributed : Bool

-- `_hashkit_init`
pub hashkit_create : Hashkit
hashkit_create = record {
  base_hash = record { function = to_one_at_a_time; context = none };
  distribution_hash = record { function = to_one_at_a_time; context = none };
  is_base_same_distributed = true;
}

abbrev install : Slot → HashFunction → HashkitReturn × Slot
install self f = (success, record { function = f; context = none })

-- `_set_function`
pub set_slot : Build → Slot → Algorithm → HashkitReturn × Slot
set_slot build self hash_md5 = install self to_md5
set_slot build self hash_crc = install self to_crc32
set_slot build self hash_fnv1_64 =
    if has_algorithm build hash_fnv1_64 then install self to_fnv1_64 else (invalid_argument, self)
set_slot build self hash_fnv1a_64 =
    if has_algorithm build hash_fnv1_64 then install self to_fnv1a_64 else (invalid_argument, self)
set_slot build self hash_fnv1_32 = install self to_fnv1_32
set_slot build self hash_fnv1a_32 = install self to_fnv1a_32
set_slot build self hash_hsieh =
    if has_algorithm build hash_hsieh then install self to_hsieh else (invalid_argument, self)
set_slot build self hash_murmur3 =
    if has_algorithm build hash_murmur3 then install self to_murmur3 else (invalid_argument, self)
set_slot build self hash_murmur =
    if has_algorithm build hash_murmur then install self to_murmur else (invalid_argument, self)
set_slot build self hash_jenkins = install self to_jenkins
set_slot build self hash_custom = (invalid_argument, self)
set_slot build self hash_default = install self to_one_at_a_time
set_slot build self hash_max = (invalid_hash, record self { function = to_one_at_a_time })

-- `hashkit_set_function`
pub set_function : Build → Hashkit → Algorithm → HashkitReturn × Hashkit
set_function build self algorithm =
    let (rc, slot) = set_slot build self.base_hash algorithm in
    (rc, record self { base_hash = slot })

-- `hashkit_set_distribution_function`
pub set_distribution_function : Build → Hashkit → Algorithm → HashkitReturn × Hashkit
set_distribution_function build self algorithm =
    let (rc, slot) = set_slot build self.distribution_hash algorithm in
    (rc, record self { distribution_hash = slot })

-- `_set_custom_function`; `none` is a null pointer.
pub set_custom_slot : Slot → Option ℕ → Option ℕ → HashkitReturn × Slot
set_custom_slot self (some f) context =
    (success, record { function = to_custom f; context = context })
set_custom_slot self none context = (failure, self)

-- `hashkit_set_custom_function`
pub set_custom_function : Hashkit → Option ℕ → Option ℕ → HashkitReturn × Hashkit
set_custom_function self f context =
    let (rc, slot) = set_custom_slot self.base_hash f context in
    (rc, record self { base_hash = slot })

-- `get_function_type`
pub function_type : HashFunction → Algorithm
function_type to_one_at_a_time = hash_default
function_type to_md5 = hash_md5
function_type to_crc32 = hash_crc
function_type to_fnv1_64 = hash_fnv1_64
function_type to_fnv1a_64 = hash_fnv1a_64
function_type to_fnv1_32 = hash_fnv1_32
function_type to_fnv1a_32 = hash_fnv1a_32
function_type to_hsieh = hash_hsieh
function_type to_murmur = hash_murmur
function_type to_murmur3 = hash_murmur3
function_type to_jenkins = hash_jenkins
function_type (to_custom f) = hash_custom

-- `hashkit_get_function`
pub get_function : Hashkit → Algorithm
unfolding function_type
get_function self = function_type self.base_hash.function

-- `hashkit_get_distribution_function`
pub get_distribution_function : Hashkit → Algorithm
unfolding function_type
get_distribution_function self = function_type self.distribution_hash.function

-- `hashkit_set_custom_distribution_function`
pub set_custom_distribution_function : Hashkit → Option ℕ → Option ℕ → HashkitReturn × Hashkit
set_custom_distribution_function self f context =
    let (rc, slot) = set_custom_slot self.distribution_hash f context in
    (rc, record self { distribution_hash = slot })

-- Calling through a pointer. `custom` is what the caller's functions compute.
module _ (build : Build) (custom : ℕ → Option ℕ → Key → ℕ) where
  pub call : HashFunction → Option ℕ → Key → ℕ
  call to_one_at_a_time context key = one_at_a_time key.bytes
  call to_md5 context key = md5 key.bytes
  call to_crc32 context key = crc32 key.bytes
  call to_fnv1_64 context key = fnv1_64 build.fnv64 key.bytes
  call to_fnv1a_64 context key = fnv1a_64 build.fnv64 key.bytes
  call to_fnv1_32 context key = fnv1_32 key.bytes
  call to_fnv1a_32 context key = fnv1a_32 key.bytes
  call to_hsieh context key = hsieh build.hsieh_hash key.bytes
  call to_murmur context key = murmur build.murmur_hash key.bytes
  call to_murmur3 context key = murmur3 key.bytes
  call to_jenkins context key = jenkins key.address key.beyond key.bytes
  call (to_custom f) context key = custom f context key

  -- `hashkit_digest`
  pub hashkit_digest : Hashkit → Key → ℕ
  unfolding call
  hashkit_digest self key = call self.base_hash.function self.base_hash.context key
