-- ===== src/Hashkit/Function/Selection.antt =====
-- libhashkit/function.cc: what choosing an algorithm promises.
use libmemcached.Prelude.{ℕ, ◌≡◌, ◌≢◌, ◌↔◌, ◌⊎◌, true, Option, none, arith}
use libmemcached.Hashkit.Digest.{
  Algorithm, Build, Key, has_algorithm, digest, hash_default, hash_md5, hash_custom, hash_max,
}
use libmemcached.Hashkit.Function.{
  success, invalid_hash, Hashkit, set_slot, set_function, get_function, call, hashkit_digest,
}

-- `hashkit_set_function` succeeds exactly for the algorithms that the build has, the caller's own
-- excepted.
pub set_function-success_iff :
    (build : Build) (self : Hashkit) (algorithm : Algorithm)
    → ((set_function build self algorithm).0 ≡ success)
      ↔ ((has_algorithm build algorithm ≡ true) × (algorithm ≢ hash_custom))
unfolding set_function set_slot has_algorithm
set_function-success_iff build self hash_md5 = ground arith
set_function-success_iff build self other = ground arith

-- After a successful `hashkit_set_function`, `hashkit_get_function` names the algorithm that was
-- asked for, `hashkit_digest` computes what `libhashkit_digest` computes for it, the context is
-- cleared and the distribution hash is as it was.
pub set_function-selects :
    (build : Build) (custom : ℕ → Option ℕ → Key → ℕ) (self : Hashkit) (algorithm : Algorithm)
    (key : Key)
    → (set_function build self algorithm).0 ≡ success
    → let self' = (set_function build self algorithm).1 in
      (get_function self' ≡ algorithm)
      × (hashkit_digest build custom self' key ≡ digest build algorithm key)
      × (self'.base_hash.context ≡ none)
      × (self'.distribution_hash ≡ self.distribution_hash)
unfolding set_function set_slot has_algorithm get_function hashkit_digest call digest
set_function-selects build custom self hash_md5 key h = ground arith
set_function-selects build custom self other key h = ground arith

-- A `hashkit_set_function` that does not succeed changes nothing, or it was asked for
-- HASHKIT_HASH_MAX, reports an invalid hash and has installed the default function.
pub set_function-refused :
    (build : Build) (self : Hashkit) (algorithm : Algorithm)
    → (set_function build self algorithm).0 ≢ success
    → ((set_function build self algorithm).1 ≡ self)
      ⊎ ((algorithm ≡ hash_max)
          × ((set_function build self algorithm).0 ≡ invalid_hash)
          × (get_function (set_function build self algorithm).1 ≡ hash_default))
unfolding set_function set_slot has_algorithm get_function
set_function-refused build self hash_md5 h = ground arith
set_function-refused build self other h = ground arith
