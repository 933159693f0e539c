-- ===== src/Hashkit/Tests.antt =====
-- The hash functions at the repository's own test vectors (test/fixtures/hashes.hpp).
use Prim.Native.Char.{code}
use Prim.Native.String.{String}
use libmemcached.Hashkit.Function.{Hashkit, Slot, to_jenkins, to_custom}
use libmemcached.Hashkit.Function.Compare.{hashkit_compare, hashkit_clone}
use libmemcached.Prelude.{some, false}
use libmemcached.Prelude.{
  ℕ, arith, ◌%◌, ◌^◌, ◌≢◌, ◌⊎◌, ◌↔◌, none, ◌≡◌, refl, List, [], ◌∷◌, true, map,
}
use libmemcached.Hashkit.Digest.{
  hash_custom, hash_max, has_algorithm, Algorithm, Build, Key, digest, hash_default, hash_md5,
  hash_crc, hash_fnv1_64, hash_fnv1a_64, hash_fnv1_32, hash_fnv1a_32, hash_hsieh, hash_murmur,
  hash_jenkins, hash_murmur3,
}
use libmemcached.Hashkit.Fnv.{one_at_a_time, fnv1_32, fnv1a_32, fnv1_64, fnv1a_64, fnv_64_init}
use libmemcached.Hashkit.Crc32.{crc32}
use libmemcached.Hashkit.Md5.{md5}
use libmemcached.Hashkit.Hsieh.{hsieh}
use libmemcached.Hashkit.Murmur.{murmur, murmur3}
use libmemcached.Hashkit.Jenkins.{jenkins}
use libmemcached.Hashkit.Jenkins.Alignment.{jenkins-address}
use libmemcached.Hashkit.Truncation.{fnv1a_reference, fnv1a_64-reference}
use libmemcached.Hashkit.Function.{
  success, invalid_hash, hashkit_create, set_function, get_function, hashkit_digest,
}
use libmemcached.Hashkit.Function.Selection.{
  set_function-success_iff, set_function-selects, set_function-refused,
}

abbrev pub codes : String → List ℕ
codes String.[] = []
codes (String.◌∷◌ c s) = code c ∷ codes s

abbrev pub full_build : Build
full_build = record { fnv64 = true; hsieh_hash = true; murmur_hash = true }

abbrev pub key_of : String → Key
key_of s = record { address = 1; bytes = codes s; beyond = [] }

abbrev inputs : List Key
inputs =
    key_of "apple" ∷ key_of "mushrooms" ∷ key_of "The quick brown fox jumps over the lazy dog" ∷ []

abbrev digests : Algorithm → List ℕ
digests algorithm = map (digest full_build algorithm) inputs

default_vectors : digests hash_default ≡ 2297466611 ∷ 384136800 ∷ 1369346549 ∷ []
unfolding digest one_at_a_time
default_vectors = refl

md5_vectors : digests hash_md5 ≡ 3195025439 ∷ 1451250070 ∷ 2642219166 ∷ []
unfolding digest md5
md5_vectors = refl

crc_vectors : digests hash_crc ≡ 10542 ∷ 11313 ∷ 16719 ∷ []
unfolding digest crc32
crc_vectors = refl

fnv1_64_vectors : digests hash_fnv1_64 ≡ 473199127 ∷ 2345265314 ∷ 2112060110 ∷ []
unfolding digest fnv1_64
fnv1_64_vectors = refl

fnv1a_64_vectors : digests hash_fnv1a_64 ≡ 1488911807 ∷ 561034892 ∷ 3890508048 ∷ []
unfolding digest fnv1a_64
fnv1a_64_vectors = refl

fnv1_32_vectors : digests hash_fnv1_32 ≡ 67176023 ∷ 510234242 ∷ 3922226286 ∷ []
unfolding digest fnv1_32
fnv1_32_vectors = refl

fnv1a_32_vectors : digests hash_fnv1a_32 ≡ 280767167 ∷ 3654473228 ∷ 76545936 ∷ []
unfolding digest fnv1a_32
fnv1a_32_vectors = refl

hsieh_vectors : digests hash_hsieh ≡ 3738850110 ∷ 2265380744 ∷ 471461527 ∷ []
unfolding digest hsieh
hsieh_vectors = refl

murmur_vectors : digests hash_murmur ≡ 4142305122 ∷ 2321988328 ∷ 818385189 ∷ []
unfolding digest murmur
murmur_vectors = refl

jenkins_vectors : digests hash_jenkins ≡ 1442444624 ∷ 2415988847 ∷ 314054204 ∷ []
unfolding digest jenkins
jenkins_vectors = refl

murmur3_vectors : digests hash_murmur3 ≡ 1120212521 ∷ 732888124 ∷ 2603515018 ∷ []
unfolding digest murmur3
murmur3_vectors = refl

jenkins-address_example : jenkins 4 (7 ∷ []) (codes "ab") ≡ jenkins 2 [] (codes "ab")
jenkins-address_example =
    jenkins-address 4 2 (7 ∷ []) [] (codes "ab") (omega arith, (omega arith, tt))

fnv1a_64-reference_example :
    fnv1a_64 true (codes "ab") ≡ fnv1a_reference fnv_64_init (codes "ab") % 2 ^ 32
fnv1a_64-reference_example = fnv1a_64-reference (codes "ab") (omega arith, (omega arith, tt))

chosen : (set_function full_build hashkit_create hash_jenkins).0 ≡ success
unfolding has_algorithm
chosen =
    (set_function-success_iff full_build hashkit_create hash_jenkins).1
      (refl, λ e. ground (arith, e))

set_function-selects_example :
    let self' = (set_function full_build hashkit_create hash_jenkins).1 in
    (get_function self' ≡ hash_jenkins)
    × (hashkit_digest full_build (λ f c k. 0) self' (key_of "ab")
        ≡ digest full_build hash_jenkins (key_of "ab"))
    × (self'.base_hash.context ≡ none)
    × (self'.distribution_hash ≡ hashkit_create.distribution_hash)
set_function-selects_example =
    set_function-selects full_build (λ f c k. 0) hashkit_create hash_jenkins (key_of "ab") chosen

refused : (set_function full_build hashkit_create hash_max).0 ≢ success
unfolding has_algorithm
refused e = ground (arith, ((set_function-success_iff full_build hashkit_create hash_max).0 e).0)

set_function-refused_example :
    ((set_function full_build hashkit_create hash_max).1 ≡ hashkit_create)
    ⊎ ((hash_max ≡ hash_max)
        × ((set_function full_build hashkit_create hash_max).0 ≡ invalid_hash)
        × (get_function (set_function full_build hashkit_create hash_max).1 ≡ hash_default))
set_function-refused_example = set_function-refused full_build hashkit_create hash_max refused

set_function-success_iff_example :
    ((set_function full_build hashkit_create hash_md5).0 ≡ success)
    ↔ ((has_algorithm full_build hash_md5 ≡ true) × (hash_md5 ≢ hash_custom))
set_function-success_iff_example = set_function-success_iff full_build hashkit_create hash_md5

abbrev other_slot : Slot
other_slot = record { function = to_custom 4; context = some 9 }

abbrev kit : Hashkit
kit = record {
  base_hash = record { function = to_jenkins; context = none };
  distribution_hash = record { function = to_custom 3; context = some 8 };
  is_base_same_distributed = false;
}

-- A clone compares equal, and a kit with another function does not.
clones_compare : hashkit_compare (some kit) (some (hashkit_clone (some kit))) ≡ true
unfolding hashkit_compare hashkit_clone
clones_compare = refl

others_differ : hashkit_compare (some kit) (some (record kit { base_hash = other_slot })) ≡ false
unfolding hashkit_compare
others_differ = refl
