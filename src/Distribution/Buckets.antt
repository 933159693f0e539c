-- ===== src/Distribution/Buckets.antt =====
-- libmemcached/virtual_bucket.cc: a table of virtual buckets is made, freed and read.
use Prim.Native.Nat.{bit_and}
use mathlib.Core.Option
use native.Mathlib.Nat.{mod-lt, one-le-pow, pow-suc}
use libmemcached.Prelude.{
  ◌/◌, ℕ, zero, suc, ◌+◌, ◌-◌, ◌%◌, ◌^◌, ◌≤◌, ◌<◌, ◌≡◌, ◌⊎◌, inl, inr, ap, ◌∙◌, List, [], ◌∷◌, Bool,
  true, false, Option, none, some, get_elem?, get_or, ◌==◌, if◌then◌else◌, arith,
}
use libmemcached.Prelude.Words.{u32_mod}
use libmemcached.Prelude.Bits.{bit_and-mask, bit_and_step, bit_and-zero_below}
use libmemcached.Return.{Return, success, memory_allocation_failure, invalid_arguments}
use libmemcached.Distribution.State.{Bucket, Memcached, server_count, number_of_hosts}
use libmemcached.Distribution.Dispatch.{virtual_bucket_get}

-- `memcached_virtual_bucket_free`
abbrev pub virtual_bucket_free : Memcached → Memcached
virtual_bucket_free memc = record memc { buckets = none }

-- The loop that fills the table, from index `x`; a map that is too short is read out of bounds, here
-- as zeros.
unfoldable pub fill_buckets : List ℕ → Option (List ℕ) → ℕ → ℕ → List Bucket
fill_buckets host_map forward_map x zero = []
fill_buckets host_map forward_map x (suc n) =
    record {
      master = get_or host_map x 0;
      forward = elim forward_map [ none ↦ 0 | some forwards ↦ get_or forwards x 0 ];
    }
    ∷ fill_buckets host_map forward_map (suc x) n

-- `memcached_virtual_bucket_create`; `none` is a map that is NULL.
unfoldable pub virtual_bucket_create :
    Bool → Memcached → Option (List ℕ) → Option (List ℕ) → ℕ → ℕ → Return × Memcached
unfolding fill_buckets
virtual_bucket_create memory memc none forward_map buckets replicas = (invalid_arguments, memc)
virtual_bucket_create memory memc (some host_map) forward_map buckets replicas =
    if buckets == 0
    then (invalid_arguments, memc)
    else if memory
    then (
      success,
      record memc {
        buckets = some (record {
          size = buckets;
          replicas = replicas;
          buckets = fill_buckets host_map forward_map 0 buckets;
        });
      },
    )
    else (memory_allocation_failure, virtual_bucket_free memc)

fill_buckets-get :
    (host_map : List ℕ) (forward_map : Option (List ℕ)) (x n i : ℕ)
    → i < n
    → Option.map (λ (b : Bucket). b.master) (get_elem? (fill_buckets host_map forward_map x n) i)
      ≡ some (get_or host_map (x + i) 0)
unfolding fill_buckets
fill_buckets-get host_map forward_map x zero i h = absurd (omega arith)
fill_buckets-get host_map forward_map x (suc n) zero h =
    ap (λ j. some (get_or host_map j 0)) (omega arith)
fill_buckets-get host_map forward_map x (suc n) (suc i) h =
    fill_buckets-get host_map forward_map (suc x) n i (omega arith)
    ∙ ap (λ j. some (get_or host_map j 0)) (omega arith)

-- In 32 bits, `size - 1` of a power of two is its mask.
mask-eq : (k : ℕ) → 2 ^ k ≤ 2 ^ 31 → (u32_mod + 2 ^ k - 1) % u32_mod ≡ 2 ^ k - 1
mask-eq k h = omega (arith, one-le-pow k 2 (omega arith))

not_zero : (k : ℕ) → (2 ^ k == 0) ≡ false
not_zero k = ground (arith, one-le-pow k 2 (omega arith))

create-eq :
    (memc : Memcached) (host_map : List ℕ) (forward_map : Option (List ℕ)) (k replicas : ℕ)
    → (virtual_bucket_create true memc (some host_map) forward_map (2 ^ k) replicas).1
      ≡ record memc {
        buckets = some (record {
          size = 2 ^ k;
          replicas = replicas;
          buckets = fill_buckets host_map forward_map 0 (2 ^ k);
        });
      }
unfolding virtual_bucket_create
create-eq memc host_map forward_map k replicas = rw (not_zero k)

-- After a table of 2 ^ k buckets, k up to 31, is made with memory, a hash is looked up at its
-- remainder by 2 ^ k in the host map, within the table.
pub virtual_bucket_create-get :
    (memc : Memcached) (host_map : List ℕ) (forward_map : Option (List ℕ)) (k replicas hash : ℕ)
    → 2 ^ k ≤ 2 ^ 31
    → virtual_bucket_get
        (virtual_bucket_create true memc (some host_map) forward_map (2 ^ k) replicas).1
        hash
      ≡ some (get_or host_map (hash % 2 ^ k) 0)
unfolding virtual_bucket_get
virtual_bucket_create-get memc host_map forward_map k replicas hash h =
    ap (λ m. virtual_bucket_get m hash) (create-eq memc host_map forward_map k replicas)
    ∙ ap
        (λ i.
          Option.map (λ (b : Bucket). b.master)
            (get_elem? (fill_buckets host_map forward_map 0 (2 ^ k)) i))
        (ap (bit_and hash) (mask-eq k h) ∙ bit_and-mask k hash)
    ∙ fill_buckets-get host_map forward_map 0 (2 ^ k) (hash % 2 ^ k)
        (mod-lt hash (one-le-pow k 2 (omega arith)))
    ∙ ap (λ j. some (get_or host_map j 0)) (omega arith)

bit_and-pow : (k a : ℕ) → (bit_and a (2 ^ k) ≡ 0) ⊎ (bit_and a (2 ^ k) ≡ 2 ^ k)
bit_and-pow zero a =
    ground (arith, bit_and_step a 1, bit_and-zero_below (a / 2) (a / 2) (omega arith))
bit_and-pow (suc k) a =
    ground (arith, bit_and_step a (2 ^ suc k), pow-suc 2 k, bit_and-pow k (a / 2))

-- Without a table, and with 2 ^ k + 1 servers, k up to 31, every hash is looked up as the first
-- server or as the last.
pub virtual_bucket_get-first_or_last :
    (memc : Memcached) (k hash : ℕ)
    → memc.buckets ≡ none
    → server_count memc ≡ 2 ^ k + 1
    → 2 ^ k ≤ 2 ^ 31
    → (virtual_bucket_get memc hash ≡ some 0) ⊎ (virtual_bucket_get memc hash ≡ some (2 ^ k))
unfolding virtual_bucket_get
virtual_bucket_get-first_or_last memc k hash none_made count h = elim (bit_and-pow k hash) [
  | inl e ↦
      inl (
        rw (none_made, virtual_bucket_get)
          (ap some (ap (bit_and hash) (masked memc k count h) ∙ e)))
  | inr e ↦
      inr (
        rw (none_made, virtual_bucket_get)
          (ap some (ap (bit_and hash) (masked memc k count h) ∙ e)))
]
  where
    masked :
        (memc : Memcached) (k : ℕ)
        → server_count memc ≡ 2 ^ k + 1
        → 2 ^ k ≤ 2 ^ 31
        → (u32_mod + number_of_hosts memc - 1) % u32_mod ≡ 2 ^ k
    masked memc k c h = omega arith
