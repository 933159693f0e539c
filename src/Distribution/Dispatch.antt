-- ===== src/Distribution/Dispatch.antt =====
-- libmemcached/hash.cc and virtual_bucket.cc: from a key to the index of a server.
use Prim.Native.Nat.{bit_and}
use libmemcached.Prelude.{
  ℕ, zero, suc, ◌+◌, ◌-◌, ◌/◌, ◌%◌, List, ◌++◌, true, false, not, ◌&&◌, Option, none, some, length,
  get_elem?, get_or, ltb, ◌==◌, if◌then◌else◌,
}
use libmemcached.Prelude.Words.{u32_mod}
use libmemcached.Distribution.State.{
  modula, random, virtual_bucket, consistent_max, Point, Memcached, World, number_of_hosts,
}
use libmemcached.Distribution.Continuum.{blank, run_distribution}
use mathlib.Core.Option

-- `while (left < right)` over the points; each round at least halves what is left.
unfoldable pub search : ℕ → List Point → ℕ → ℕ → ℕ → ℕ
search zero points hash left right = right
search (suc fuel) points hash left right =
    let middle = left + (right - left) / 2 in
    elim (ltb left right) [
      | false ↦ right
      | true ↦ elim (ltb (get_or points middle blank).value hash) [
        | true ↦ search fuel points hash (middle + 1) right
        | false ↦ search fuel points hash left middle
      ]
    ]

-- The cell that is read: the first one when the search comes out at the end.
unfoldable pub successor : List Point → ℕ → ℕ → ℕ
unfolding search
successor points num hash =
    let right = search (suc num) points hash 0 num in if right == num then 0 else right

-- `memcached_virtual_bucket_get`; `none` is a read out of bounds. In 32 bits `0 - 1` is all ones.
unfoldable pub virtual_bucket_get : Memcached → ℕ → Option ℕ
virtual_bucket_get memc digest = elim memc.buckets [
  | none ↦ some (bit_and digest ((u32_mod + number_of_hosts memc - 1) % u32_mod))
  | some table ↦
      Option.map (λ b. b.master)
        (get_elem? table.buckets (bit_and digest ((u32_mod + table.size - 1) % u32_mod)))
]

-- A remainder by zero is a fault.
abbrev pub remainder : ℕ → ℕ → Option ℕ
remainder a n = if n == 0 then none else some (a % n)

-- `dispatch_host`. `rnd` is what `random()` returns; `none` is a fault.
unfoldable pub dispatch_host : Memcached → ℕ → ℕ → Option ℕ
unfolding successor virtual_bucket_get
dispatch_host memc rnd hash = elim memc.distribution [
  | random ↦ remainder (rnd % u32_mod) (number_of_hosts memc)
  | virtual_bucket ↦ virtual_bucket_get memc hash
  | modula ↦ remainder hash (number_of_hosts memc)
  | consistent_max ↦ remainder hash (number_of_hosts memc)
  | _ ↦
      Option.map (λ p. p.index)
        (get_elem? memc.ketama.continuum
          (successor memc.ketama.continuum memc.ketama.points_counter hash))
]

abbrev pub max_key : ℕ
max_key = 251

-- `_generate_hash_wrapper`
unfoldable pub generate_hash_wrapper : World → Memcached → List ℕ → ℕ
generate_hash_wrapper w memc key =
    if number_of_hosts memc == 1
    then 0
    else if memc.hash_with_namespace
    then (if ltb (max_key - 1) (length memc.name_space + length key)
        then 0
        else w.digest (memc.name_space ++ key))
    else w.digest key

-- `memcached_generate_hash`
unfoldable pub generate_hash : World → ℕ → Memcached → List ℕ → Option ℕ
unfolding generate_hash_wrapper dispatch_host
generate_hash w rnd memc key = dispatch_host memc rnd (generate_hash_wrapper w memc key)

-- `_regen_for_auto_eject`, `memcached_autoeject`
unfoldable pub autoeject : World → Memcached → Memcached
unfolding run_distribution
autoeject w memc =
    if memc.auto_eject_hosts && not (memc.ketama.next_rebuild == 0)
    then elim w.clock [
      | none ↦ memc
      | some now ↦ if ltb memc.ketama.next_rebuild now then (run_distribution w memc).1 else memc
    ]
    else memc

-- `memcached_generate_hash_with_redistribution`: the hash is taken first.
unfoldable pub generate_hash_with_redistribution :
    World → ℕ → Memcached → List ℕ → Option ℕ × Memcached
unfolding generate_hash_wrapper autoeject dispatch_host
generate_hash_with_redistribution w rnd memc key =
    let hash = generate_hash_wrapper w memc key in
    let memc' = autoeject w memc in (dispatch_host memc' rnd hash, memc')
