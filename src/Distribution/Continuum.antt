-- ===== src/Distribution/Continuum.antt =====
-- libmemcached/hosts.cc: `update_continuum` and `run_distribution`.
use libmemcached.Prelude.{
  ℕ, zero, suc, ◌+◌, ◌-◌, ◌*◌, ◌/◌, List, [], ◌∷◌, ◌++◌, Bool, true, false, not, ◌||◌, Option, none,
  some, length, set, take, drop, replicate, ltb, leb, ◌==◌, if◌then◌else◌,
}
use libmemcached.Prelude.Words.{mul32, add32}
use libmemcached.Return.{Return, success, errno, memory_allocation_failure}
use libmemcached.Distribution.State.{
  Distribution, consistent, consistent_ketama, consistent_ketama_spy, consistent_weighted, Server,
  Point, Ketama, Memcached, World, number_of_hosts,
}
use libmemcached.Distribution.HostKey.{sort_host, sort_host_size, ketama_server_hash}
use libmemcached.Distribution.Sort.{continuum_item_cmp, compare_servers, qsort}

abbrev pub points_per_server_plain : ℕ
points_per_server_plain = 100

abbrev pub points_per_server_ketama : ℕ
points_per_server_ketama = 160

abbrev pub continuum_addition : ℕ
continuum_addition = 10

-- What fresh memory is taken to hold before it is written.
abbrev pub blank : Point
blank = record { index = 0; value = 0 }

-- A server takes part unless it is ejected: `next_retry` still lies ahead.
abbrev pub is_live : Bool → ℕ → Server → Bool
is_live auto_eject now s = not auto_eject || leb s.next_retry now

unfoldable pub count_live : Bool → ℕ → List Server → ℕ
count_live eject now [] = 0
count_live eject now (s ∷ ss) =
    let rest = count_live eject now ss in if is_live eject now s then suc rest else rest

-- The first loop: the earliest retry of an ejected server, 0 for none.
unfoldable pub earliest_retry : ℕ → ℕ → List Server → ℕ
earliest_retry now next [] = next
earliest_retry now next (s ∷ ss) =
    earliest_retry now
      (if leb s.next_retry now
        then next
        else if (next == 0) || ltb s.next_retry next
        then s.next_retry
        else next)
      ss

unfoldable pub total_weight : Bool → ℕ → List Server → ℕ
total_weight eject now [] = 0
total_weight eject now (s ∷ ss) =
    let rest = total_weight eject now ss in if is_live eject now s then s.weight + rest else rest

-- The array, the next free cell, and `pointer_counter`: `uint32_t`s, which cannot wrap around before
-- a store misses the array, whose length is one too.
pub record Cursor : Type 0 where
  pub continuum : List Point
  pub continuum_index : ℕ
  pub pointer_counter : ℕ

-- `continuum[continuum_index].index = …; continuum[continuum_index++].value = …;`
unfoldable pub write_point : Cursor → ℕ → ℕ → Cursor
write_point c host value = record c {
  continuum = set c.continuum c.continuum_index (record { index = host; value = value });
  continuum_index = suc c.continuum_index;
}

abbrev pub start : Ketama → Cursor
start k = record { continuum = k.continuum; continuum_index = 0; pointer_counter = 0 }

unfoldable pub write_values : Cursor → ℕ → List ℕ → Cursor
write_values c host [] = c
write_values c host (v ∷ vs) = write_values (write_point c host v) host vs

-- What the loops over servers and points read.
pub record Plan : Type 0 where
  pub digest : List ℕ → ℕ
  pub weighted : Bool
  pub spy : Bool
  pub auto_eject : Bool
  pub now : ℕ
  pub server_points : Server → ℕ

-- The values that one key gives: four words of its MD5 if weighted, else its hash.
unfoldable pub key_values : Plan → List ℕ → List ℕ
unfolding ketama_server_hash
key_values plan key =
    if plan.weighted
    then ketama_server_hash key 0
      ∷ ketama_server_hash key 1
      ∷ ketama_server_hash key 2
      ∷ ketama_server_hash key 3
      ∷ []
    else plan.digest key ∷ []

abbrev pub points_per_hash : Plan → ℕ
points_per_hash plan = if plan.weighted then 4 else 1

-- The loop over `pointer_index`, `n` rounds from `i`; false for a key that does not fit its buffer.
unfoldable pub write_keys : Plan → Server → ℕ → ℕ → ℕ → Cursor → Bool × Cursor
write_keys plan s host zero i c = (true, c)
write_keys plan s host (suc n) i c =
    let key = sort_host plan.spy s i in
    let rest = write_keys plan s host n (suc i) (write_values c host (key_values plan key)) in
    if leb (sort_host_size plan.spy) (length key) then (false, c) else rest

-- The loop over the servers.
unfoldable pub write_servers : Plan → ℕ → List Server → Cursor → Bool × Cursor
write_servers plan host [] c = (true, c)
write_servers plan host (s ∷ ss) c =
    let points = plan.server_points s in
    let written = write_keys plan s host (points / points_per_hash plan) 0 c in
    let counted = record (written.1) { pointer_counter = (written.1).pointer_counter + points } in
    elim (is_live plan.auto_eject plan.now s) [
      | false ↦ write_servers plan (suc host) ss c
      | true ↦ elim (written.0) [
        | false ↦ written
        | true ↦ write_servers plan (suc host) ss counted
      ]
    ]

-- `pointer_per_server`
unfoldable pub server_points : World → Memcached → ℕ → ℕ → Server → ℕ
server_points w memc total live s =
    if memc.ketama.weighted
    then w.quarter_points s.weight total live * 4
    else points_per_server_plain

abbrev pub is_spy : Distribution → Bool
is_spy consistent_ketama_spy = true
is_spy other = false

unfoldable pub plan_of : World → Memcached → ℕ → ℕ → Plan
unfolding total_weight server_points
plan_of w memc now live = record {
  digest = w.digest;
  weighted = memc.ketama.weighted;
  spy = is_spy memc.distribution;
  auto_eject = memc.auto_eject_hosts;
  now = now;
  server_points = server_points w memc (total_weight memc.auto_eject_hosts now memc.servers) live;
}

-- `libmemcached_xrealloc` to `size` items, which keeps what there is.
unfoldable pub grow : Ketama → ℕ → Ketama
grow k size = record k {
  continuum = k.continuum ++ replicate (size - k.continuum_count) blank;
  continuum_count = size;
}

-- The allocation, when the continuum is too short; `none` if it fails.
unfoldable pub reserve : World → Ketama → ℕ → Option Ketama
unfolding grow
reserve w k live =
    let per_server = if k.weighted then points_per_server_ketama else points_per_server_plain in
    let limit = mul32 live per_server in
    if ltb k.continuum_count limit
    then (if w.realloc then some (grow k (add32 limit (continuum_addition * per_server))) else none)
    else some k

-- `continuum_points_counter = pointer_counter`, and `qsort` of that many items.
unfoldable pub sort_points : Ketama → Cursor → Ketama
sort_points k c = record k {
  continuum =
      qsort continuum_item_cmp (take c.pointer_counter c.continuum)
      ++ drop c.pointer_counter c.continuum;
  points_counter = c.pointer_counter;
}

-- MEMCACHED_CONTINUUM_SIZE: "This would then set max hosts to 100".
abbrev pub continuum_size : ℕ
continuum_size = points_per_server_plain * 100

-- The assertion in front of `qsort`. Where assertions are compiled, the program ends if it fails; with
-- NDEBUG they are not, and `fill` is the code.
abbrev pub is_valid_size : Memcached → Bool
is_valid_size memc = leb (mul32 (number_of_hosts memc) points_per_server_plain) continuum_size

-- The rest of `update_continuum`: write the points, then sort them.
unfoldable pub fill : World → Memcached → ℕ → ℕ → Ketama → Return × Memcached
unfolding write_point write_values write_keys write_servers plan_of sort_points
fill w memc now live k =
    let (fits, c) = write_servers (plan_of w memc now live) 0 memc.servers (start k) in
    if fits
    then (success, record memc { ketama = sort_points k c })
    else (memory_allocation_failure, record memc { ketama = record k { continuum = c.continuum } })

-- The first loop of an ejecting `update_continuum` notes when the next server comes back.
unfoldable pub note_retry : Memcached → ℕ → Memcached
unfolding earliest_retry
note_retry memc now =
    if memc.auto_eject_hosts
    then record memc {
      ketama = record (memc.ketama) { next_rebuild = earliest_retry now 0 memc.servers };
    }
    else memc

-- `update_continuum`, once the clock is read.
unfoldable pub update_continuum_at : World → Memcached → ℕ → Return × Memcached
unfolding count_live note_retry reserve fill
update_continuum_at w memc now =
    let memc' = note_retry memc now in
    let live = count_live memc.auto_eject_hosts now memc.servers in
    if live == 0 then (success, memc') else elim (reserve w memc'.ketama live) [
      | none ↦ (memory_allocation_failure, memc')
      | some k' ↦ fill w memc' now live k'
    ]

unfoldable pub update_continuum : World → Memcached → Return × Memcached
unfolding update_continuum_at
update_continuum w memc = elim w.clock [
  | none ↦ (errno, memc)
  | some now ↦ update_continuum_at w memc now
]

-- `sort_hosts`, if asked for.
abbrev pub sorted_hosts : Memcached → Memcached
sorted_hosts memc =
    if memc.use_sort_hosts
    then record memc { servers = qsort compare_servers memc.servers }
    else memc

abbrev pub is_consistent : Distribution → Bool
is_consistent consistent = true
is_consistent consistent_ketama = true
is_consistent consistent_ketama_spy = true
is_consistent consistent_weighted = true
is_consistent other = false

-- `run_distribution`. The random distribution seeds `random`, which is not part of the state.
unfoldable pub run_distribution : World → Memcached → Return × Memcached
unfolding update_continuum
run_distribution w memc =
    let sorted = sorted_hosts memc in
    if is_consistent sorted.distribution then update_continuum w sorted else (success, sorted)
