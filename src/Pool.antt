-- ===== src/Pool.antt =====
-- libmemcachedutil/pool.cc: a pool of clients that threads share.
pub mod System
pub mod Invariant
pub mod Locked
pub mod Reuse
mod Tests
use libmemcached.Prelude.{
  ℕ, zero, suc, ◌-◌, List, [], ◌∷◌, Bool, true, false, ◌&&◌, ◌||◌, Option, none, some, length,
  get_elem?, set, replicate, take, not, ltb, ◌==◌, if◌then◌else◌,
}
use libmemcached.Return.{
  Return, success, notfound, in_progress, invalid_arguments, is_success, is_failed,
}

-- A `memcached_st *` that is not NULL: the object's address, its settings, and the version of the
-- settings, `configure.version`.
pub record Handle (S : Type 0) : Type 0 where
  pub address : ℕ
  pub settings : S
  pub version : ℕ

-- `memcached_pool_st`. The free handles are the first `free` cells of the array: `firstfree` is one
-- less, and -1 for none. `version` is that of the master, before it overflows.
pub record Pool (S : Type 0) : Type 0 where
  pub master : S
  pub version : ℕ
  pub server_pool : List (Option (Handle S))
  pub free : ℕ
  pub size : ℕ
  pub current_size : ℕ
  pub owns_master : Bool

-- What a round of the loop of `fetch` comes to: a handle, a return of NULL with `rc`, a wait for the
-- condition, or another round.
pub data Fetched (S : Type 0) : Type 0 where
  took : Handle S → Fetched S
  gave_up : Return → Fetched S
  waits : Fetched S
  again : Fetched S

-- What `release` returns, with the broadcast that it may make.
pub record Released (S : Type 0) : Type 0 where
  pub released : Bool
  pub rc : Return
  pub pool : Pool S
  pub broadcast : Bool

-- `server_pool[++firstfree] = obj`
abbrev pub push : {S : Type 0} → Pool S → Handle S → Pool S
push pool h = record pool {
  server_pool = set pool.server_pool pool.free (some h);
  free = suc pool.free;
}

-- `clone` is what `memcached_clone` makes of the settings of a client.
module _ {S : Type 0} (clone : S → S) where
  -- `memcached_clone` of the master; `none` if it returns NULL, else the address of the object.
  abbrev pub clone_master : Pool S → Option ℕ → Option (Handle S)
  clone_master pool none = none
  clone_master pool (some a) =
      some (record { address = a; settings = clone pool.master; version = pool.version })

  -- `grow_pool`
  abbrev pub grow_pool : Pool S → Option ℕ → Bool × Pool S
  grow_pool pool address = elim (clone_master pool address) [
    | none ↦ (false, pool)
    | some obj ↦ (true, record (push pool obj) { current_size = suc pool.current_size })
  ]

  -- The loop of `init`: `n` more clones, the first of which `clones x` gives.
  unfoldable pub init_loop : (ℕ → Option ℕ) → ℕ → ℕ → Pool S → Pool S
  init_loop clones x zero pool = pool
  init_loop clones x (suc n) pool =
      let grown = grow_pool pool (clones x) in
      let rest = init_loop clones (suc x) n grown.1 in if grown.0 then rest else grown.1

  -- `_pool_create`; `memory` tells whether both `new` succeed.
  unfoldable pub pool_create : Bool → (ℕ → Option ℕ) → S → ℕ → ℕ → ℕ → Option (Pool S)
  unfolding init_loop
  pool_create memory clones master version initial max =
      if (initial == 0) || ((max == 0) || ltb max initial)
      then none
      else if memory
      then some (
          init_loop clones 0 initial (record {
            master = master;
            version = version;
            server_pool = replicate max none;
            free = 0;
            size = max;
            current_size = 0;
            owns_master = false;
          }))
      else none

  -- `server_pool[firstfree--]`, at the cell `k`: the loop goes on if that is NULL.
  abbrev pub take_cell : Pool S → ℕ → Option (Option (Handle S)) → Fetched S × Pool S
  take_cell pool k (some (some h)) = (took h, record pool { free = k })
  take_cell pool k (some none) = (again, record pool { free = k })
  take_cell pool k none = (again, record pool { free = k })

  -- The other branches, when no handle is free.
  abbrev pub none_free : Bool → Option ℕ → Pool S → Bool → Fetched S × Pool S
  none_free true address pool true = (waits, pool)
  none_free false address pool true = (gave_up notfound, pool)
  none_free block address pool false =
      let grown = grow_pool pool address in ((if grown.0 then again else gave_up success), grown.1)

  -- One round of the loop of `fetch`, the mutex held; `block` is a wait of more than no time.
  abbrev pub round_at : Bool → Option ℕ → Pool S → ℕ → Fetched S × Pool S
  round_at block address pool (suc k) = take_cell pool k (get_elem? pool.server_pool k)
  round_at block address pool zero = none_free block address pool (pool.current_size == pool.size)

  unfoldable pub fetch_round : Bool → Option ℕ → Pool S → Fetched S × Pool S
  fetch_round block address pool = round_at block address pool pool.free

  -- `while (ret == NULL)`, unless the round has returned or waits.
  abbrev pub or_else : Fetched S × Pool S → Fetched S × Pool S → Fetched S × Pool S
  or_else (again, p) rest = rest
  or_else (took h, p) rest = (took h, p)
  or_else (gave_up rc, p) rest = (gave_up rc, p)
  or_else (waits, p) rest = (waits, p)

  -- Rounds until one leaves the loop or waits.
  unfoldable pub fetch_loop : ℕ → Bool → Option ℕ → Pool S → Fetched S × Pool S
  unfolding fetch_round
  fetch_loop zero block address pool = (again, pool)
  fetch_loop (suc fuel) block address pool =
      let r = fetch_round block address pool in or_else r (fetch_loop fuel block address r.1)

  -- `fetch` up to a wait; `lock` tells whether the mutex could be locked.
  unfoldable pub fetch : Bool → Bool → Option ℕ → Pool S → Fetched S × Pool S
  unfolding fetch_loop
  fetch lock block address pool =
      if lock then fetch_loop 2 block address pool else (gave_up in_progress, pool)

  -- `release` of a handle whose version is not the master's gives it back as a new clone, if one
  -- can be made.
  abbrev pub refreshed : Pool S → Option ℕ → Handle S → Handle S
  refreshed pool address h =
      if h.version == pool.version
      then h
      else elim (clone_master pool address) [ none ↦ h | some obj ↦ obj ]

  -- `release`
  unfoldable pub release : Bool → Option ℕ → Pool S → Option (Handle S) → Released S
  release lock address pool none = record {
    released = false;
    rc = invalid_arguments;
    pool = pool;
    broadcast = false;
  }
  release lock address pool (some h) =
      if lock
      then record {
        released = true;
        rc = success;
        pool = push pool (refreshed pool address h);
        broadcast = (pool.free == 0) && (pool.current_size == pool.size);
      }
      else record { released = false; rc = in_progress; pool = pool; broadcast = false }

-- `behavior_set` is `memcached_behavior_set`.
module _ {S : Type 0} (clone : S → S) (behavior_set : S → ℕ → ℕ → Return × S) where
  -- The loop of `memcached_pool_behavior_set` at one free handle.
  unfoldable pub update_cell : Pool S → ℕ → ℕ → Option ℕ → Option (Handle S) → Option (Handle S)
  update_cell pool flag data_ address none = clone_master clone pool address
  update_cell pool flag data_ address (some h) =
      let changed = behavior_set h.settings flag data_ in
      if is_success changed.0
      then some (record h { settings = changed.1; version = pool.version })
      else elim (clone_master clone pool address) [
        | none ↦ some (record h { settings = changed.1 })
        | some obj ↦ some obj
      ]

  -- The loop over the cells, `n` of them from index `x`.
  unfoldable pub update_cells :
      Pool S → ℕ → ℕ → (ℕ → Option ℕ) → ℕ → ℕ → List (Option (Handle S)) → List (Option (Handle S))
  unfolding update_cell
  update_cells pool flag data_ clones x zero cells = cells
  update_cells pool flag data_ clones x (suc n) [] = []
  update_cells pool flag data_ clones x (suc n) (c ∷ cells) =
      update_cell pool flag data_ (clones x) c ∷ update_cells pool flag data_ clones (suc x) n cells

  -- `memcached_pool_behavior_set`
  unfoldable pub pool_behavior_set : Bool → (ℕ → Option ℕ) → Pool S → ℕ → ℕ → Return × Pool S
  unfolding update_cells
  pool_behavior_set lock clones pool flag data_ =
      let changed = behavior_set pool.master flag data_ in
      let renewed = record pool { master = changed.1; version = suc pool.version } in
      if lock
      then (if is_failed changed.0 then (changed.0, record pool { master = changed.1 }) else (
        changed.0,
        record renewed {
          server_pool = update_cells renewed flag data_ clones 0 pool.free pool.server_pool;
        },
      ))
      else (in_progress, pool)

-- `memcached_pool_destroy`: the handles that are freed, and whether the master is returned, not
-- freed.
abbrev pub pool_destroy : {S : Type 0} → Pool S → List (Option (Handle S)) × Bool
pool_destroy pool = (take pool.free pool.server_pool, not pool.owns_master)
