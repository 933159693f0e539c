-- ===== src/Pool/Reuse.antt =====
-- libmemcachedutil/pool.cc: handles that come back, and the version of their settings.
use libmemcached.Prelude.{
  ℕ, zero, suc, ◌≤◌, ◌<◌, ◌≡◌, ◌≢◌, refl, ap, inl, inr, List, [], ◌∷◌, Bool, true, false, Option,
  none, some, length, get_elem?, get_elem?-set, arith, Bool-cases, Option-cases,
}
use libmemcached.Return.{Return, is_failed, is_success}
use libmemcached.Pool.{
  Handle, Pool, Fetched, took, push, fetch, release, refreshed, pool_behavior_set, update_cell,
  update_cells,
}
use libmemcached.Pool.Locked.{IsSound, loop-pop}

module _ {S : Type 0} (clone : S → S) where
  -- On a sound pool of which a handle is out, the mutex locked: after `release` of a handle,
  -- `fetch` hands out that handle, or the clone that replaced it, whether it may block or not.
  pub fetch-release :
      (block : Bool) (address address' : Option ℕ) (pool : Pool S) (h : Handle S)
      → IsSound pool
      → pool.free < pool.current_size
      → (fetch clone true block address' (release clone true address pool (some h)).pool).0
        ≡ took (refreshed clone pool address h)
  unfolding fetch release
  fetch-release block address address' pool h s room =
      ap (λ (r : Fetched S × Pool S). r.0)
        (loop-pop clone block address' 1 (push pool (refreshed clone pool address h)) pool.free
          (refreshed clone pool address h) refl
          (get_elem?-set pool.server_pool pool.free (some (refreshed clone pool address h))
            (omega (arith, s.array, s.within))))

module _ {S : Type 0} (clone : S → S) (behavior_set : S → ℕ → ℕ → Return × S) where
  -- The cell holds a handle with the settings' current version.
  abbrev pub IsCurrent : Pool S → Option (Option (Handle S)) → Type 0
  IsCurrent pool c = (h : Handle S) × (c ≡ some (some h)) × (h.version ≡ pool.version)

  update_cell-IsCurrent :
      (pool : Pool S) (flag data_ a : ℕ) (c : Option (Handle S))
      → IsCurrent pool (some (update_cell clone behavior_set pool flag data_ (some a) c))
  unfolding update_cell
  update_cell-IsCurrent pool flag data_ a none = (_, refl, refl)
  update_cell-IsCurrent pool flag data_ a (some h) =
      elim (Bool-cases (is_success (behavior_set h.settings flag data_).0)) [
        | inl e ↦ rw e (
          record h { settings = (behavior_set h.settings flag data_).1; version = pool.version },
          refl,
          refl,
        )
        | inr e ↦ rw e (
          record { address = a; settings = clone pool.master; version = pool.version },
          refl,
          refl,
        )
      ]

  update_cells-IsCurrent :
      (pool : Pool S) (flag data_ : ℕ) (clones : ℕ → Option ℕ) (x n : ℕ)
      (cells : List (Option (Handle S))) (i : ℕ)
      → ((x : ℕ) → clones x ≢ none)
      → i < n
      → n ≤ length cells
      → IsCurrent pool
          (get_elem? (update_cells clone behavior_set pool flag data_ clones x n cells) i)
  unfolding update_cells
  update_cells-IsCurrent pool flag data_ clones x zero cells i some_clone lt le =
      absurd (omega arith)
  update_cells-IsCurrent pool flag data_ clones x (suc n) [] i some_clone lt le =
      absurd (omega arith)
  update_cells-IsCurrent pool flag data_ clones x (suc n) (c ∷ cells) (suc i) some_clone lt le =
      update_cells-IsCurrent pool flag data_ clones (suc x) n cells i some_clone (omega arith)
        (omega arith)
  update_cells-IsCurrent pool flag data_ clones x (suc n) (c ∷ cells) zero some_clone lt le =
      elim (Option-cases (clones x)) [
        | inl e ↦ absurd (some_clone x e)
        | inr (a, e) ↦ rw e (update_cell-IsCurrent pool flag data_ a c)
      ]

  -- On a sound pool, the mutex locked, once a setting of the master is changed without failure, and
  -- if every clone can be made, each free cell holds a handle with the new version of the settings.
  pub pool_behavior_set-IsCurrent :
      (clones : ℕ → Option ℕ) (pool : Pool S) (flag data_ i : ℕ)
      → IsSound pool
      → ((x : ℕ) → clones x ≢ none)
      → is_failed (behavior_set pool.master flag data_).0 ≡ false
      → i < pool.free
      → IsCurrent (pool_behavior_set clone behavior_set true clones pool flag data_).1 (
          get_elem?
            (pool_behavior_set clone behavior_set true clones pool flag data_).1.server_pool
            i)
  unfolding pool_behavior_set
  pool_behavior_set-IsCurrent clones pool flag data_ i s some_clone ok lt =
      let renewed : Pool S = record pool {
        master = (behavior_set pool.master flag data_).1;
        version = suc pool.version;
      } in
      rw ok (
        update_cells-IsCurrent renewed flag data_ clones 0 pool.free pool.server_pool i some_clone
          lt (omega (arith, s.array, s.free_le, s.within)))
