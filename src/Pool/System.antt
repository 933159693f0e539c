-- ===== src/Pool/System.antt =====
-- libmemcachedutil/pool.cc: threads that share a pool, one step for each stretch of code that runs
-- under the mutex. A thread that is woken from its wait runs the loop of `fetch` again.
use libmemcached.Prelude.{
  ℕ, suc, ◌≡◌, List, ◌∷◌, ◌++◌, Bool, true, Option, some, take, drop, get_elem?, if◌then◌else◌,
}
use libmemcached.Return.{Return}
use libmemcached.Pool.{
  Handle, Pool, Fetched, took, gave_up, waits, again, fetch, release, pool_behavior_set,
}

-- The pool, the handles that threads hold, and how many threads wait for the condition.
pub record System (S : Type 0) : Type 0 where
  pub pool : Pool S
  pub held : List (Handle S)
  pub waiting : ℕ

-- What a `fetch` that came out as `r` does to the threads.
abbrev pub after_fetch : {S : Type 0} → System S → Fetched S × Pool S → System S
after_fetch s (took h, p) = record s { pool = p; held = h ∷ s.held }
after_fetch s (gave_up rc, p) = record s { pool = p }
after_fetch s (waits, p) = record s { pool = p; waiting = suc s.waiting }
after_fetch s (again, p) = record s { pool = p }

module _ {S : Type 0} (clone : S → S) (behavior_set : S → ℕ → ℕ → Return × S) where
  abbrev pub fetching : Bool → Option ℕ → System S → System S
  fetching block address s = after_fetch s (fetch clone true block address s.pool)

  -- The holder of handle `h`, the `i`-th, releases it; a broadcast wakes every thread that waits.
  abbrev pub releasing : Option ℕ → ℕ → Handle S → System S → System S
  releasing address i h s =
      let r = release clone true address s.pool (some h) in
      record {
        pool = r.pool;
        held = take i s.held ++ drop (suc i) s.held;
        waiting = if r.broadcast then 0 else s.waiting;
      }

  abbrev pub setting : (ℕ → Option ℕ) → ℕ → ℕ → System S → System S
  setting clones flag data_ s = record s {
    pool = (pool_behavior_set clone behavior_set true clones s.pool flag data_).1;
  }

  pub data Step : System S → System S → Type 0 where
    fetches : (s : System S) (block : Bool) (address : Option ℕ) → Step s (fetching block address s)
    releases :
        (s : System S) (address : Option ℕ) (i : ℕ) (h : Handle S)
        → get_elem? s.held i ≡ some h
        → Step s (releasing address i h s)
    -- A wait ends by its timeout, or for no reason.
    stops_waiting : (s : System S) (n : ℕ) → s.waiting ≡ suc n → Step s (record s { waiting = n })
    sets :
        (s : System S) (clones : ℕ → Option ℕ) (flag data_ : ℕ)
        → Step s (setting clones flag data_ s)

  -- Any number of steps.
  pub data Steps (start : System S) : System S → Type 0 where
    stay : Steps start start
    next : (s t : System S) → Steps start s → Step s t → Steps start t
