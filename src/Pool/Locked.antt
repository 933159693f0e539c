-- ===== src/Pool/Locked.antt =====
-- libmemcachedutil/pool.cc: what `fetch` and `release` do to a sound pool.
use libmemcached.Prelude.{
  ℕ, zero, suc, ◌≤◌, ◌<◌, ◌≡◌, refl, ap, ◌∙◌, inl, inr, Bool, true, false, Option, none, some,
  length, get_elem?, set, ◌==◌, arith, Bool-cases, length-set, get_elem?-set, get_elem?-set_other,
  ==_iff,
}
use libmemcached.Return.{success, notfound}
use libmemcached.Pool.{
  take_cell, none_free, round_at, or_else, Handle, Pool, Fetched, took, gave_up, waits, push,
  fetch_round, fetch_loop, fetch,
}

-- Cell `i` of the array holds a handle.
abbrev pub Filled : {S : Type 0} → Pool S → ℕ → Type 0
Filled {S} pool i = (h : Handle S) × (get_elem? pool.server_pool i ≡ some (some h))

-- The array has its size, no more handles are free than exist, no more exist than may, and the free
-- cells hold handles.
pub record IsSound {S : Type 0} (pool : Pool S) : Type 0 where
  pub array : length pool.server_pool ≡ pool.size
  pub free_le : pool.free ≤ pool.current_size
  pub within : pool.current_size ≤ pool.size
  pub filled : (i : ℕ) → i < pool.free → Filled pool i

module _ {S : Type 0} where
  -- One more handle fits.
  pub push-IsSound :
      (pool : Pool S) (h : Handle S)
      → IsSound pool
      → pool.free < pool.current_size
      → IsSound (push pool h)
  push-IsSound pool h s room = record {
    array = length-set pool.server_pool pool.free (some h) ∙ s.array;
    free_le = omega arith;
    within = s.within;
    filled = λ i lt. elim (Bool-cases (i == pool.free)) [
      | inl e ↦ (
        h,
        ap (λ j. get_elem? (set pool.server_pool pool.free (some h)) j) ((==_iff i pool.free).0 e)
            ∙ get_elem?-set pool.server_pool pool.free (some h) (omega (arith, s.array, s.within)),
      )
      | inr e ↦
          let old = s.filled i (ground arith) in
          (old.0, get_elem?-set_other pool.server_pool pool.free i (some h) (ground arith) ∙ old.1)
    ];
  }

  pub grow-IsSound :
      (pool : Pool S) (h : Handle S)
      → IsSound pool
      → pool.current_size < pool.size
      → IsSound (record (push pool h) { current_size = suc pool.current_size })
  grow-IsSound pool h s room =
      let wide : IsSound (record pool { current_size = suc pool.current_size }) = record {
        array = s.array;
        free_le = omega (arith, s.free_le);
        within = omega arith;
        filled = s.filled;
      } in
      push-IsSound (record pool { current_size = suc pool.current_size }) h wide
        (omega (arith, s.free_le))

  pub pop-IsSound :
      (pool : Pool S) (k : ℕ)
      → IsSound pool
      → pool.free ≡ suc k
      → IsSound (record pool { free = k })
  pop-IsSound pool k s e = record {
    array = s.array;
    free_le = omega (arith, s.free_le);
    within = s.within;
    filled = λ i lt. s.filled i (omega arith);
  }

  module _ (clone : S → S) (block : Bool) (address : Option ℕ) (pool : Pool S) where
    -- The ways in which `fetch` can come out on a sound pool, and what each leaves.
    pub data Outcome (r : Fetched S × Pool S) : Type 0 where
      reused :
          (k : ℕ) (h : Handle S)
          → pool.free ≡ suc k
          → get_elem? pool.server_pool k ≡ some (some h)
          → r ≡ (took h, record pool { free = k })
          → Outcome r
      grown :
          (a : ℕ) (h : Handle S)
          → pool.free ≡ 0
          → pool.current_size < pool.size
          → address ≡ some a
          → h ≡ record { address = a; settings = clone pool.master; version = pool.version }
          → r ≡ (
            took h,
            record pool {
              server_pool = set pool.server_pool 0 (some h);
              current_size = suc pool.current_size;
              free = 0;
            },
          )
          → Outcome r
      not_grown :
          pool.free ≡ 0
          → pool.current_size < pool.size
          → address ≡ none
          → r ≡ (gave_up success, pool)
          → Outcome r
      exhausted :
          pool.free ≡ 0
          → pool.current_size ≡ pool.size
          → block ≡ false
          → r ≡ (gave_up notfound, pool)
          → Outcome r
      waiting :
          pool.free ≡ 0
          → pool.current_size ≡ pool.size
          → block ≡ true
          → r ≡ (waits, pool)
          → Outcome r

  module _ (clone : S → S) (block : Bool) (address : Option ℕ) where
    abbrev next : ℕ → Fetched S × Pool S → Fetched S × Pool S
    next fuel r = or_else clone r (fetch_loop clone fuel block address r.1)

    step :
        (fuel : ℕ) (pool : Pool S)
        → fetch_loop clone (suc fuel) block address pool
          ≡ next fuel (round_at clone block address pool pool.free)
    unfolding fetch_loop fetch_round
    step fuel pool = refl

    at_free :
        (fuel : ℕ) (pool : Pool S) (n : ℕ)
        → pool.free ≡ n
        → fetch_loop clone (suc fuel) block address pool
          ≡ next fuel (round_at clone block address pool n)
    at_free fuel pool n e =
        step fuel pool ∙ ap (λ m. next fuel (round_at clone block address pool m)) e

    pub loop-pop :
        (fuel : ℕ) (pool : Pool S) (k : ℕ) (h : Handle S)
        → pool.free ≡ suc k
        → get_elem? pool.server_pool k ≡ some (some h)
        → fetch_loop clone (suc fuel) block address pool ≡ (took h, record pool { free = k })
    loop-pop fuel pool k h e f =
        at_free fuel pool (suc k) e ∙ ap (λ c. next fuel (take_cell clone pool k c)) f

    loop-none :
        (fuel : ℕ) (pool : Pool S) (b : Bool)
        → pool.free ≡ 0
        → (pool.current_size == pool.size) ≡ b
        → fetch_loop clone (suc fuel) block address pool
          ≡ next fuel (none_free clone block address pool b)
    loop-none fuel pool b e f =
        at_free fuel pool 0 e ∙ ap (λ b. next fuel (none_free clone block address pool b)) f

    -- A pool with none free and room: the loop makes a clone and takes it in the next round.
    none-Outcome :
        (pool : Pool S)
        → IsSound pool
        → pool.free ≡ 0
        → Outcome clone block address pool (fetch_loop clone 2 block address pool)
    none-Outcome pool s e = elim (Bool-cases (pool.current_size == pool.size)) [
      | inl f ↦ full block refl f
      | inr f ↦ grow address refl f (ground (arith, s.within, f))
    ]
      where
        full :
            (b : Bool)
            → block ≡ b
            → (pool.current_size == pool.size) ≡ true
            → Outcome clone block address pool (fetch_loop clone 2 block address pool)
        full true g f =
            waiting e ((==_iff pool.current_size pool.size).0 f) g
              (loop-none 1 pool true e f ∙ ap (λ b. next 1 (none_free clone b address pool true)) g)
        full false g f =
            exhausted e ((==_iff pool.current_size pool.size).0 f) g
              (loop-none 1 pool true e f ∙ ap (λ b. next 1 (none_free clone b address pool true)) g)

        grow :
            (o : Option ℕ)
            → address ≡ o
            → (pool.current_size == pool.size) ≡ false
            → pool.current_size < pool.size
            → Outcome clone block address pool (fetch_loop clone 2 block address pool)
        grow none g f lt = not_grown e lt g (
            loop-none 1 pool false e f
            ∙ ap
                (λ o.
                  or_else clone (none_free clone block o pool false)
                    (fetch_loop clone 1 block address (none_free clone block o pool false).1))
                g
            ∙ refl)
        grow (some a) g f lt =
            let h : Handle S = record {
              address = a;
              settings = clone pool.master;
              version = pool.version;
            } in
            let p : Pool S = record (push pool h) { current_size = suc pool.current_size } in
            grown a h e lt g refl (
              loop-none 1 pool false e f
              ∙ ap
                  (λ o.
                    or_else clone (none_free clone block o pool false)
                      (fetch_loop clone 1 block address (none_free clone block o pool false).1))
                  g
              ∙ loop-pop 0 p pool.free h refl (
                  get_elem?-set pool.server_pool pool.free (some h)
                    (omega (arith, s.array, s.within, e)))
              ∙ ap
                  (λ n. (
                    took h,
                    record pool {
                      server_pool = set pool.server_pool n (some h);
                      current_size = suc pool.current_size;
                      free = n;
                    },
                  ))
                  e)

    -- On a sound pool, the mutex locked, `fetch` hands out the handle on top and leaves the ones
    -- below; else, if there is room, it hands out a new clone of the master or, for want of memory,
    -- gives up with MEMCACHED_SUCCESS; else it waits or gives up with MEMCACHED_NOTFOUND, as it was
    -- asked to. It never needs a third round of its loop.
    pub fetch-Outcome :
        (pool : Pool S)
        → IsSound pool
        → Outcome clone block address pool (fetch clone true block address pool)
    unfolding fetch
    fetch-Outcome pool s = go pool.free refl
      where
        go :
            (n : ℕ)
            → pool.free ≡ n
            → Outcome clone block address pool (fetch_loop clone 2 block address pool)
        go zero e = none-Outcome pool s e
        go (suc k) e =
            let top = s.filled k (omega arith) in
            reused k top.0 e top.1 (loop-pop 1 pool k top.0 e top.1)
