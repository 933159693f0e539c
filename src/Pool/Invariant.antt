-- ===== src/Pool/Invariant.antt =====
-- libmemcachedutil/pool.cc: what holds at every moment between the stretches under the mutex.
use libmemcached.Prelude.{
  Option-cases, ℕ, zero, suc, ◌+◌, ◌≤◌, ◌≡◌, ◌≢◌, refl, sym, ap, subst, ◌∙◌, inl, inr, List, [],
  ◌∷◌, ◌++◌, Bool, true, false, Option, none, some, length, get_elem?, set, take, drop, replicate,
  ◌==◌, ltb, ◌||◌, if◌then◌else◌, arith, Bool-cases, length-replicate,
}
use mathlib.Core.Option.{some-injective, none-ne-some}
use libmemcached.Return.{Return, is_failed, is_success}
use libmemcached.Pool.{
  Handle, Pool, Fetched, push, fetch, release, refreshed, pool_behavior_set, update_cell,
  update_cells, clone_master, init_loop, pool_create,
}
use libmemcached.Pool.Locked.{
  IsSound, push-IsSound, grow-IsSound, pop-IsSound, Outcome, reused, grown, not_grown, exhausted,
  waiting, fetch-Outcome,
}
use libmemcached.Pool.System.{
  System, after_fetch, fetching, releasing, setting, Step, fetches, releases, stops_waiting, sets,
  Steps, stay, next,
}

-- The pool is sound, every handle is free or held, and nobody waits but on an exhausted pool.
pub record Inv {S : Type 0} (s : System S) : Type 0 where
  pub sound : IsSound s.pool
  pub count : s.pool.free + length s.held ≡ s.pool.current_size
  pub no_lost_wakeup : s.waiting ≢ 0 → (s.pool.free ≡ 0) × (s.pool.current_size ≡ s.pool.size)

module _ {S : Type 0} (clone : S → S) (behavior_set : S → ℕ → ℕ → Return × S) where
  fetching-Inv :
      (s : System S) (block : Bool) (address : Option ℕ)
      → Inv s
      → Inv (fetching clone behavior_set block address s)
  fetching-Inv s block address v =
      go (fetch clone true block address s.pool) (fetch-Outcome clone block address s.pool v.sound)
    where
      go : (r : Fetched S × Pool S) → Outcome clone block address s.pool r → Inv (after_fetch s r)
      go r (reused k h e f g) =
          subst (λ r. Inv (after_fetch s r)) (sym g)
            (record {
              sound = pop-IsSound s.pool k v.sound e;
              count = omega (arith, v.count, e);
              no_lost_wakeup = λ w. absurd (omega (arith, (v.no_lost_wakeup w).0, e));
            })
      go r (grown a h e lt f g q) =
          subst (λ r. Inv (after_fetch s r)) (sym q)
            (record {
              sound =
                  pop-IsSound _ 0
                    (subst
                      (λ n. IsSound (record s.pool {
                        server_pool = set s.pool.server_pool n (some h);
                        free = suc n;
                        current_size = suc s.pool.current_size;
                      }))
                      e (grow-IsSound s.pool h v.sound lt))
                    refl;
              count = omega (arith, v.count, e);
              no_lost_wakeup = λ w. absurd (omega (arith, (v.no_lost_wakeup w).1, lt));
            })
      go r (not_grown e lt f q) = subst (λ r. Inv (after_fetch s r)) (sym q) v
      go r (exhausted e f g q) = subst (λ r. Inv (after_fetch s r)) (sym q) v
      go r (waiting e f g q) =
          subst (λ r. Inv (after_fetch s r)) (sym q)
            (record { sound = v.sound; count = v.count; no_lost_wakeup = λ w. (e, f) })

  length-remove :
      (held : List (Handle S)) (i : ℕ) (h : Handle S)
      → get_elem? held i ≡ some h
      → suc (length (take i held ++ drop (suc i) held)) ≡ length held
  length-remove [] i h e = absurd (ground (arith, e))
  length-remove (x ∷ held) zero h e = refl
  length-remove (x ∷ held) (suc i) h e = ap suc (length-remove held i h e)

  releasing-Inv :
      (s : System S) (address : Option ℕ) (i : ℕ) (h : Handle S)
      → get_elem? s.held i ≡ some h
      → Inv s
      → Inv (releasing clone behavior_set address i h s)
  unfolding release
  releasing-Inv s address i h e v = record {
    sound =
        push-IsSound s.pool (refreshed clone s.pool address h) v.sound
          (omega (arith, v.count, length-remove s.held i h e));
    count = omega (arith, v.count, length-remove s.held i h e);
    no_lost_wakeup = ground (arith, v.no_lost_wakeup);
  }

  update_cell-some :
      (pool : Pool S) (flag data_ : ℕ) (a : Option ℕ) (h : Handle S)
      → (h' : Handle S) × (update_cell clone behavior_set pool flag data_ a (some h) ≡ some h')
  unfolding update_cell
  update_cell-some pool flag data_ a h =
      elim (Bool-cases (is_success (behavior_set h.settings flag data_).0)) [
        | inl e ↦ (
          record h { settings = (behavior_set h.settings flag data_).1; version = pool.version },
          rw e,
        )
        | inr e ↦ rw e (cloned a)
      ]
    where
      cloned :
          (a : Option ℕ)
          → (h' : Handle S) × ((elim (clone_master clone pool a) [
            | none ↦ some (record h { settings = (behavior_set h.settings flag data_).1 })
            | some obj ↦ some obj
          ])
              ≡ some h')
      cloned none = (_, refl)
      cloned (some x) = (_, refl)

  length-update_cells :
      (pool : Pool S) (flag data_ : ℕ) (clones : ℕ → Option ℕ) (x n : ℕ)
      (cells : List (Option (Handle S)))
      → length (update_cells clone behavior_set pool flag data_ clones x n cells) ≡ length cells
  unfolding update_cells
  length-update_cells pool flag data_ clones x zero cells = refl
  length-update_cells pool flag data_ clones x (suc n) [] = refl
  length-update_cells pool flag data_ clones x (suc n) (c ∷ cells) =
      ap suc (length-update_cells pool flag data_ clones (suc x) n cells)

  update_cells-filled :
      (pool : Pool S) (flag data_ : ℕ) (clones : ℕ → Option ℕ) (x n : ℕ)
      (cells : List (Option (Handle S))) (i : ℕ)
      → (h : Handle S) × (get_elem? cells i ≡ some (some h))
      → (h : Handle S) × (get_elem?
            (update_cells clone behavior_set pool flag data_ clones x n cells)
            i
          ≡ some (some h))
  unfolding update_cells
  update_cells-filled pool flag data_ clones x zero cells i m = m
  update_cells-filled pool flag data_ clones x (suc n) [] i m = m
  update_cells-filled pool flag data_ clones x (suc n) (c ∷ cells) (suc i) m =
      update_cells-filled pool flag data_ clones (suc x) n cells i m
  update_cells-filled pool flag data_ clones x (suc n) (none ∷ cells) zero m =
      absurd (ground (arith, m.1))
  update_cells-filled pool flag data_ clones x (suc n) (some h ∷ cells) zero m =
      let u = update_cell-some pool flag data_ (clones x) h in (u.0, ap some u.1)

  setting-Inv :
      (s : System S) (clones : ℕ → Option ℕ) (flag data_ : ℕ)
      → Inv s
      → Inv (setting clone behavior_set clones flag data_ s)
  unfolding pool_behavior_set
  setting-Inv s clones flag data_ v =
      elim (Bool-cases (is_failed (behavior_set s.pool.master flag data_).0)) [
        | inl e ↦ rw e (record {
          sound = record {
            array = v.sound.array;
            free_le = v.sound.free_le;
            within = v.sound.within;
            filled = v.sound.filled;
          };
          count = v.count;
          no_lost_wakeup = v.no_lost_wakeup;
        })
        | inr e ↦
            let renewed = record (s.pool) {
              master = (behavior_set s.pool.master flag data_).1;
              version = suc s.pool.version;
            } in
            rw e (record {
              sound = record {
                array =
                    length-update_cells renewed flag data_ clones 0 s.pool.free s.pool.server_pool
                    ∙ v.sound.array;
                free_le = v.sound.free_le;
                within = v.sound.within;
                filled = λ i lt.
                    update_cells-filled renewed flag data_ clones 0 s.pool.free s.pool.server_pool i
                      (v.sound.filled i lt);
              };
              count = v.count;
              no_lost_wakeup = v.no_lost_wakeup;
            })
      ]

  Step-Inv : (s t : System S) → Step clone behavior_set s t → Inv s → Inv t
  Step-Inv s _ (fetches _ block address) v = fetching-Inv s block address v
  Step-Inv s _ (releases _ address i h e) v = releasing-Inv s address i h e v
  Step-Inv s _ (stops_waiting _ n e) v = record {
    sound = v.sound;
    count = v.count;
    no_lost_wakeup = λ w. v.no_lost_wakeup (omega (arith, e));
  }
  Step-Inv s _ (sets _ clones flag data_) v = setting-Inv s clones flag data_ v

  Steps-Inv : (s t : System S) → Steps clone behavior_set s t → Inv s → Inv t
  Steps-Inv s _ stay v = v
  Steps-Inv s _ (next m t r a) v = Step-Inv m t a (Steps-Inv s m r v)

  init_loop-IsSound :
      (clones : ℕ → Option ℕ) (x n : ℕ) (pool : Pool S)
      → IsSound pool
      → pool.free ≡ pool.current_size
      → pool.current_size + n ≤ pool.size
      → IsSound (init_loop clone clones x n pool)
        × ((init_loop clone clones x n pool).free ≡ (init_loop clone clones x n pool).current_size)
  unfolding init_loop
  init_loop-IsSound clones x zero pool s e r = (s, e)
  init_loop-IsSound clones x (suc n) pool s e r = elim (Option-cases (clones x)) [
    | inl f ↦ rw (f, init_loop) (s, e)
    | inr (a, f) ↦
        let h : Handle S = record {
          address = a;
          settings = clone pool.master;
          version = pool.version;
        } in
        let p : Pool S = record (push pool h) { current_size = suc pool.current_size } in
        rw (f, init_loop)
          (init_loop-IsSound clones (suc x) n p (grow-IsSound pool h s (omega arith))
            (omega (arith, e)) (omega arith))
  ]

  refuses_or :
      (memory guard : Bool) (made : Pool S) (pool : Pool S)
      → (if guard then none else (if memory then some made else none)) ≡ some pool
      → (guard ≡ false) × (made ≡ pool)
  refuses_or memory true made pool e = absurd (none-ne-some pool e)
  refuses_or false false made pool e = absurd (none-ne-some pool e)
  refuses_or true false made pool e = (refl, some-injective made pool e)

  allowed :
      (initial max : ℕ)
      → ((initial == 0) || ((max == 0) || ltb max initial)) ≡ false
      → initial ≤ max
  allowed initial max h = ground arith

  -- A pool that was just created, no handle of which is held.
  pub pool_create-Inv :
      (memory : Bool) (clones : ℕ → Option ℕ) (master : S) (version initial max : ℕ) (pool : Pool S)
      → pool_create clone memory clones master version initial max ≡ some pool
      → Inv (record { pool = pool; held = []; waiting = 0 })
  unfolding pool_create
  pool_create-Inv memory clones master version initial max pool e =
      let empty : Pool S = record {
        master = master;
        version = version;
        server_pool = replicate max none;
        free = 0;
        size = max;
        current_size = 0;
        owns_master = false;
      } in
      let c =
        refuses_or memory ((initial == 0) || ((max == 0) || ltb max initial))
          (init_loop clone clones 0 initial empty) pool e in
      let s : IsSound empty = record {
        array = length-replicate max none;
        free_le = omega arith;
        within = omega arith;
        filled = λ i lt. absurd (omega arith);
      } in
      let r =
        init_loop-IsSound clones 0 initial empty s refl (omega (arith, allowed initial max c.0)) in
      subst (λ pool. Inv (record { pool = pool; held = []; waiting = 0 })) c.1
        (record { sound = r.0; count = omega (arith, r.1); no_lost_wakeup = λ w. absurd (w refl) })

  -- Whatever steps the threads take on a pool that was created, and whichever clones fail: the
  -- array keeps its `size` cells, at most that many handles exist, each of them free or held, the
  -- cells of the free ones hold handles, and while a thread waits no handle is free and no more may
  -- be made.
  pub pool_create-Steps :
      (memory : Bool) (clones : ℕ → Option ℕ) (master : S) (version initial max : ℕ) (pool : Pool S)
      (t : System S)
      → pool_create clone memory clones master version initial max ≡ some pool
      → Steps clone behavior_set (record { pool = pool; held = []; waiting = 0 }) t
      → Inv t
  pool_create-Steps memory clones master version initial max pool t e r =
      Steps-Inv (record { pool = pool; held = []; waiting = 0 }) t r
        (pool_create-Inv memory clones master version initial max pool e)
