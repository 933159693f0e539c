-- ===== src/Distribution/Target.antt =====
-- libmemcached/hash.cc over hosts.cc: the index that a hash is given names a server.
use Prim.Native.Nat.{bit_and}
use libmemcached.Prelude.{
  ◌*◌, ◌/◌, ℕ, suc, ◌+◌, ◌-◌, ◌%◌, ◌≤◌, ◌<◌, ◌≡◌, ◌≢◌, refl, sym, ap, subst, ◌∙◌, inl, inr, List,
  [], ◌∷◌, Bool, true, false, some, none, arith, length, get_elem?, All, Bool-cases, ◌==◌,
}
use libmemcached.Prelude.Bits.{bit_and-le}
use libmemcached.Prelude.Words.{u32_mod}
use libmemcached.Return.{success}
use libmemcached.Distribution.State.{
  Distribution, modula, random, virtual_bucket, consistent_max, Server, Point, Memcached, World,
  server_count, number_of_hosts,
}
use libmemcached.Distribution.Continuum.{
  Plan, is_live, is_consistent, update_continuum_at, update_continuum, run_distribution,
  sorted_hosts, points_per_hash, is_valid_size,
}
use libmemcached.Distribution.Dispatch.{dispatch_host, remainder, virtual_bucket_get}
use libmemcached.Distribution.Points.{ring_points}
use libmemcached.Distribution.Update.{IsValidHost, IsAllocated, live_servers, ring}
use libmemcached.Distribution.Rebuild.{max_hosts, per_server, update_continuum_at-Filled}
use libmemcached.Distribution.Routing.{RoutesBy, Holds-RoutesBy}
use libmemcached.Distribution.Ring.{Has, Has-append, All-Has}
use libmemcached.Distribution.Members.{own, ring-live, ring-ejected, key_points-index}
use libmemcached.Distribution.Plain.{Ready, plain_plan, plain_ring, plain-RoutesBy}

-- Server `j` of the list is one that takes part.
abbrev pub IsLiveAt : Bool → ℕ → List Server → ℕ → Type 0
IsLiveAt eject now ss j = (s : Server) × (get_elem? ss j ≡ some s) × (is_live eject now s ≡ true)

empty_ring : (plan : Plan) (host : ℕ) (p : Point) → ¬ Has p (ring_points plan host [])
unfolding ring_points
empty_ring plan host p m = m

-- Each point of the ring is a live server's.
ring_points-live :
    (plan : Plan) (host : ℕ) (ss : List Server) (p : Point)
    → Has p (ring_points plan host ss)
    → (j : ℕ) × (p.index ≡ host + j) × IsLiveAt plan.auto_eject plan.now ss j
ring_points-live plan host [] p m = absurd (empty_ring plan host p m)
ring_points-live plan host (s ∷ ss) p m = elim (Bool-cases (is_live plan.auto_eject plan.now s)) [
  | inl e ↦
      elim (Has-append p (own plan host s) (ring_points plan (suc host) ss)
        (subst (Has p) (ring-live plan host s ss e) m)) [
          | inl a ↦ (
            0,
            All-Has (λ q. q.index ≡ host) (own plan host s)
                  (key_points-index plan s host (plan.server_points s / points_per_hash plan) 0) a
                ∙ omega arith,
            (s, refl, e),
          )
          | inr b ↦ next (ring_points-live plan (suc host) ss p b)
        ]
  | inr e ↦
      next (ring_points-live plan (suc host) ss p (subst (Has p) (ring-ejected plan host s ss e) m))
]
  where
    next :
        ((j : ℕ) × (p.index ≡ suc host + j) × IsLiveAt plan.auto_eject plan.now ss j)
        → (j : ℕ) × (p.index ≡ host + j) × IsLiveAt plan.auto_eject plan.now (s ∷ ss) j
    next (j, e, l) = (suc j, e ∙ omega arith, l)

-- On a client that is ready for a rebuild without weights, after the rebuild each hash is
-- dispatched to the index of a server in the list that is not ejected.
pub update_continuum_at-live :
    (w : World) (memc : Memcached) (now rnd hash : ℕ)
    → Ready w memc now
    → (j : ℕ) × (dispatch_host (update_continuum_at w memc now).1 rnd hash ≡ some j)
      × IsLiveAt memc.auto_eject_hosts now memc.servers j
update_continuum_at-live w memc now rnd hash ready = go (plain-RoutesBy w memc now ready rnd hash)
  where
    go :
        RoutesBy
          (plain_ring w memc now ready)
          hash
          (dispatch_host (update_continuum_at w memc now).1 rnd hash)
        → (j : ℕ) × (dispatch_host (update_continuum_at w memc now).1 rnd hash ≡ some j)
          × IsLiveAt memc.auto_eject_hosts now memc.servers j
    go (p, e, s) =
        let (j, f, l) = ring_points-live (plain_plan w memc now) 0 memc.servers p s.member in
        (j, e ∙ ap some (f ∙ omega arith), l)

remainder-bounded : (a n : ℕ) → 0 < n → (j : ℕ) × (remainder a n ≡ some j) × (j < n)
remainder-bounded a n h = elim (Bool-cases (n == 0)) [
  | inl e ↦ absurd (ground arith)
  | inr e ↦ (a % n, rw (e, remainder), ground arith)
]

masked : (hash n : ℕ) → 0 < n → n < u32_mod → bit_and hash ((u32_mod + n - 1) % u32_mod) < n
masked hash n h k = omega (arith, bit_and-le hash ((u32_mod + n - 1) % u32_mod))

-- With this number of hosts.
bounded_at :
    (memc : Memcached) (rnd hash n : ℕ) (d : Distribution)
    → memc.distribution ≡ d
    → is_consistent d ≡ false
    → memc.buckets ≡ none
    → 0 < n
    → n < u32_mod
    → number_of_hosts memc ≡ n
    → (j : ℕ) × (dispatch_host memc rnd hash ≡ some j) × (j < n)
unfolding dispatch_host virtual_bucket_get
bounded_at memc rnd hash n modula e c b h k f =
    rw (e, dispatch_host, f) (remainder-bounded hash n h)
bounded_at memc rnd hash n consistent_max e c b h k f =
    rw (e, dispatch_host, f) (remainder-bounded hash n h)
bounded_at memc rnd hash n random e c b h k f =
    rw (e, dispatch_host, f) (remainder-bounded (rnd % u32_mod) n h)
bounded_at memc rnd hash n virtual_bucket e c b h k f =
    rw (e, dispatch_host) (rw (b, virtual_bucket_get, f) (_, refl, masked hash n h k))
bounded_at memc rnd hash n other e c b h k f = ground arith

-- Under the distributions that are not consistent, without a table of buckets and with at least
-- one server and fewer than 2 ^ 32, every hash is dispatched to an index below the number of servers.
pub dispatch_host-bounded :
    (memc : Memcached) (rnd hash : ℕ)
    → is_consistent memc.distribution ≡ false
    → memc.buckets ≡ none
    → 0 < server_count memc
    → server_count memc < u32_mod
    → (j : ℕ) × (dispatch_host memc rnd hash ≡ some j) × (j < server_count memc)
dispatch_host-bounded memc rnd hash c b h k =
    bounded_at memc rnd hash (server_count memc) memc.distribution refl c b h k (omega arith)

-- What `run_distribution` needs to rebuild the continuum at the time `now`.
pub record CanRun (w : World) (memc : Memcached) (now : ℕ) : Type 0 where
  pub clock : w.clock ≡ some now
  pub memory : w.realloc ≡ true
  pub consistent : is_consistent memc.distribution ≡ true
  pub valid : All IsValidHost memc.servers
  pub allocated : IsAllocated memc.ketama
  pub room : length (ring w memc now) ≤ live_servers memc now * per_server memc.ketama
  pub alive : live_servers memc now ≢ 0
  pub few : server_count memc ≤ max_hosts
  pub some_points : 0 < length (ring w memc now)

valid_size : (memc : Memcached) → server_count memc ≤ max_hosts → is_valid_size memc ≡ true
valid_size memc h = ground arith

run-eq :
    (w : World) (memc : Memcached) (now : ℕ)
    → CanRun w (sorted_hosts memc) now
    → run_distribution w memc ≡ update_continuum_at w (sorted_hosts memc) now
unfolding run_distribution update_continuum
run-eq w memc now can = rw (can.consistent) (rw (can.clock))

-- For a consistent distribution, given a clock, memory, host names that fit, a continuum whose
-- recorded length is its own, at most a hundred servers, one of which is not ejected, and at least
-- one point but no more than the array is asked to hold: the assertion in front of `qsort` holds,
-- `run_distribution` succeeds, weighted or not, and then a hash is dispatched to the owner of its
-- successor on the ring of the live servers.
pub run_distribution-routes :
    (w : World) (memc : Memcached) (now rnd hash : ℕ)
    → CanRun w (sorted_hosts memc) now
    → (is_valid_size (sorted_hosts memc) ≡ true)
      × ((run_distribution w memc).0 ≡ success)
      × RoutesBy
          (ring w (sorted_hosts memc) now)
          hash
          (dispatch_host (run_distribution w memc).1 rnd hash)
run_distribution-routes w memc now rnd hash can =
    let m = sorted_hosts memc in
    let f =
      update_continuum_at-Filled w m now can.memory can.valid can.allocated can.room can.few
        can.alive in
    rw (run-eq w memc now can) (
      valid_size m can.few,
      f.rc,
      Holds-RoutesBy (update_continuum_at w m now).1 (ring w m now) rnd hash
          (subst (λ (m : Memcached). is_consistent m.distribution ≡ true) (sym f.rest)
            can.consistent)
          f.holds can.some_points,
    )
