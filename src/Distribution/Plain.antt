-- ===== src/Distribution/Plain.antt =====
-- libmemcached/hosts.cc: `update_continuum` when the continuum is not weighted; every live server
-- has the same number of points.
use libmemcached.Prelude.{
  if◌then◌else◌, ℕ, suc, ◌*◌, ◌≤◌, ◌<◌, ◌≡◌, ◌≢◌, refl, sym, ap, subst, inl, inr, List, [], ◌∷◌,
  Bool, true, false, arith, length, All, Bool-cases, length-append,
}
use libmemcached.Distribution.State.{Server, Point, Memcached, World, server_count}
use libmemcached.Distribution.Continuum.{
  Plan, plan_of, server_points, total_weight, is_live, is_spy, is_consistent, count_live,
  points_per_server_plain, update_continuum_at,
}
use libmemcached.Distribution.Dispatch.{dispatch_host}
use libmemcached.Distribution.Points.{ring_points, length-key_points}
use libmemcached.Distribution.Update.{IsValidHost, IsAllocated, ring, live_servers, Filled}
use libmemcached.Distribution.Rebuild.{max_hosts, per_server, update_continuum_at-Filled}
use libmemcached.Distribution.Routing.{RoutesBy, Holds-RoutesBy}
use libmemcached.Distribution.Members.{own, ring-live, ring-ejected}

-- The plan of an unweighted continuum: one value a key, and the same points for all.
abbrev pub plain_plan : World → Memcached → ℕ → Plan
plain_plan w memc now = record {
  digest = w.digest;
  weighted = false;
  spy = is_spy memc.distribution;
  auto_eject = memc.auto_eject_hosts;
  now = now;
  server_points = λ s. points_per_server_plain;
}

plain-points :
    (w : World) (memc : Memcached) (total live : ℕ)
    → memc.ketama.weighted ≡ false
    → server_points w memc total live ≡ (λ s. points_per_server_plain)
unfolding server_points
plain-points w memc total live e = rw e

pub plan_of-plain :
    (w : World) (memc : Memcached) (now live : ℕ)
    → memc.ketama.weighted ≡ false
    → plan_of w memc now live ≡ plain_plan w memc now
unfolding plan_of
plan_of-plain w memc now live e =
    rw (plain-points w memc (total_weight memc.auto_eject_hosts now memc.servers) live e, e)

pub plain-length :
    (w : World) (memc : Memcached) (now host : ℕ) (ss : List Server)
    → length (ring_points (plain_plan w memc now) host ss)
      ≡ count_live memc.auto_eject_hosts now ss * points_per_server_plain
unfolding count_live
plain-length w memc now host [] = unfold ring_points in refl
plain-length w memc now host (s ∷ ss) =
    let plan = plain_plan w memc now in
    elim (Bool-cases (is_live memc.auto_eject_hosts now s)) [
      | inl e ↦ rw (ring-live plan host s ss e) (
          rw (e, count_live)
            (omega (
              arith,
              length-append (own plan host s) (ring_points plan (suc host) ss),
              length-key_points plan s host 100 0,
              plain-length w memc now (suc host) ss,
            )))
      | inr e ↦
          rw (ring-ejected plan host s ss e)
            (rw (e, count_live) (plain-length w memc now (suc host) ss))
    ]

-- What a rebuild without weights needs: memory, names that fit, a length that is recorded,
-- a server that is not ejected, and no more servers than the assertion in front of `qsort` allows.
pub record Ready (w : World) (memc : Memcached) (now : ℕ) : Type 0 where
  pub memory : w.realloc ≡ true
  pub consistent : is_consistent memc.distribution ≡ true
  pub plain : memc.ketama.weighted ≡ false
  pub valid : All IsValidHost memc.servers
  pub allocated : IsAllocated memc.ketama
  pub alive : live_servers memc now ≢ 0
  pub few : server_count memc ≤ max_hosts

module _ (w : World) (memc : Memcached) (now : ℕ) (ready : Ready w memc now) where
  abbrev pub plain_ring : List Point
  plain_ring = ring_points (plain_plan w memc now) 0 memc.servers

  ring-plain : ring w memc now ≡ plain_ring
  ring-plain =
      ap (λ p. ring_points p 0 memc.servers)
        (plan_of-plain w memc now (live_servers memc now) ready.plain)

  room : length (ring w memc now) ≤ live_servers memc now * per_server memc.ketama
  room = omega (
    arith,
    ap length ring-plain,
    plain-length w memc now 0 memc.servers,
    ap (λ (b : Bool). live_servers memc now * (if b then 160 else 100)) ready.plain,
  )

  pub plain-Filled : Filled memc plain_ring (update_continuum_at w memc now)
  plain-Filled =
      subst (λ ps. Filled memc ps (update_continuum_at w memc now)) ring-plain
        (update_continuum_at-Filled w memc now ready.memory ready.valid ready.allocated room
          ready.few ready.alive)

  some_points : 0 < length plain_ring
  some_points = ground (arith, plain-length w memc now 0 memc.servers, ready.alive)

  pub plain-RoutesBy :
      (rnd hash : ℕ)
      → RoutesBy plain_ring hash (dispatch_host (update_continuum_at w memc now).1 rnd hash)
  plain-RoutesBy rnd hash =
      let r = update_continuum_at w memc now in
      Holds-RoutesBy r.1 plain_ring rnd hash
        (subst (λ (m : Memcached). is_consistent m.distribution ≡ true) (sym plain-Filled.rest)
          ready.consistent)
        plain-Filled.holds some_points
