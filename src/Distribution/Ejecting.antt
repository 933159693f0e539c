-- ===== src/Distribution/Ejecting.antt =====
-- libmemcached/hosts.cc: a server is ejected, its `next_retry` now lying ahead, and the continuum is
-- rebuilt.
use libmemcached.Prelude.{
  ℕ, zero, suc, ◌+◌, ◌≤◌, ◌/◌, ◌<◌, ◌≡◌, ◌≢◌, sym, ap, subst, ◌∙◌, inl, inr, List, [], ◌∷◌, ◌++◌,
  true, false, some, Option, arith, length, All, Bool-cases,
}
use mathlib.Core.Option.{some-injective}
use libmemcached.Distribution.State.{Server, Point, Memcached, World}
use libmemcached.Distribution.Continuum.{Plan, is_live, update_continuum_at, points_per_hash}
use libmemcached.Distribution.Dispatch.{dispatch_host}
use libmemcached.Distribution.Points.{ring_points}
use libmemcached.Distribution.Update.{IsValidHost, live_servers}
use libmemcached.Distribution.Routing.{RoutesBy}
use libmemcached.Distribution.Ring.{Has, Has-append, Has-self, All-Has, IsSuccessor-unique}
use libmemcached.Distribution.Members.{
  own, ring-live, ring-ejected, ring_points-index, key_points-index,
}
use libmemcached.Distribution.Shift.{IsSuccessor-shrink}
use libmemcached.Distribution.Plain.{Ready, plain_plan, plain_ring, plain-RoutesBy}

-- Server `i` is not tried again before `t`.
unfoldable pub eject : ℕ → ℕ → List Server → List Server
eject i t [] = []
eject zero t (s ∷ ss) = record s { next_retry = t } ∷ ss
eject (suc i) t (s ∷ ss) = s ∷ eject i t ss

Has-left : (p : Point) (ps qs : List Point) → Has p ps → Has p (ps ++ qs)
Has-left p [] qs m = absurd m
Has-left p (q ∷ ps) qs (inl e) = inl e
Has-left p (q ∷ ps) qs (inr m) = inr (Has-left p ps qs m)

Has-right : (p : Point) (ps qs : List Point) → Has p qs → Has p (ps ++ qs)
Has-right p [] qs m = m
Has-right p (q ∷ ps) qs m = inr (Has-right p ps qs m)

empty_ring : (plan : Plan) (host : ℕ) (p : Point) → ¬ Has p (ring_points plan host [])
unfolding ring_points
empty_ring plan host p m = m

module _ (plan : Plan) (t : ℕ) (ejecting : plan.auto_eject ≡ true) (later : plan.now < t) where
  not_live : (s : Server) → is_live plan.auto_eject plan.now (record s { next_retry = t }) ≡ false
  not_live s = rw ejecting (ground arith)

  eject-Has :
      (host i : ℕ) (ss : List Server) (p : Point)
      → Has p (ring_points plan host (eject i t ss))
      → Has p (ring_points plan host ss)
  unfolding eject
  eject-Has host i [] p m = m
  eject-Has host zero (s ∷ ss) p m =
      let m' =
        subst (Has p) (ring-ejected plan host (record s { next_retry = t }) ss (not_live s)) m in
      elim (Bool-cases (is_live plan.auto_eject plan.now s)) [
        | inl e ↦
            rw (ring-live plan host s ss e)
              (Has-right p (own plan host s) (ring_points plan (suc host) ss) m')
        | inr e ↦ rw (ring-ejected plan host s ss e) m'
      ]
  eject-Has host (suc i) (s ∷ ss) p m = elim (Bool-cases (is_live plan.auto_eject plan.now s)) [
    | inl e ↦
        rw (ring-live plan host s ss e)
          (elim (Has-append p (own plan host s) (ring_points plan (suc host) (eject i t ss))
            (subst (Has p) (ring-live plan host s (eject i t ss) e) m)) [
              | inl a ↦ Has-left p (own plan host s) (ring_points plan (suc host) ss) a
              | inr b ↦
                  Has-right p (own plan host s) (ring_points plan (suc host) ss)
                    (eject-Has (suc host) i ss p b)
            ])
    | inr e ↦
        rw (ring-ejected plan host s ss e) (
          eject-Has (suc host) i ss p (subst (Has p) (ring-ejected plan host s (eject i t ss) e) m))
  ]

  eject-keeps :
      (host i : ℕ) (ss : List Server) (p : Point)
      → Has p (ring_points plan host ss)
      → p.index ≢ host + i
      → Has p (ring_points plan host (eject i t ss))
  unfolding eject
  eject-keeps host i [] p m other = m
  eject-keeps host zero (s ∷ ss) p m other =
      rw (ring-ejected plan host (record s { next_retry = t }) ss (not_live s))
        (elim (Bool-cases (is_live plan.auto_eject plan.now s)) [
          | inl e ↦
              elim (Has-append p (own plan host s) (ring_points plan (suc host) ss)
                (subst (Has p) (ring-live plan host s ss e) m)) [
                  | inl a ↦ absurd (
                      other (
                        omega (
                          arith,
                          All-Has (λ q. q.index ≡ host) (own plan host s)
                              (key_points-index plan s host
                                (plan.server_points s / points_per_hash plan) 0)
                              a,
                        )))
                  | inr b ↦ b
                ]
          | inr e ↦ subst (Has p) (ring-ejected plan host s ss e) m
        ])
  eject-keeps host (suc i) (s ∷ ss) p m other =
      elim (Bool-cases (is_live plan.auto_eject plan.now s)) [
        | inl e ↦
            rw (ring-live plan host s (eject i t ss) e)
              (elim (Has-append p (own plan host s) (ring_points plan (suc host) ss)
                (subst (Has p) (ring-live plan host s ss e) m)) [
                  | inl a ↦
                      Has-left p (own plan host s) (ring_points plan (suc host) (eject i t ss)) a
                  | inr b ↦
                      Has-right p (own plan host s) (ring_points plan (suc host) (eject i t ss))
                        (eject-keeps (suc host) i ss p b (λ q. other (omega (arith, q))))
                ])
        | inr e ↦ rw (ring-ejected plan host s (eject i t ss) e) (
            eject-keeps (suc host) i ss p (subst (Has p) (ring-ejected plan host s ss e) m)
              (λ q. other (omega (arith, q))))
      ]

  -- No point of the ejected server is left.
  eject-gone :
      (host i : ℕ) (ss : List Server) (p : Point)
      → Has p (ring_points plan host (eject i t ss))
      → p.index ≢ host + i
  unfolding eject
  eject-gone host i [] p m same = empty_ring plan host p m
  eject-gone host zero (s ∷ ss) p m same =
      let m' =
        subst (Has p) (ring-ejected plan host (record s { next_retry = t }) ss (not_live s)) m in
      absurd (
        omega (
          arith,
          same,
          (All-Has (λ q. (suc host ≤ q.index) × (q.index < suc host + length ss))
              (ring_points plan (suc host) ss) (ring_points-index plan (suc host) ss) m').0,
        ))
  eject-gone host (suc i) (s ∷ ss) p m same =
      elim (Bool-cases (is_live plan.auto_eject plan.now s)) [
        | inl e ↦
            elim (Has-append p (own plan host s) (ring_points plan (suc host) (eject i t ss))
              (subst (Has p) (ring-live plan host s (eject i t ss) e) m)) [
                | inl a ↦ absurd (
                    omega (
                      arith,
                      same,
                      All-Has (λ q. q.index ≡ host) (own plan host s)
                          (key_points-index plan s host
                            (plan.server_points s / points_per_hash plan) 0)
                          a,
                    ))
                | inr b ↦ eject-gone (suc host) i ss p b (omega (arith, same))
              ]
        | inr e ↦
            eject-gone (suc host) i ss p
              (subst (Has p) (ring-ejected plan host s (eject i t ss) e) m) (omega (arith, same))
      ]

eject-valid : (i t : ℕ) (ss : List Server) → All IsValidHost ss → All IsValidHost (eject i t ss)
unfolding eject
eject-valid i t [] h = tt
eject-valid zero t (s ∷ ss) h = h
eject-valid (suc i) t (s ∷ ss) h = (h.0, eject-valid i t ss h.1)

length-eject : (i t : ℕ) (ss : List Server) → length (eject i t ss) ≡ length ss
unfolding eject
length-eject i t [] = omega arith
length-eject zero t (s ∷ ss) = omega arith
length-eject (suc i) t (s ∷ ss) = omega (arith, length-eject i t ss)

-- The list of `memc` with server `i` out until `t`.
abbrev pub without : Memcached → ℕ → ℕ → Memcached
without memc i t = record memc { servers = eject i t memc.servers }

module _ (w : World) (memc : Memcached) (now i t : ℕ) (ready : Ready w memc now)
    (ejecting : memc.auto_eject_hosts ≡ true) (later : now < t)
    (others : live_servers (without memc i t) now ≢ 0) where
  without-Ready : Ready w (without memc i t) now
  without-Ready = record {
    memory = ready.memory;
    consistent = ready.consistent;
    plain = ready.plain;
    valid = eject-valid i t memc.servers ready.valid;
    allocated = ready.allocated;
    alive = others;
    few = omega (arith, ready.few, length-eject i t memc.servers);
  }

  abbrev plan : Plan
  plan = plain_plan w memc now

  stay :
      (hash : ℕ) {a b : Option ℕ}
      → RoutesBy (plain_ring w memc now ready) hash a
      → RoutesBy (plain_ring w (without memc i t) now without-Ready) hash b
      → (b ≢ some i) × (a ≢ some i → b ≡ a)
  stay hash (p, e, s) (q, f, u) = (
    λ g.
        eject-gone plan t ejecting later 0 i memc.servers q u.member
          (some-injective q.index i (sym f ∙ g) ∙ omega arith),
    λ other.
        f
        ∙ ap (λ (r : Point). some r.index)
            (IsSuccessor-unique (ring_points plan 0 (eject i t memc.servers)) hash u (
              IsSuccessor-shrink (ring_points plan 0 memc.servers)
                (ring_points plan 0 (eject i t memc.servers)) hash s
                (Has-self (ring_points plan 0 memc.servers)
                  (ring_points plan 0 (eject i t memc.servers))
                  (eject-Has plan t ejecting later 0 i memc.servers))
                (eject-keeps plan t ejecting later 0 i memc.servers p s.member
                  (λ g. other (e ∙ ap some (g ∙ omega arith))))))
        ∙ sym e,
  )

-- On an ejecting client that is ready for a rebuild without weights: if the retry time of server
-- `i` is set to lie ahead and another server is live, the rebuild leaves no hash that is dispatched
-- to `i`.
pub update_continuum_at-eject :
    (w : World) (memc : Memcached) (now i t rnd hash : ℕ)
    → Ready w memc now
    → memc.auto_eject_hosts ≡ true
    → now < t
    → live_servers (without memc i t) now ≢ 0
    → dispatch_host (update_continuum_at w (without memc i t) now).1 rnd hash ≢ some i
update_continuum_at-eject w memc now i t rnd hash ready ejecting later others =
    (stay w memc now i t ready ejecting later others hash (plain-RoutesBy w memc now ready rnd hash)
      (plain-RoutesBy w (without memc i t) now
        (without-Ready w memc now i t ready ejecting later others) rnd hash)).0

-- On an ejecting client that is ready for a rebuild without weights: if the retry time of server
-- `i` is set to lie ahead and another server is live, a hash that was dispatched to another server
-- than `i` is still dispatched there.
pub update_continuum_at-stay :
    (w : World) (memc : Memcached) (now i t rnd hash : ℕ)
    → Ready w memc now
    → memc.auto_eject_hosts ≡ true
    → now < t
    → live_servers (without memc i t) now ≢ 0
    → dispatch_host (update_continuum_at w memc now).1 rnd hash ≢ some i
    → dispatch_host (update_continuum_at w (without memc i t) now).1 rnd hash
      ≡ dispatch_host (update_continuum_at w memc now).1 rnd hash
update_continuum_at-stay w memc now i t rnd hash ready ejecting later others =
    (stay w memc now i t ready ejecting later others hash (plain-RoutesBy w memc now ready rnd hash)
      (plain-RoutesBy w (without memc i t) now
        (without-Ready w memc now i t ready ejecting later others) rnd hash)).1
