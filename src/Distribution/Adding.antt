-- ===== src/Distribution/Adding.antt =====
-- libmemcached/hosts.cc: a server joins at the end of the list and the continuum is rebuilt.
use libmemcached.Prelude.{
  ℕ, ◌+◌, ◌≤◌, ◌<◌, ◌≡◌, sym, ap, subst, ◌∙◌, ◌⊎◌, inl, inr, List, [], ◌∷◌, ◌++◌, Bool, true, some,
  Option, arith, All, length-append, All-append, Bool-cases,
}
use libmemcached.Distribution.State.{Server, Point, Memcached, World, server_count}
use libmemcached.Distribution.Continuum.{
  Plan, count_live, is_live, is_consistent, update_continuum_at,
}
use libmemcached.Distribution.Dispatch.{dispatch_host}
use libmemcached.Distribution.Points.{ring_points}
use libmemcached.Distribution.Rebuild.{max_hosts}
use libmemcached.Distribution.Update.{IsValidHost}
use libmemcached.Distribution.Routing.{RoutesBy}
use libmemcached.Distribution.Ring.{All-Has, IsSuccessor-unique, IsSuccessor-append}
use libmemcached.Distribution.Members.{ring_points-append, ring_points-index}
use libmemcached.Distribution.Plain.{Ready, plain_plan, plain_ring, plain-Filled, plain-RoutesBy}

-- The server list of `memc` with one more server.
abbrev pub with_server : Memcached → Server → Memcached
with_server memc s = record memc { servers = memc.servers ++ s ∷ [] }

-- More points send a hash to one of them, or leave it where it was.
RoutesBy-append :
    (ps qs : List Point) (hash n : ℕ) {a b : Option ℕ}
    → RoutesBy ps hash a
    → RoutesBy (ps ++ qs) hash b
    → All (λ p. p.index ≡ n) qs
    → (b ≡ a) ⊎ (b ≡ some n)
RoutesBy-append ps qs hash n (p, e, s) (q, f, t) h = elim (IsSuccessor-append ps qs hash t) [
  | inl u ↦ inl (f ∙ ap (λ (r : Point). some r.index) (IsSuccessor-unique ps hash u s) ∙ sym e)
  | inr m ↦ inr (f ∙ ap some (All-Has (λ r. r.index ≡ n) qs h m))
]

count_live-append :
    (eject : Bool) (now : ℕ) (ss ts : List Server)
    → count_live eject now (ss ++ ts) ≡ count_live eject now ss + count_live eject now ts
unfolding count_live
count_live-append eject now [] ts = omega arith
count_live-append eject now (s ∷ ss) ts = elim (Bool-cases (is_live eject now s)) [
  | inl e ↦ rw (e, count_live) (omega (arith, count_live-append eject now ss ts))
  | inr e ↦ rw (e, count_live) (count_live-append eject now ss ts)
]

one_index :
    (plan : Plan) (n : ℕ) (s : Server) → All (λ p. p.index ≡ n) (ring_points plan n (s ∷ []))
one_index plan n s = go (ring_points plan n (s ∷ [])) (ring_points-index plan n (s ∷ []))
  where
    go :
        (ps : List Point)
        → All (λ p. (n ≤ p.index) × (p.index < n + 1)) ps
        → All (λ p. p.index ≡ n) ps
    go [] h = tt
    go (p ∷ ps) h = (omega (arith, h.0.0, h.0.1), go ps h.1)

module _ (w : World) (memc : Memcached) (now : ℕ) (s : Server) (ready : Ready w memc now)
    (valid : IsValidHost s) (more : server_count memc < max_hosts) where
  abbrev before : Memcached
  before = (update_continuum_at w memc now).1

  abbrev joined : Memcached
  joined = with_server before s

  joined-Ready : Ready w joined now
  joined-Ready =
      let f = plain-Filled w memc now ready in
      let same = f.rest in
      let m = λ (m : Memcached). m in
      record {
        memory = ready.memory;
        consistent =
            subst (λ (m : Memcached). is_consistent m.distribution ≡ true) (sym f.rest)
              ready.consistent;
        plain = f.weighted ∙ ready.plain;
        valid =
            All-append IsValidHost before.servers (s ∷ [])
              (subst (λ (m : Memcached). All IsValidHost m.servers) (sym f.rest) ready.valid)
              (valid, tt);
        allocated = f.holds.allocated;
        alive = λ e. ready.alive (
            omega (
              arith,
              e,
              count_live-append before.auto_eject_hosts now before.servers (s ∷ []),
              ap (λ (m : Memcached). count_live m.auto_eject_hosts now m.servers) f.rest,
            ));
        few = omega (
          arith,
          more,
          ap (λ (m : Memcached). server_count m) f.rest,
          length-append before.servers (s ∷ []),
        );
      }

  joined-ring :
      plain_ring w joined now joined-Ready
      ≡ plain_ring w memc now ready
        ++ ring_points (plain_plan w memc now) (server_count memc) (s ∷ [])
  joined-ring =
      ap (λ (m : Memcached). ring_points (plain_plan w m now) 0 (m.servers ++ s ∷ []))
        (plain-Filled w memc now ready).rest
      ∙ ring_points-append (plain_plan w memc now) 0 memc.servers (s ∷ [])
      ∙ ap (λ n. plain_ring w memc now ready ++ ring_points (plain_plan w memc now) n (s ∷ []))
          (omega arith)

  move :
      (rnd hash : ℕ)
      → (dispatch_host (update_continuum_at w joined now).1 rnd hash
          ≡ dispatch_host before rnd hash)
        ⊎ (dispatch_host (update_continuum_at w joined now).1 rnd hash ≡ some (server_count memc))
  move rnd hash =
      let extra = ring_points (plain_plan w memc now) (server_count memc) (s ∷ []) in
      let out = dispatch_host (update_continuum_at w joined now).1 rnd hash in
      RoutesBy-append (plain_ring w memc now ready) extra hash (server_count memc)
        (plain-RoutesBy w memc now ready rnd hash)
        (subst (λ ps. RoutesBy ps hash out) joined-ring
          (plain-RoutesBy w joined now joined-Ready rnd hash))
        (one_index (plain_plan w memc now) (server_count memc) s)

-- On a client that is ready for a rebuild without weights, and is rebuilt: when a server whose name
-- fits is put behind the others, fewer than a hundred, and the continuum is rebuilt at the same time, each hash is
-- dispatched as before or to the new server.
pub update_continuum_at-add :
    (w : World) (memc : Memcached) (now rnd hash : ℕ) (s : Server)
    → Ready w memc now
    → IsValidHost s
    → server_count memc < max_hosts
    → (dispatch_host
          (update_continuum_at w (with_server (update_continuum_at w memc now).1 s) now).1
          rnd
          hash
        ≡ dispatch_host (update_continuum_at w memc now).1 rnd hash)
      ⊎ (dispatch_host
            (update_continuum_at w (with_server (update_continuum_at w memc now).1 s) now).1
            rnd
            hash
          ≡ some (server_count memc))
update_continuum_at-add w memc now rnd hash s ready valid more =
    move w memc now s ready valid more rnd hash
