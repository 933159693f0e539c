-- ===== src/Distribution/Members.antt =====
-- libmemcached/hosts.cc: whose points are on the ring, when servers join or are ejected.
use libmemcached.Prelude.{
  ℕ, zero, suc, ◌+◌, ◌/◌, ◌≤◌, ◌<◌, ◌≡◌, refl, sym, ap, ◌∙◌, inl, inr, List, [], ◌∷◌, ◌++◌, true,
  false, arith, length, map, All, All-append, Bool-cases, append_assoc,
}
use libmemcached.Distribution.State.{Server, Point}
use libmemcached.Distribution.HostKey.{sort_host}
use libmemcached.Distribution.Continuum.{Plan, is_live, key_values, points_per_hash}
use libmemcached.Distribution.Points.{ring_points, key_points}

-- The points that server `s` at the index `host` contributes.
abbrev pub own : Plan → ℕ → Server → List Point
own plan host s = key_points plan s host (plan.server_points s / points_per_hash plan) 0

All-map :
    (host : ℕ) (vs : List ℕ)
    → All (λ (p : Point). p.index ≡ host) (map (λ v. record { index = host; value = v }) vs)
All-map host [] = tt
All-map host (v ∷ vs) = (refl, All-map host vs)

pub key_points-index :
    (plan : Plan) (s : Server) (host n i : ℕ)
    → All (λ p. p.index ≡ host) (key_points plan s host n i)
unfolding key_points
key_points-index plan s host zero i = tt
key_points-index plan s host (suc n) i =
    All-append (λ p. p.index ≡ host)
      (map (λ v. record { index = host; value = v }) (key_values plan (sort_host plan.spy s i)))
      (key_points plan s host n (suc i)) (All-map host (key_values plan (sort_host plan.spy s i)))
      (key_points-index plan s host n (suc i))

pub ring-live :
    (plan : Plan) (host : ℕ) (s : Server) (ss : List Server)
    → is_live plan.auto_eject plan.now s ≡ true
    → ring_points plan host (s ∷ ss) ≡ own plan host s ++ ring_points plan (suc host) ss
unfolding ring_points
ring-live plan host s ss e = rw (e, ring_points)

pub ring-ejected :
    (plan : Plan) (host : ℕ) (s : Server) (ss : List Server)
    → is_live plan.auto_eject plan.now s ≡ false
    → ring_points plan host (s ∷ ss) ≡ ring_points plan (suc host) ss
unfolding ring_points
ring-ejected plan host s ss e = rw (e, ring_points)

-- Servers at the end add their points at the end.
pub ring_points-append :
    (plan : Plan) (host : ℕ) (ss ts : List Server)
    → ring_points plan host (ss ++ ts)
      ≡ ring_points plan host ss ++ ring_points plan (host + length ss) ts
ring_points-append plan host [] ts =
    unfold ring_points in ap (λ n. ring_points plan n ts) (omega arith)
ring_points-append plan host (s ∷ ss) ts =
    let rest =
      ring_points-append plan (suc host) ss ts
      ∙ ap (λ n. ring_points plan (suc host) ss ++ ring_points plan n ts) (omega arith) in
    elim (Bool-cases (is_live plan.auto_eject plan.now s)) [
      | inl e ↦
          rw (ring-live plan host s (ss ++ ts) e, ring-live plan host s ss e, rest)
            (sym (
              append_assoc (own plan host s) (ring_points plan (suc host) ss)
                (ring_points plan (host + suc (length ss)) ts)))
      | inr e ↦ rw (ring-ejected plan host s (ss ++ ts) e, ring-ejected plan host s ss e) rest
    ]

-- Every point belongs to one of the servers.
pub ring_points-index :
    (plan : Plan) (host : ℕ) (ss : List Server)
    → All (λ p. (host ≤ p.index) × (p.index < host + length ss)) (ring_points plan host ss)
ring_points-index plan host [] = unfold ring_points in tt
ring_points-index plan host (s ∷ ss) = elim (Bool-cases (is_live plan.auto_eject plan.now s)) [
  | inl e ↦ rw (ring-live plan host s ss e) (
      All-append (λ p. (host ≤ p.index) × (p.index < host + suc (length ss))) (own plan host s)
        (ring_points plan (suc host) ss)
        (weaken_own (own plan host s)
          (key_points-index plan s host (plan.server_points s / points_per_hash plan) 0))
        (weaken (ring_points plan (suc host) ss) (ring_points-index plan (suc host) ss)))
  | inr e ↦
      rw (ring-ejected plan host s ss e)
        (weaken (ring_points plan (suc host) ss) (ring_points-index plan (suc host) ss))
]
  where
    weaken_own :
        (ps : List Point)
        → All (λ p. p.index ≡ host) ps
        → All (λ p. (host ≤ p.index) × (p.index < host + suc (length ss))) ps
    weaken_own [] h = tt
    weaken_own (p ∷ ps) h = ((omega (arith, h.0), omega (arith, h.0)), weaken_own ps h.1)

    weaken :
        (ps : List Point)
        → All (λ p. (suc host ≤ p.index) × (p.index < suc host + length ss)) ps
        → All (λ p. (host ≤ p.index) × (p.index < host + suc (length ss))) ps
    weaken [] h = tt
    weaken (p ∷ ps) h = ((omega (arith, h.0.0), omega (arith, h.0.1)), weaken ps h.1)
