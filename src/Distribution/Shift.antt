-- ===== src/Distribution/Shift.antt =====
-- libmemcached/hash.cc: what happens to a hash when points leave the ring or join it.
use libmemcached.Prelude.{ℕ, ◌≤◌, ◌<◌, inl, inr, List, [], ◌∷◌, All}
use libmemcached.Distribution.State.{Point}
use libmemcached.Distribution.Order.{◌≼◌}
use libmemcached.Distribution.Ring.{Has, IsSuccessor, All-Has}

-- The points of `qs` are among those of `ps`.
abbrev pub Within : List Point → List Point → Type 0
Within qs ps = All (λ q. Has q ps) qs

All-Within : (P : Point → Type 0) (qs ps : List Point) → Within qs ps → All P ps → All P qs
All-Within P [] ps h a = tt
All-Within P (q ∷ qs) ps h a = (All-Has P ps a h.0, All-Within P qs ps h.1 a)

-- A successor that stays is the successor of what stays.
pub IsSuccessor-shrink :
    (ps qs : List Point) (hash : ℕ) {p : Point}
    → IsSuccessor ps hash p
    → Within qs ps
    → Has p qs
    → IsSuccessor qs hash p
IsSuccessor-shrink ps qs hash {p} s h m = record {
  member = m;
  least = elim (s.least) [
    | inl (a, f) ↦ inl (a, All-Within (λ q. hash ≤ q.value → p ≼ q) qs ps h f)
    | inr (a, f) ↦
        inr (All-Within (λ q. q.value < hash) qs ps h a, All-Within (λ q. p ≼ q) qs ps h f)
  ];
}
