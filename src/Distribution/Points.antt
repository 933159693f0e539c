-- ===== src/Distribution/Points.antt =====
-- libmemcached/hosts.cc: which points the loops of `update_continuum` write, and where.
use native.Mathlib.Nat.{div-add-mod'}
use libmemcached.Prelude.{
  ℕ, zero, suc, ◌+◌, ◌*◌, ◌/◌, ◌%◌, ◌≤◌, ◌<◌, ◌≡◌, refl, sym, ap, ◌∙◌, inl, inr, List, [], ◌∷◌,
  ◌++◌, Bool, true, false, arith, length, take, map, All, Bool-cases, leb, if◌then◌else◌,
  append-nil, append_assoc, length-append, length-set, length-map, take-set,
}
use libmemcached.Distribution.State.{Server, Point}
use libmemcached.Distribution.HostKey.{sort_host, sort_host_size}
use libmemcached.Distribution.Continuum.{
  Cursor, Plan, write_point, write_values, write_keys, write_servers, key_values, points_per_hash,
  is_live,
}

abbrev point : ℕ → ℕ → Point
point host value = record { index = host; value = value }

-- The points of a server's keys `i`, `i + 1`, …, `n` of them.
unfoldable pub key_points : Plan → Server → ℕ → ℕ → ℕ → List Point
key_points plan s host zero i = []
key_points plan s host (suc n) i =
    map (point host) (key_values plan (sort_host plan.spy s i)) ++ key_points plan s host n (suc i)

-- The points of the live servers, the first of which has the index `host`.
unfoldable pub ring_points : Plan → ℕ → List Server → List Point
ring_points plan host [] = []
ring_points plan host (s ∷ ss) =
    let rest = ring_points plan (suc host) ss in
    if is_live plan.auto_eject plan.now s
    then key_points plan s host (plan.server_points s / points_per_hash plan) 0 ++ rest
    else rest

-- From `c` to `c'` the points `ps` were written, into the cells that follow.
pub record Wrote (c : Cursor) (ps : List Point) (c' : Cursor) : Type 0 where
  pub size : length c'.continuum ≡ length c.continuum
  pub next : c'.continuum_index ≡ c.continuum_index + length ps
  pub kept : take c'.continuum_index c'.continuum ≡ take c.continuum_index c.continuum ++ ps
  pub count : c'.pointer_counter ≡ c.pointer_counter

Wrote-nil : (c : Cursor) → Wrote c [] c
Wrote-nil c = record { size = refl; next = omega arith; kept = sym (append-nil _); count = refl }

Wrote-append :
    {c c' c'' : Cursor} (ps qs : List Point)
    → Wrote c ps c'
    → Wrote c' qs c''
    → Wrote c (ps ++ qs) c''
Wrote-append ps qs w v = record {
  size = v.size ∙ w.size;
  next = omega (arith, w.next, v.next, length-append ps qs);
  kept = v.kept ∙ ap (λ l. l ++ qs) w.kept ∙ append_assoc _ ps qs;
  count = v.count ∙ w.count;
}

write_point-Wrote :
    (c : Cursor) (host value : ℕ)
    → c.continuum_index < length c.continuum
    → Wrote c (point host value ∷ []) (write_point c host value)
unfolding write_point
write_point-Wrote c host value room = record {
  size = length-set c.continuum c.continuum_index (point host value);
  next = omega arith;
  kept = take-set c.continuum c.continuum_index (point host value) room;
  count = refl;
}

write_values-Wrote :
    (vs : List ℕ) (c : Cursor) (host : ℕ)
    → c.continuum_index + length vs ≤ length c.continuum
    → Wrote c (map (point host) vs) (write_values c host vs)
unfolding write_values
write_values-Wrote [] c host room = Wrote-nil c
write_values-Wrote (v ∷ vs) c host room =
    let w = write_point-Wrote c host v (omega arith) in
    Wrote-append (point host v ∷ []) (map (point host) vs) w
      (write_values-Wrote vs (write_point c host v) host (omega (arith, w.size, w.next)))

length-key_values :
    (plan : Plan) (key : List ℕ) → length (key_values plan key) ≡ points_per_hash plan
unfolding key_values
length-key_values plan key = elim (Bool-cases plan.weighted) [
  | inl e ↦ rw (e, key_values)
  | inr e ↦ rw (e, key_values)
]

pub length-key_points :
    (plan : Plan) (s : Server) (host n i : ℕ)
    → length (key_points plan s host n i) ≡ n * points_per_hash plan
unfolding key_points
length-key_points plan s host zero i = omega arith
length-key_points plan s host (suc n) i = omega (
  arith,
  length-append (map (point host) (key_values plan (sort_host plan.spy s i)))
      (key_points plan s host n (suc i)),
  length-map (point host) (key_values plan (sort_host plan.spy s i)),
  length-key_values plan (sort_host plan.spy s i),
  length-key_points plan s host n (suc i),
)

-- Every key of the server fits its buffer.
abbrev pub Fits : Bool → Server → Type 0
Fits spy s = (i : ℕ) → length (sort_host spy s i) < sort_host_size spy

fits-leb : (a b : ℕ) → a < b → leb b a ≡ false
fits-leb a b h = ground arith

write_keys-Wrote :
    (plan : Plan) (s : Server) (host n i : ℕ) (c : Cursor)
    → Fits plan.spy s
    → c.continuum_index + n * points_per_hash plan ≤ length c.continuum
    → ((write_keys plan s host n i c).0 ≡ true)
      × Wrote c (key_points plan s host n i) ((write_keys plan s host n i c).1)
unfolding write_keys key_points
write_keys-Wrote plan s host zero i c fits room = (refl, Wrote-nil c)
write_keys-Wrote plan s host (suc n) i c fits room =
    let vs = key_values plan (sort_host plan.spy s i) in
    let w =
      write_values-Wrote vs c host
        (omega (arith, length-key_values plan (sort_host plan.spy s i))) in
    let rest = write_keys-Wrote plan s host n (suc i) (write_values c host vs) fits (
      omega (
        arith,
        w.size,
        w.next,
        length-map (point host) vs,
        length-key_values plan (sort_host plan.spy s i),
      )) in
    rw (fits-leb (length (sort_host plan.spy s i)) (sort_host_size plan.spy) (fits i))
      (rest.0, Wrote-append (map (point host) vs) (key_points plan s host n (suc i)) w rest.1)

-- The counts add up: a server's points are whole keys.
abbrev pub IsWhole : Plan → Server → Type 0
IsWhole plan s = plan.server_points s % points_per_hash plan ≡ 0

-- Every server that takes part has whole keys that fit their buffer.
abbrev pub AllFit : Plan → List Server → Type 0
AllFit plan = All (λ s. Fits plan.spy s × IsWhole plan s)

abbrev pub Done : Plan → ℕ → List Server → Cursor → Bool × Cursor → Type 0
Done plan host ss c (fits, c') =
    (fits ≡ true)
    × (length c'.continuum ≡ length c.continuum)
    × (c'.continuum_index ≡ c.continuum_index + length (ring_points plan host ss))
    × (take c'.continuum_index c'.continuum
        ≡ take c.continuum_index c.continuum ++ ring_points plan host ss)
    × (c'.pointer_counter ≡ c'.continuum_index)

-- One round of the loop, and of the list that it should write.
module _ (plan : Plan) (host : ℕ) (s : Server) (ss : List Server) where
  abbrev own_points : List Point
  own_points = key_points plan s host (plan.server_points s / points_per_hash plan) 0

  abbrev own_write : Cursor → Bool × Cursor
  own_write = write_keys plan s host (plan.server_points s / points_per_hash plan) 0

  abbrev counted : Cursor → Cursor
  counted c = record c { pointer_counter = c.pointer_counter + plan.server_points s }

  skip :
      (c : Cursor)
      → is_live plan.auto_eject plan.now s ≡ false
      → (write_servers plan host (s ∷ ss) c ≡ write_servers plan (suc host) ss c)
        × (ring_points plan host (s ∷ ss) ≡ ring_points plan (suc host) ss)
  unfolding write_servers ring_points
  skip c e = (rw (e, write_servers), rw (e, ring_points))

  take_part :
      (c : Cursor)
      → is_live plan.auto_eject plan.now s ≡ true
      → (own_write c).0 ≡ true
      → (write_servers plan host (s ∷ ss) c
          ≡ write_servers plan (suc host) ss (counted ((own_write c).1)))
        × (ring_points plan host (s ∷ ss) ≡ own_points ++ ring_points plan (suc host) ss)
  unfolding write_servers ring_points
  take_part c e f = (rw (e, write_servers) (rw f), rw (e, ring_points))

  skip_live :
      (c : Cursor)
      → is_live plan.auto_eject plan.now s ≡ true
      → ring_points plan host (s ∷ ss) ≡ own_points ++ ring_points plan (suc host) ss
  unfolding ring_points
  skip_live c e = rw (e, ring_points)

  whole : IsWhole plan s → length own_points ≡ plan.server_points s
  whole w = omega (
    arith,
    length-key_points plan s host (plan.server_points s / points_per_hash plan) 0,
    div-add-mod' (plan.server_points s) (points_per_hash plan),
  )

  extend :
      {c c' : Cursor} (out : Bool × Cursor)
      → Wrote c own_points c'
      → IsWhole plan s
      → c.pointer_counter ≡ c.continuum_index
      → Done plan (suc host) ss (counted c') out
      → (out.0 ≡ true)
        × (length out.1.continuum ≡ length c.continuum)
        × (out.1.continuum_index
            ≡ c.continuum_index + length (own_points ++ ring_points plan (suc host) ss))
        × (take out.1.continuum_index out.1.continuum
            ≡ take c.continuum_index c.continuum ++ (own_points ++ ring_points plan (suc host) ss))
        × (out.1.pointer_counter ≡ out.1.continuum_index)
  extend {c} out w whole even d = (
    d.0,
    d.1 ∙ w.size,
    omega (arith, d.2, w.next, length-append own_points (ring_points plan (suc host) ss)),
    d.3
        ∙ ap (λ l. l ++ ring_points plan (suc host) ss) w.kept
        ∙ append_assoc (take c.continuum_index c.continuum) own_points
            (ring_points plan (suc host) ss),
    d.4,
  )

-- If each server's keys fit their buffer and its points are whole keys, the array has room for all
-- the points and the two counters agree at the start: the loop over the servers meets no key that
-- is too long, keeps the array's length, writes the points of the live servers, in order, behind
-- what stands there, and the counters agree at the end.
pub write_servers-Done :
    (plan : Plan) (host : ℕ) (ss : List Server) (c : Cursor)
    → AllFit plan ss
    → c.continuum_index + length (ring_points plan host ss) ≤ length c.continuum
    → c.pointer_counter ≡ c.continuum_index
    → Done plan host ss c (write_servers plan host ss c)
write_servers-Done plan host [] c fit room even =
    unfold write_servers ring_points in (refl, refl, omega arith, sym (append-nil _), even)
write_servers-Done plan host (s ∷ ss) c fit room even =
    elim (Bool-cases (is_live plan.auto_eject plan.now s)) [
      | inr e ↦
          let eqs = skip plan host s ss c e in
          rw (eqs.0, eqs.1)
            (write_servers-Done plan (suc host) ss c fit.1 (omega (arith, ap length eqs.1)) even)
      | inl e ↦
          let n = plan.server_points s / points_per_hash plan in
          let own = own_points plan host s ss in
          let tail_points = ring_points plan (suc host) ss in
          let shape = (skip_live plan host s ss c e) in
          let lens = length-append own tail_points in
          let keys =
            write_keys-Wrote plan s host n 0 c fit.0.0
              (omega (arith, ap length shape, lens, length-key_points plan s host n 0)) in
          let eqs = take_part plan host s ss c e keys.0 in
          let c' = counted plan host s ss ((own_write plan host s ss c).1) in
          let rest =
            write_servers-Done plan (suc host) ss c' fit.1
              (omega (arith, ap length shape, lens, (keys.1).size, (keys.1).next))
              (omega (arith, even, (keys.1).next, (keys.1).count, whole plan host s ss fit.0.1)) in
          rw (eqs.0, eqs.1)
            (extend plan host s ss (write_servers plan (suc host) ss c') keys.1 fit.0.1 even rest)
    ]
