-- ===== src/Distribution/Rebuild.antt =====
-- libmemcached/hosts.cc: a successful `update_continuum`, from the clock to the sorted points.
use libmemcached.Prelude.{
  ltb→lt, replicate, subst, ℕ, ◌+◌, ◌-◌, ◌*◌, ◌≤◌, ◌≡◌, ◌≢◌, refl, sym, ap, ◌∙◌, inl, inr, Bool,
  true, false, some, none, arith, length, List, [], ◌∷◌, All, Bool-cases, ◌==◌, ltb, if◌then◌else◌,
  length-append, length-replicate,
}
use libmemcached.Prelude.Words.{mul32, add32}
use libmemcached.Return.{Return, memory_allocation_failure}
use libmemcached.Distribution.State.{Server, Ketama, Memcached, World, server_count}
use libmemcached.Distribution.Continuum.{
  plan_of, grow, reserve, fill, note_retry, update_continuum_at, points_per_server_plain,
  count_live, points_per_server_ketama, blank, continuum_addition,
}
use libmemcached.Distribution.Points.{ring_points}
use libmemcached.Distribution.Update.{
  IsValidHost, IsAllocated, live_servers, ring, Filled, fill-Filled,
}

not_zero : (n : ℕ) → n ≢ 0 → (n == 0) ≡ false
not_zero n h = ground arith

abbrev pub per_server : Ketama → ℕ
per_server k = if k.weighted then points_per_server_ketama else points_per_server_plain

-- What `reserve` gives when memory can be had.
abbrev pub reserved : Ketama → ℕ → Ketama
unfolding grow
reserved k live =
    if ltb k.continuum_count (live * per_server k)
    then grow k (live * per_server k + continuum_addition * per_server k)
    else k

reserved-weighted : (k : Ketama) (live : ℕ) → (reserved k live).weighted ≡ k.weighted
unfolding grow
reserved-weighted k live = elim (Bool-cases (ltb k.continuum_count (live * per_server k))) [
  | inl e ↦ rw (e, reserved)
  | inr e ↦ rw (e, reserved)
]

-- A hundred servers, as many as the assertion in front of `qsort` lets pass.
abbrev pub max_hosts : ℕ
max_hosts = 100

-- The sizes of so many do not wrap around.
limit_lem :
    (weighted : Bool) (live : ℕ)
    → live ≤ max_hosts
    → let per_server = if weighted then points_per_server_ketama else points_per_server_plain in
      (mul32 live per_server ≡ live * per_server)
      × (add32 (live * per_server) (continuum_addition * per_server)
          ≡ live * per_server + continuum_addition * per_server)
limit_lem true live h = (omega arith, omega arith)
limit_lem false live h = (omega arith, omega arith)

count_live-le : (eject : Bool) (now : ℕ) (ss : List Server) → count_live eject now ss ≤ length ss
unfolding count_live
count_live-le eject now [] = omega arith
count_live-le eject now (s ∷ ss) = let rest = count_live-le eject now ss in ground (arith, rest)

module _ (w : World) (k : Ketama) (live : ℕ) (memory : w.realloc ≡ true) (allocated : IsAllocated k)
    (few : live ≤ max_hosts) where
  reserve-some : reserve w k live ≡ some (reserved k live)
  unfolding reserve grow
  reserve-some =
      let limits = limit_lem k.weighted live few in
      elim (Bool-cases (ltb k.continuum_count (live * per_server k))) [
        | inl e ↦ rw (limits.0, e, memory) (ap (λ n. some (grow k n)) limits.1)
        | inr e ↦ rw (limits.0, e)
      ]

  reserved-IsAllocated : IsAllocated (reserved k live)
  unfolding grow
  reserved-IsAllocated = elim (Bool-cases (ltb k.continuum_count (live * per_server k))) [
    | inl e ↦
        let size = live * per_server k + continuum_addition * per_server k in
        rw e (
          omega (
            arith,
            length-append k.continuum (replicate (size - k.continuum_count) blank),
            length-replicate (size - k.continuum_count) blank,
            ltb→lt k.continuum_count (live * per_server k) e,
          ))
    | inr e ↦ rw e allocated
  ]

  reserved-room : live * per_server k ≤ (reserved k live).continuum_count
  unfolding grow
  reserved-room = ground arith

-- Noting the retry changes nothing that the points depend on.
record SameRing (w : World) (memc memc' : Memcached) (now : ℕ) : Type 0 where
  ring_same : ring w memc' now ≡ ring w memc now
  servers_same : memc'.servers ≡ memc.servers
  rest_same : memc' ≡ record memc { ketama = memc'.ketama }
  live_same : live_servers memc' now ≡ live_servers memc now
  weighted_same : memc'.ketama.weighted ≡ memc.ketama.weighted
  allocated_same : IsAllocated memc.ketama → IsAllocated memc'.ketama

note_retry-SameRing :
    (w : World) (memc : Memcached) (now : ℕ) → SameRing w memc (note_retry memc now) now
unfolding note_retry plan_of
note_retry-SameRing w memc now = elim (Bool-cases memc.auto_eject_hosts) [
  | inl e ↦ rw e (record {
    ring_same = refl;
    servers_same = refl;
    rest_same = refl;
    live_same = refl;
    weighted_same = refl;
    allocated_same = λ a. a;
  })
  | inr e ↦ rw e (record {
    ring_same = refl;
    servers_same = refl;
    rest_same = refl;
    live_same = refl;
    weighted_same = refl;
    allocated_same = λ a. a;
  })
]

module _ (w : World) (memc : Memcached) (now : ℕ) (memory : w.realloc ≡ true)
    (valid : All IsValidHost memc.servers) (allocated : IsAllocated memc.ketama)
    (room : length (ring w memc now) ≤ live_servers memc now * per_server memc.ketama)
    (few : server_count memc ≤ max_hosts) where
  abbrev live : ℕ
  live = live_servers memc now

  -- The part of `update_continuum_at` behind the first loop.
  abbrev after_note : Memcached → Return × Memcached
  after_note memc' = elim (reserve w memc'.ketama live) [
    | none ↦ (memory_allocation_failure, memc')
    | some k' ↦ fill w memc' now live k'
  ]

  after_note-Filled :
      (memc' : Memcached)
      → SameRing w memc memc' now
      → Filled memc' (ring w memc now) (after_note memc')
  after_note-Filled memc' same =
      let few_live : live ≤ max_hosts =
        omega (arith, count_live-le memc.auto_eject_hosts now memc.servers) in
      let k' = reserved memc'.ketama live in
      let points = ring_points (plan_of w memc' now live) 0 memc'.servers in
      let eq : points ≡ ring w memc now =
        ap (λ l. ring_points (plan_of w memc' now l) 0 memc'.servers) (sym same.live_same)
        ∙ same.ring_same in
      rw
        (
          reserve-some w memc'.ketama live memory (same.allocated_same allocated) few_live,
          after_note,
        )
        (subst (λ ps. Filled memc' ps (fill w memc' now live k')) eq
          (fill-Filled w memc' now live k' (subst (All IsValidHost) (sym same.servers_same) valid)
            (reserved-IsAllocated w memc'.ketama live memory (same.allocated_same allocated)
              few_live)
            (omega (
              arith,
              ap length eq,
              room,
              reserved-room w memc'.ketama live memory (same.allocated_same allocated) few_live,
              reserved-IsAllocated w memc'.ketama live memory (same.allocated_same allocated)
                  few_live,
              ap
                  (λ (b : Bool).
                    live * (if b then points_per_server_ketama else points_per_server_plain))
                  same.weighted_same,
            ))
            (reserved-weighted memc'.ketama live)))

  -- With live servers, at most a hundred, memory and room for their points, a rebuild succeeds, keeps the servers and
  -- leaves a continuum that holds exactly the points of the live servers, sorted.
  pub update_continuum_at-Filled :
      live ≢ 0 → Filled memc (ring w memc now) (update_continuum_at w memc now)
  unfolding update_continuum_at
  update_continuum_at-Filled alive =
      let same = note_retry-SameRing w memc now in
      let f = after_note-Filled (note_retry memc now) same in
      rw (not_zero live alive) (record {
        rc = f.rc;
        holds = f.holds;
        rest =
            f.rest
            ∙ ap
                (λ (m : Memcached). record m {
                  ketama = (after_note (note_retry memc now)).1.ketama;
                })
                same.rest_same;
        weighted = f.weighted ∙ same.weighted_same;
      })
