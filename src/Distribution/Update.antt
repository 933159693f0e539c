-- ===== src/Distribution/Update.antt =====
-- libmemcached/hosts.cc: what `update_continuum` leaves behind.
use libmemcached.Prelude.{
  ℕ, zero, suc, ◌+◌, ◌/◌, ◌≤◌, ◌<◌, ◌≡◌, refl, ap, ◌∙◌, inl, inr, List, [], ◌∷◌, ◌++◌, Bool, true,
  false, arith, length, take, drop, All, Bool-cases, ◌==◌, ltb, length-append, length-take,
  length-drop,
}
use libmemcached.Return.{Return, success}
use libmemcached.Distribution.State.{Server, Point, Ketama, Memcached, World}
use libmemcached.Distribution.HostKey.{sort_host, default_port, decimal_rev, reverse_onto, decimal}
use libmemcached.Distribution.Sort.{continuum_item_cmp, qsort}
use libmemcached.Distribution.Order.{length-qsort}
use libmemcached.Distribution.Continuum.{
  Cursor, Plan, start, write_servers, plan_of, server_points, is_spy, count_live, fill, sort_points,
}
use libmemcached.Distribution.Points.{ring_points, Fits, IsWhole, AllFit, Done, write_servers-Done}

-- `memcached_is_valid_servername`: the name leaves room for the final zero.
abbrev pub IsValidHost : Server → Type 0
IsValidHost s = length s.hostname < 1025

length-reverse_onto : (acc xs : List ℕ) → length (reverse_onto acc xs) ≡ length acc + length xs
length-reverse_onto acc [] = omega arith
length-reverse_onto acc (x ∷ xs) = omega (arith, length-reverse_onto (x ∷ acc) xs)

length-decimal_rev : (fuel n : ℕ) → length (decimal_rev fuel n) ≤ fuel
unfolding decimal_rev
length-decimal_rev zero n = omega arith
length-decimal_rev (suc fuel) n = elim (Bool-cases (ltb n 10)) [
  | inl e ↦ rw (e, decimal_rev) (omega arith)
  | inr e ↦ rw (e, decimal_rev) (omega (arith, length-decimal_rev fuel (n / 10)))
]

length-decimal : (n : ℕ) → length (decimal n) ≤ 10
length-decimal n =
    unfold decimal in
    omega (arith, length-reverse_onto [] (decimal_rev 10 n), length-decimal_rev 10 n)

-- The longest key, at any port.
length-long :
    (s : Server) (i : ℕ)
    → length (s.hostname ++ (b':' ∷ (decimal s.port ++ (b'-' ∷ decimal i))))
      ≤ length s.hostname + 22
length-long s i = omega (
  arith,
  length-append s.hostname (b':' ∷ (decimal s.port ++ (b'-' ∷ decimal i))),
  length-append (decimal s.port) (b'-' ∷ decimal i),
  length-decimal s.port,
  length-decimal i,
)

length-short :
    (s : Server) (i : ℕ) → length (s.hostname ++ (b'-' ∷ decimal i)) ≤ length s.hostname + 22
length-short s i = omega (arith, length-append s.hostname (b'-' ∷ decimal i), length-decimal i)

-- `snprintf` never cuts a key short.
pub host-Fits : (spy : Bool) (s : Server) → IsValidHost s → Fits spy s
unfolding sort_host
host-Fits true s h i = omega (arith, length-long s i)
host-Fits false s h i = elim (Bool-cases (s.port == default_port)) [
  | inl e ↦ rw (e, sort_host) (omega (arith, length-short s i))
  | inr e ↦ rw (e, sort_host) (omega (arith, length-long s i))
]

plan-IsWhole :
    (w : World) (memc : Memcached) (now live : ℕ) (s : Server) → IsWhole (plan_of w memc now live) s
unfolding plan_of
plan-IsWhole w memc now live s = elim (Bool-cases memc.ketama.weighted) [
  | inl e ↦ rw (e, server_points) (omega arith)
  | inr e ↦ rw (e, server_points) (omega arith)
]

-- The allocated length is the one that is recorded.
abbrev pub IsAllocated : Ketama → Type 0
IsAllocated k = length k.continuum ≡ k.continuum_count

-- The live servers, and the points that they should have.
abbrev pub live_servers : Memcached → ℕ → ℕ
live_servers memc now = count_live memc.auto_eject_hosts now memc.servers

abbrev pub ring : World → Memcached → ℕ → List Point
ring w memc now = ring_points (plan_of w memc now (live_servers memc now)) 0 memc.servers

plan-AllFit :
    (w : World) (memc : Memcached) (now live : ℕ) (ss : List Server)
    → All IsValidHost ss
    → AllFit (plan_of w memc now live) ss
unfolding plan_of
plan-AllFit w memc now live [] h = tt
plan-AllFit w memc now live (s ∷ ss) h = (
  (host-Fits (is_spy memc.distribution) s h.0, plan-IsWhole w memc now live s),
  plan-AllFit w memc now live ss h.1,
)

-- A continuum that holds the points, sorted, and behind them what is not read.
pub record Holds (k : Ketama) (points : List Point) : Type 0 where
  pub junk : List Point
  pub cells : k.continuum ≡ qsort continuum_item_cmp points ++ junk
  pub counter : k.points_counter ≡ length points
  pub allocated : IsAllocated k

module _ (w : World) (memc : Memcached) (now live : ℕ) (k : Ketama)
    (valid : All IsValidHost memc.servers) (allocated : IsAllocated k) where
  abbrev pub plan : Plan
  plan = plan_of w memc now live

  abbrev pub points : List Point
  points = ring_points plan 0 memc.servers

  abbrev pub written : Bool × Cursor
  written = write_servers plan 0 memc.servers (start k)

  module _ (room : length points ≤ length k.continuum) where
    written-Done : Done plan 0 memc.servers (start k) written
    written-Done =
        write_servers-Done plan 0 memc.servers (start k)
          (plan-AllFit w memc now live memc.servers valid) (omega arith) refl

    pub fill-success :
        fill w memc now live k ≡ (success, record memc { ketama = sort_points k written.1 })
    unfolding fill
    fill-success = rw (written-Done.0)

    written-take : take written.1.pointer_counter written.1.continuum ≡ points
    written-take = ap (λ n. take n written.1.continuum) written-Done.4 ∙ written-Done.3

    pub sort_points-Holds : Holds (sort_points k written.1) points
    unfolding sort_points
    sort_points-Holds = record {
      junk = drop written.1.pointer_counter written.1.continuum;
      cells =
          ap (λ l. qsort continuum_item_cmp l ++ drop written.1.pointer_counter written.1.continuum)
            written-take;
      counter = omega (arith, written-Done.4, written-Done.2);
      allocated = omega (
        arith,
        length-append
            (qsort continuum_item_cmp (take written.1.pointer_counter written.1.continuum))
            (drop written.1.pointer_counter written.1.continuum),
        length-qsort (take written.1.pointer_counter written.1.continuum),
        length-take written.1.pointer_counter written.1.continuum,
        length-drop written.1.pointer_counter written.1.continuum,
        written-Done.1,
      );
    }

-- What `fill` gives when the points fit: the points are in place, and all else stays.
pub record Filled (memc : Memcached) (points : List Point) (r : Return × Memcached) : Type 0 where
  pub rc : r.0 ≡ success
  pub holds : Holds r.1.ketama points
  pub rest : r.1 ≡ record memc { ketama = (r.1).ketama }
  pub weighted : r.1.ketama.weighted ≡ memc.ketama.weighted

pub fill-Filled :
    (w : World) (memc : Memcached) (now live : ℕ) (k : Ketama)
    → All IsValidHost memc.servers
    → IsAllocated k
    → length (ring_points (plan_of w memc now live) 0 memc.servers) ≤ length k.continuum
    → k.weighted ≡ memc.ketama.weighted
    → Filled memc (ring_points (plan_of w memc now live) 0 memc.servers) (fill w memc now live k)
fill-Filled w memc now live k valid allocated room same_weighted =
    rw (fill-success w memc now live k valid allocated room) (record {
      rc = refl;
      holds = sort_points-Holds w memc now live k valid allocated room;
      rest = refl;
      weighted = unfold sort_points in same_weighted;
    })
