-- ===== src/Distribution/Routing.antt =====
-- libmemcached/hash.cc over hosts.cc: where a hash goes once the continuum has been rebuilt.
use mathlib.Core.Option
use libmemcached.Distribution.Sort.{continuum_item_cmp, qsort}
use libmemcached.Distribution.Order.{length-qsort}
use libmemcached.Prelude.{
  ℕ, ◌<◌, ◌≡◌, refl, ap, ◌∙◌, List, ◌++◌, true, Option, some, arith, length, get_elem?, get_or,
  length-append,
}
use libmemcached.Distribution.State.{
  Distribution, consistent, consistent_ketama, consistent_ketama_spy, consistent_weighted, Point,
  Memcached,
}
use libmemcached.Distribution.Continuum.{is_consistent, blank}
use libmemcached.Distribution.Dispatch.{dispatch_host, successor}
use libmemcached.Distribution.Update.{Holds}
use libmemcached.Distribution.Ring.{IsSuccessor, successor-IsSuccessor, get_elem?-get_or}

-- A hash is answered by the index of its successor on the ring.
abbrev pub RoutesBy : List Point → ℕ → Option ℕ → Type 0
RoutesBy points hash answer = (p : Point) × (answer ≡ some p.index) × IsSuccessor points hash p

-- On a consistent distribution the server is read at the successor of the hash.
abbrev by_search : Memcached → ℕ → Option ℕ
by_search memc hash =
    Option.map (λ (p : Point). p.index)
      (get_elem? memc.ketama.continuum
        (successor memc.ketama.continuum memc.ketama.points_counter hash))

dispatch_at :
    (memc : Memcached) (rnd hash : ℕ) (d : Distribution)
    → memc.distribution ≡ d
    → is_consistent d ≡ true
    → dispatch_host memc rnd hash ≡ by_search memc hash
unfolding dispatch_host
dispatch_at memc rnd hash consistent e h = rw (e, dispatch_host)
dispatch_at memc rnd hash consistent_ketama e h = rw (e, dispatch_host)
dispatch_at memc rnd hash consistent_ketama_spy e h = rw (e, dispatch_host)
dispatch_at memc rnd hash consistent_weighted e h = rw (e, dispatch_host)
dispatch_at memc rnd hash other e h = ground arith

pub Holds-RoutesBy :
    (memc : Memcached) (points : List Point) (rnd hash : ℕ)
    → is_consistent memc.distribution ≡ true
    → Holds memc.ketama points
    → 0 < length points
    → RoutesBy points hash (dispatch_host memc rnd hash)
Holds-RoutesBy memc points rnd hash c h some_points =
    let cells = qsort continuum_item_cmp points ++ h.junk in
    let found = successor-IsSuccessor points h.junk hash some_points in
    let at = successor cells (length points) hash in
    (
      get_or cells at blank,
      dispatch_at memc rnd hash memc.distribution refl c
          ∙ ap
              (λ l.
                Option.map (λ (p : Point). p.index)
                  (get_elem? l (successor l memc.ketama.points_counter hash)))
              h.cells
          ∙ ap (λ n. Option.map (λ (p : Point). p.index) (get_elem? cells (successor cells n hash)))
              h.counter
          ∙ ap (λ o. Option.map (λ (p : Point). p.index) o)
              (get_elem?-get_or cells at blank (
                omega (
                  arith,
                  found.0,
                  length-append (qsort continuum_item_cmp points) h.junk,
                  length-qsort points,
                ))),
      found.1,
    )
