-- ===== src/Distribution/Joining.antt =====
-- libmemcached/hosts.cc: `memcached_server_add_with_weight` and `memcached_server_push`, and the
-- keys that they move.
use libmemcached.Prelude.{
  ℕ, ◌≤◌, ◌<◌, ◌≡◌, ◌⊎◌, refl, sym, ap, subst, ◌∙◌, List, [], ◌∷◌, ◌++◌, Bool, true, false, ◌&&◌,
  some, length, ltb, le→ltb, lt→ltb, ◌==◌, if◌then◌else◌, arith,
}
use libmemcached.Return.{success}
use libmemcached.Distribution.State.{Server, Memcached, World, server_count}
use libmemcached.Distribution.HostKey.{default_port}
use libmemcached.Distribution.Sort.{qsort, compare_servers}
use libmemcached.Distribution.Continuum.{
  is_consistent, run_distribution, update_continuum, update_continuum_at, sorted_hosts,
}
use libmemcached.Distribution.Dispatch.{dispatch_host}
use libmemcached.Distribution.Rebuild.{max_hosts}
use libmemcached.Distribution.Update.{IsValidHost}
use libmemcached.Distribution.Plain.{Ready, plain-Filled}
use libmemcached.Distribution.Adding.{with_server, update_continuum_at-add}
use libmemcached.Distribution.Servers.{
  or_localhost, is_valid_servername, server_init, socket_or_tcp, server_add_with_weight,
}

unsorted : (memc : Memcached) → memc.use_sort_hosts ≡ false → sorted_hosts memc ≡ memc
unsorted memc e =
    ap (λ b. if b then record memc { servers = qsort compare_servers memc.servers } else memc) e

run-update :
    (w : World) (memc : Memcached) (now : ℕ)
    → w.clock ≡ some now
    → is_consistent memc.distribution ≡ true
    → (if is_consistent memc.distribution then update_continuum w memc else (success, memc))
      ≡ update_continuum_at w memc now
unfolding update_continuum
run-update w memc now c e = rw e (rw c)

run-plain :
    (w : World) (memc : Memcached) (now : ℕ)
    → w.clock ≡ some now
    → memc.use_sort_hosts ≡ false
    → is_consistent memc.distribution ≡ true
    → run_distribution w memc ≡ update_continuum_at w memc now
unfolding run_distribution
run-plain w memc now c u e =
    ap
      (λ (m : Memcached).
        if is_consistent m.distribution then update_continuum w m else (success, m))
      (unsorted memc u)
    ∙ run-update w memc now c e

-- The list with the server, `b` telling whether the weights now count.
abbrev joined : Memcached → Server → Bool → Memcached
joined memc s b = record memc {
  servers = memc.servers ++ s ∷ [];
  ketama = record (memc.ketama) { weighted = if b then true else memc.ketama.weighted };
}

-- The server that `memcached_server_add_with_weight` makes.
abbrev pub new_server : List ℕ → ℕ → ℕ → Server
new_server hostname port weight =
    server_init (or_localhost hostname) (if port == 0 then default_port else port) weight
      (socket_or_tcp (or_localhost hostname))

with_weight-join :
    (w : World) (junk : Server) (memc : Memcached) (hostname : List ℕ) (port weight : ℕ)
    → is_valid_servername (or_localhost hostname) ≡ true
    → server_add_with_weight w true junk memc hostname port weight
      ≡ run_distribution w (
          joined memc
            (new_server hostname port weight)
            (ltb 1 weight && is_consistent memc.distribution))
unfolding server_add_with_weight
with_weight-join w junk memc hostname port weight e = rw e

valid_name : (hostname : List ℕ) → length hostname < 1025 → length (or_localhost hostname) < 1025
valid_name [] h = omega arith
valid_name (c ∷ cs) h = h

or_localhost-twice :
    (hostname : List ℕ) → or_localhost (or_localhost hostname) ≡ or_localhost hostname
or_localhost-twice [] = refl
or_localhost-twice (c ∷ cs) = refl

with_weight-plain :
    (w : World) (junk : Server) (memc : Memcached) (hostname : List ℕ) (port weight : ℕ)
    → length hostname < 1025
    → weight ≤ 1
    → server_add_with_weight w true junk memc hostname port weight
      ≡ run_distribution w (with_server memc (new_server hostname port weight))
with_weight-plain w junk memc hostname port weight h light =
    with_weight-join w junk memc hostname port weight (lt→ltb _ 1025 (valid_name hostname h))
    ∙ ap
        (λ b.
          run_distribution w
            (joined memc (new_server hostname port weight) (b && is_consistent memc.distribution)))
        (le→ltb 1 weight light)

new_server-IsValidHost :
    (hostname : List ℕ) (port weight : ℕ)
    → length hostname < 1025
    → IsValidHost (new_server hostname port weight)
new_server-IsValidHost hostname port weight h =
    subst (λ name. length name < 1025) (sym (or_localhost-twice hostname)) (valid_name hostname h)

-- On a client that is ready for a rebuild without weights at the time that the clock gives, does
-- not sort its hosts, has fewer than a hundred and has run the distribution: after `memcached_server_add_with_weight`, with
-- memory, of a host name below 1025 characters and a weight of 0 or 1, each hash is dispatched as
-- before or to the new, last server.
pub server_add_with_weight-moves :
    (w : World) (junk : Server) (memc : Memcached) (now rnd hash : ℕ) (hostname : List ℕ)
    (port weight : ℕ)
    → w.clock ≡ some now
    → Ready w memc now
    → memc.use_sort_hosts ≡ false
    → length hostname < 1025
    → weight ≤ 1
    → server_count memc < max_hosts
    → (dispatch_host
          (server_add_with_weight w true junk (run_distribution w memc).1 hostname port weight).1
          rnd
          hash
        ≡ dispatch_host (run_distribution w memc).1 rnd hash)
      ⊎ (dispatch_host
            (server_add_with_weight w true junk (run_distribution w memc).1 hostname port weight).1
            rnd
            hash
          ≡ some (server_count memc))
server_add_with_weight-moves w junk memc now rnd hash hostname port weight clock ready unsorted h
      light more =
    let before = update_continuum_at w memc now in
    let s = new_server hostname port weight in
    let f = plain-Filled w memc now ready in
    let start : run_distribution w memc ≡ before =
      run-plain w memc now clock unsorted ready.consistent in
    let after : server_add_with_weight w true junk before.1 hostname port weight
        ≡ update_continuum_at w (with_server before.1 s) now =
      with_weight-plain w junk before.1 hostname port weight h light
      ∙ run-plain w (with_server before.1 s) now clock
          (ap (λ (m : Memcached). m.use_sort_hosts) f.rest ∙ unsorted)
          (ap (λ (m : Memcached). is_consistent m.distribution) f.rest ∙ ready.consistent) in
    rw (start, after)
      (update_continuum_at-add w memc now rnd hash s ready
        (new_server-IsValidHost hostname port weight h) more)
