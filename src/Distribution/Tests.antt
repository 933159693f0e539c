-- ===== src/Distribution/Tests.antt =====
-- Concrete runs of the routing code, and the theorems about it at them.
use libmemcached.Distribution.Servers.{server_add_with_weight}
use libmemcached.Distribution.Joining.{server_add_with_weight-moves}
use libmemcached.Distribution.Buckets.{
  virtual_bucket_create, virtual_bucket_create-get, virtual_bucket_get-first_or_last,
}
use libmemcached.Distribution.Dispatch.{virtual_bucket_get}
use libmemcached.Distribution.Continuum.{run_distribution}
use libmemcached.Prelude.{
  ◌^◌, ◌⊎◌, ◌++◌, ℕ, ◌+◌, ◌*◌, ◌%◌, ◌≤◌, ◌<◌, ◌≡◌, ◌≢◌, refl, ◌⊎◌, List, [], ◌∷◌, true, false, some,
  none, arith, length, get_or,
}
use libmemcached.Return.{success}
use libmemcached.Distribution.State.{
  modula, consistent, consistent_weighted, tcp, Server, Point, Ketama, Memcached, World,
}
use libmemcached.Distribution.Sort.{continuum_item_cmp, qsort}
use libmemcached.Distribution.Continuum.{
  Plan, blank, count_live, total_weight, plan_of, server_points, key_values, write_servers,
  update_continuum_at, run_distribution, start, is_valid_size,
}
use libmemcached.Distribution.Dispatch.{successor, dispatch_host}
use libmemcached.Distribution.Points.{ring_points, key_points, write_servers-Done, Done, AllFit}
use libmemcached.Distribution.Update.{host-Fits, ring}
use libmemcached.Distribution.Routing.{RoutesBy}
use libmemcached.Distribution.Ring.{IsSuccessor, successor-IsSuccessor}
use libmemcached.Distribution.Plain.{Ready}
use libmemcached.Distribution.Adding.{with_server, update_continuum_at-add}
use libmemcached.Distribution.Ejecting.{
  eject, without, update_continuum_at-eject, update_continuum_at-stay,
}
use libmemcached.Distribution.Target.{
  IsLiveAt, CanRun, update_continuum_at-live, dispatch_host-bounded, run_distribution-routes,
}

abbrev alpha : Server
alpha = record { hostname = b'a' ∷ []; port = 11211; weight = 1; connection = tcp; next_retry = 0 }

abbrev beta : Server
beta = record {
  hostname = b'b' ∷ b'b' ∷ [];
  port = 11212;
  weight = 1;
  connection = tcp;
  next_retry = 0;
}

abbrev gamma : Server
gamma = record { hostname = b'c' ∷ []; port = 11211; weight = 2; connection = tcp; next_retry = 0 }

-- Adds up the bytes of a key, with a factor that spreads them.
abbrev spread : List ℕ → ℕ
spread [] = 0
spread (b ∷ bs) = (spread bs * 31 + b * 1009) % 4294967296

abbrev world : World
world = record { digest = spread; clock = some 100; realloc = true; quarter_points = λ a b c. 1 }

abbrev fresh : Ketama
fresh = record {
  weighted = false;
  continuum_count = 0;
  points_counter = 0;
  next_rebuild = 0;
  continuum = [];
}

abbrev plain : Memcached
plain = record {
  auto_eject_hosts = true;
  use_sort_hosts = false;
  hash_with_namespace = false;
  distribution = consistent;
  servers = alpha ∷ beta ∷ [];
  ketama = fresh;
  buckets = none;
  name_space = [];
}

abbrev weighted : Memcached
weighted = record plain {
  distribution = consistent_weighted;
  ketama = record fresh { weighted = true };
}

plain-Ready : Ready world plain 100
unfolding count_live
plain-Ready = record {
  memory = refl;
  consistent = refl;
  plain = refl;
  valid = (omega arith, (omega arith, tt));
  allocated = refl;
  alive = omega arith;
  few = omega arith;
}

weighted-CanRun : CanRun world weighted 100
unfolding count_live ring_points key_points plan_of server_points total_weight key_values
weighted-CanRun = record {
  clock = refl;
  memory = refl;
  consistent = refl;
  valid = (omega arith, (omega arith, tt));
  allocated = refl;
  room = omega arith;
  alive = omega arith;
  few = omega arith;
  some_points = omega arith;
}

run_distribution-routes_example :
    (is_valid_size weighted ≡ true)
    × ((run_distribution world weighted).0 ≡ success)
    × RoutesBy (ring world weighted 100) 5 (dispatch_host (run_distribution world weighted).1 0 5)
run_distribution-routes_example = run_distribution-routes world weighted 100 0 5 weighted-CanRun

update_continuum_at-live_example :
    (j : ℕ) × (dispatch_host (update_continuum_at world plain 100).1 0 77 ≡ some j)
    × IsLiveAt true 100 (alpha ∷ beta ∷ []) j
update_continuum_at-live_example = update_continuum_at-live world plain 100 0 77 plain-Ready

update_continuum_at-add_example :
    (dispatch_host
        (update_continuum_at world
          (with_server (update_continuum_at world plain 100).1 gamma)
          100).1
        0
        77
      ≡ dispatch_host (update_continuum_at world plain 100).1 0 77)
    ⊎ (dispatch_host
          (update_continuum_at world
            (with_server (update_continuum_at world plain 100).1 gamma)
            100).1
          0
          77
        ≡ some 2)
update_continuum_at-add_example =
    update_continuum_at-add world plain 100 0 77 gamma plain-Ready (omega arith) (omega arith)

one_left : count_live true 100 (eject 0 200 (alpha ∷ beta ∷ [])) ≢ 0
unfolding count_live eject
one_left = omega arith

update_continuum_at-eject_example :
    dispatch_host (update_continuum_at world (without plain 0 200) 100).1 0 77 ≢ some 0
update_continuum_at-eject_example =
    update_continuum_at-eject world plain 100 0 200 0 77 plain-Ready refl (omega arith) one_left

dispatch_host-bounded_example :
    (j : ℕ) × (dispatch_host (record plain { distribution = modula }) 0 77 ≡ some j) × (j < 2)
dispatch_host-bounded_example =
    dispatch_host-bounded (record plain { distribution = modula }) 0 77 refl refl (omega arith)
      (omega arith)

abbrev flat_world : World
flat_world = record world { digest = λ key. 7 }

goes_to_alpha : dispatch_host (update_continuum_at flat_world plain 100).1 0 5 ≡ some 0
unfolding dispatch_host update_continuum_at libmemcached.Distribution.HostKey.sort_host qsort
    key_values continuum_item_cmp
goes_to_alpha = refl

beta_out : count_live true 100 (eject 1 200 (alpha ∷ beta ∷ [])) ≢ 0
unfolding count_live eject
beta_out = omega arith

not_beta : dispatch_host (update_continuum_at flat_world plain 100).1 0 5 ≢ some 1
not_beta h = ground (arith, goes_to_alpha, h)

flat-Ready : Ready flat_world plain 100
unfolding count_live
flat-Ready = record {
  memory = refl;
  consistent = refl;
  plain = refl;
  valid = (omega arith, (omega arith, tt));
  allocated = refl;
  alive = omega arith;
  few = omega arith;
}

update_continuum_at-stay_example :
    dispatch_host (update_continuum_at flat_world (without plain 1 200) 100).1 0 5
    ≡ dispatch_host (update_continuum_at flat_world plain 100).1 0 5
update_continuum_at-stay_example =
    update_continuum_at-stay flat_world plain 100 1 200 0 5 flat-Ready refl (omega arith) beta_out
      not_beta

abbrev three_points : List Point
three_points =
    record { index = 1; value = 30 }
    ∷ record { index = 0; value = 10 }
    ∷ record { index = 2; value = 20 }
    ∷ []

successor-IsSuccessor_example :
    (successor (qsort continuum_item_cmp three_points ++ blank ∷ []) 3 15 < 3)
    × IsSuccessor three_points 15 (
        get_or
          (qsort continuum_item_cmp three_points ++ blank ∷ [])
          (successor (qsort continuum_item_cmp three_points ++ blank ∷ []) 3 15)
          blank)
successor-IsSuccessor_example = successor-IsSuccessor three_points (blank ∷ []) 15 (omega arith)

-- Two servers' points written into an array that has one cell to spare.
abbrev short_plan : Plan
short_plan = record {
  digest = spread;
  weighted = false;
  spy = false;
  auto_eject = false;
  now = 0;
  server_points = λ s. 2;
}

abbrev five_cells : Ketama
five_cells = record fresh {
  continuum = blank ∷ blank ∷ blank ∷ blank ∷ blank ∷ [];
  continuum_count = 5;
}

pair-AllFit : AllFit short_plan (alpha ∷ beta ∷ [])
pair-AllFit =
    ((host-Fits false alpha (omega arith), refl), ((host-Fits false beta (omega arith), refl), tt))

pair_room : 0 + length (ring_points short_plan 0 (alpha ∷ beta ∷ [])) ≤ 5
unfolding ring_points key_points key_values
pair_room = omega arith

write_servers-Done_example :
    Done short_plan 0
      (alpha ∷ beta ∷ [])
      (start five_cells)
      (write_servers short_plan 0 (alpha ∷ beta ∷ []) (start five_cells))
write_servers-Done_example =
    write_servers-Done short_plan 0 (alpha ∷ beta ∷ []) (start five_cells) pair-AllFit pair_room
      refl

server_add_with_weight-moves_example :
    (dispatch_host
        (server_add_with_weight world true alpha (run_distribution world plain).1 (b'c' ∷ []) 0 1).1
        0
        77
      ≡ dispatch_host (run_distribution world plain).1 0 77)
    ⊎ (dispatch_host
          (server_add_with_weight world true alpha
            (run_distribution world plain).1
            (b'c' ∷ [])
            0
            1).1
          0
          77
        ≡ some 2)
server_add_with_weight-moves_example =
    server_add_with_weight-moves world alpha plain 100 0 77 (b'c' ∷ []) 0 1 refl plain-Ready refl
      (omega arith) (omega arith) (omega arith)

virtual_bucket_create-get_example :
    virtual_bucket_get
      (virtual_bucket_create true plain (some (1 ∷ 0 ∷ 1 ∷ 1 ∷ [])) none (2 ^ 2) 0).1
      77
    ≡ some 0
virtual_bucket_create-get_example =
    virtual_bucket_create-get plain (1 ∷ 0 ∷ 1 ∷ 1 ∷ []) none 2 0 77 (omega arith)

virtual_bucket_get-first_or_last_example :
    (virtual_bucket_get (with_server plain gamma) 77 ≡ some 0)
    ⊎ (virtual_bucket_get (with_server plain gamma) 77 ≡ some (2 ^ 1))
virtual_bucket_get-first_or_last_example =
    virtual_bucket_get-first_or_last (with_server plain gamma) 1 77 refl refl (omega arith)
