-- ===== src/Pool/Tests.antt =====
-- A pool of two clients whose settings are one number.
use libmemcached.Prelude.{
  ℕ, ◌+◌, ◌<◌, ◌≡◌, ◌≢◌, refl, [], ◌∷◌, true, false, Option, none, some, ◌==◌, if◌then◌else◌, arith,
  get_elem?,
}
use libmemcached.Return.{Return, success, invalid_arguments, is_failed}
use libmemcached.Pool.{
  Handle, Pool, took, init_loop, pool_create, fetch, fetch_loop, fetch_round, release, refreshed,
  pool_behavior_set,
}
use libmemcached.Pool.System.{System, fetching, releasing, Steps, stay, next, fetches, releases}
use libmemcached.Pool.Locked.{IsSound, Outcome, fetch-Outcome}
use libmemcached.Pool.Invariant.{Inv, pool_create-Inv, pool_create-Steps}
use libmemcached.Pool.Reuse.{fetch-release, pool_behavior_set-IsCurrent, IsCurrent}

abbrev same : ℕ → ℕ
same n = n

-- Flag 0 is the only setting.
abbrev set_number : ℕ → ℕ → ℕ → Return × ℕ
set_number s flag data_ = if flag == 0 then (success, data_) else (invalid_arguments, s)

abbrev addresses : ℕ → Option ℕ
addresses x = some (x + 1000)

abbrev handle : ℕ → Handle ℕ
handle a = record { address = a; settings = 7; version = 0 }

abbrev fresh : Pool ℕ
fresh = record {
  master = 7;
  version = 0;
  server_pool = some (handle 1000) ∷ none ∷ [];
  free = 1;
  size = 2;
  current_size = 1;
  owns_master = false;
}

create_one : pool_create same true addresses 7 0 1 2 ≡ some fresh
unfolding pool_create init_loop
create_one = refl

create_none : pool_create same true addresses 7 0 3 2 ≡ none
unfolding pool_create
create_none = refl

abbrev start : System ℕ
start = record { pool = fresh; held = []; waiting = 0 }

abbrev one_out : System ℕ
one_out = fetching same set_number false none start

abbrev two_out : System ℕ
two_out = fetching same set_number false (some 2000) one_out

abbrev blocked : System ℕ
blocked = fetching same set_number true none two_out

both_out : (two_out.held ≡ handle 2000 ∷ handle 1000 ∷ []) × (blocked.waiting ≡ 1)
unfolding fetch fetch_loop fetch_round
both_out = (refl, refl)

second_out : get_elem? blocked.held 1 ≡ some (handle 1000)
unfolding fetch fetch_loop fetch_round
second_out = refl

abbrev woken : System ℕ
woken = releasing same set_number none 1 (handle 1000) blocked

nobody_waits : woken.waiting ≡ 0
unfolding fetch fetch_loop fetch_round release
nobody_waits = refl

run : Steps same set_number start woken
run =
    next blocked woken
      (next two_out blocked
        (next one_out two_out (next start one_out stay (fetches start false none))
          (fetches one_out false (some 2000)))
        (fetches two_out true none))
      (releases blocked none 1 (handle 1000) second_out)

pool_create-Steps_example : Inv woken
pool_create-Steps_example =
    pool_create-Steps same set_number true addresses 7 0 1 2 fresh woken create_one run

fresh-IsSound : IsSound fresh
fresh-IsSound = (pool_create-Inv same set_number true addresses 7 0 1 2 fresh create_one).sound

fetch-Outcome_example : Outcome same true none fresh (fetch same true true none fresh)
fetch-Outcome_example = fetch-Outcome same true none fresh fresh-IsSound

lent : Inv one_out
lent =
    pool_create-Steps same set_number true addresses 7 0 1 2 fresh one_out create_one
      (next start one_out stay (fetches start false none))

room : one_out.pool.free < one_out.pool.current_size
unfolding fetch fetch_loop fetch_round
room = omega arith

fetch-release_example :
    (fetch same true false none (release same true none one_out.pool (some (handle 1000))).pool).0
    ≡ took (refreshed same one_out.pool none (handle 1000))
fetch-release_example =
    fetch-release same false none none one_out.pool (handle 1000) lent.sound room

some_address : (x : ℕ) → addresses x ≢ none
some_address x e = ground (arith, e)

changes : is_failed (set_number 7 0 9).0 ≡ false
unfolding is_failed
changes = refl

pool_behavior_set-IsCurrent_example :
    IsCurrent same set_number
      (pool_behavior_set same set_number true addresses fresh 0 9).1
      (get_elem? (pool_behavior_set same set_number true addresses fresh 0 9).1.server_pool 0)
pool_behavior_set-IsCurrent_example =
    pool_behavior_set-IsCurrent same set_number addresses fresh 0 9 0 fresh-IsSound some_address
      changes (omega arith)
