-- ===== src/Behavior/Kept.antt =====
-- libmemcached/hosts.cc: what `run_distribution` leaves of a client, whatever it returns.
use libmemcached.Prelude.{
  ℕ, ◌≡◌, refl, ap, ap₂, ◌∙◌, Bool, true, false, none, some, Option, if◌then◌else◌, ◌==◌,
}
use libmemcached.Return.{Return, success, errno, memory_allocation_failure}
use libmemcached.Distribution.State.{
  Memcached, World, Ketama, Distribution, modula, consistent, consistent_ketama,
  consistent_weighted, consistent_max,
}
use libmemcached.Behavior.{set_distribution, weigh, of_bool}
use libmemcached.Distribution.Continuum.{
  run_distribution, update_continuum, update_continuum_at, note_retry, reserve, fill, grow,
  sort_points, is_consistent, sorted_hosts, count_live,
}

-- The settings of `b` are those of `a`.
pub record Same (a b : Memcached) : Type 0 where
  pub distribution : b.distribution ≡ a.distribution
  pub weighted : b.ketama.weighted ≡ a.ketama.weighted
  pub auto_eject : b.auto_eject_hosts ≡ a.auto_eject_hosts
  pub sorting : b.use_sort_hosts ≡ a.use_sort_hosts
  pub with_namespace : b.hash_with_namespace ≡ a.hash_with_namespace

Same-trans : {a b c : Memcached} → Same a b → Same b c → Same a c
Same-trans s t = record {
  distribution = t.distribution ∙ s.distribution;
  weighted = t.weighted ∙ s.weighted;
  auto_eject = t.auto_eject ∙ s.auto_eject;
  sorting = t.sorting ∙ s.sorting;
  with_namespace = t.with_namespace ∙ s.with_namespace;
}

Same-refl : (a : Memcached) → Same a a
Same-refl a = record {
  distribution = refl;
  weighted = refl;
  auto_eject = refl;
  sorting = refl;
  with_namespace = refl;
}

Same-ketama :
    (a : Memcached) (k : Ketama) → k.weighted ≡ a.ketama.weighted → Same a (record a { ketama = k })
Same-ketama a k e = record {
  distribution = refl;
  weighted = e;
  auto_eject = refl;
  sorting = refl;
  with_namespace = refl;
}

pub if_both {ℓ κ} :
    {A : Type ℓ} (P : A → Type κ) (b : Bool) (x y : A) → P x → P y → P (if b then x else y)
if_both P true x y p q = p
if_both P false x y p q = q

note_retry-Same : (memc : Memcached) (now : ℕ) → Same memc (note_retry memc now)
unfolding note_retry
note_retry-Same memc now =
    if_both (Same memc) memc.auto_eject_hosts _ memc (Same-ketama memc _ refl) (Same-refl memc)

fill-Same :
    (w : World) (memc : Memcached) (now live : ℕ) (k : Ketama)
    → k.weighted ≡ memc.ketama.weighted
    → Same memc (fill w memc now live k).1
unfolding fill sort_points
fill-Same w memc now live k e =
    if_both (λ (r : Return × Memcached). Same memc r.1) _ _ _ (Same-ketama memc _ e)
      (Same-ketama memc _ e)

-- An allocation that comes about is weighted like before.
abbrev KeepsWeighted : Bool → Option Ketama → Type 0
KeepsWeighted b none = true ≡ true
KeepsWeighted b (some k) = k.weighted ≡ b

reserve-KeepsWeighted :
    (w : World) (k : Ketama) (live : ℕ) → KeepsWeighted k.weighted (reserve w k live)
unfolding reserve grow
reserve-KeepsWeighted w k live =
    if_both (KeepsWeighted k.weighted) _ _ (some k)
      (if_both (KeepsWeighted k.weighted) w.realloc _ none refl refl) refl

module _ (w : World) (now live : ℕ) where
  abbrev reserved : Memcached → Option Ketama → Return × Memcached
  reserved memc none = (memory_allocation_failure, memc)
  reserved memc (some k) = fill w memc now live k

  reserved-Same :
      (memc : Memcached) (o : Option Ketama)
      → KeepsWeighted memc.ketama.weighted o
      → Same memc (reserved memc o).1
  reserved-Same memc none e = Same-refl memc
  reserved-Same memc (some k) e = fill-Same w memc now live k e

update_continuum_at-Same :
    (w : World) (memc : Memcached) (now : ℕ) → Same memc (update_continuum_at w memc now).1
unfolding update_continuum_at
update_continuum_at-Same w memc now =
    let m = note_retry memc now in
    let live = count_live memc.auto_eject_hosts now memc.servers in
    Same-trans (note_retry-Same memc now) (
      if_both (λ (r : Return × Memcached). Same m r.1) (live == 0) (success, m)
        (reserved w now live m (reserve w m.ketama live)) (Same-refl m)
        (reserved-Same w now live m (reserve w m.ketama live)
          (reserve-KeepsWeighted w m.ketama live)))

update_continuum-Same : (w : World) (memc : Memcached) → Same memc (update_continuum w memc).1
unfolding update_continuum
update_continuum-Same w memc = clocked w.clock
  where
    clocked :
        (clock : Option ℕ)
        → Same memc
            (elim clock as (λ o. Return × Memcached) [
              | none ↦ (errno, memc)
              | some now ↦ update_continuum_at w memc now
            ]).1
    clocked none = Same-refl memc
    clocked (some now) = update_continuum_at-Same w memc now

sorted_hosts-Same : (memc : Memcached) → Same memc (sorted_hosts memc)
sorted_hosts-Same memc =
    if_both (Same memc) memc.use_sort_hosts _ memc
      (record {
        distribution = refl;
        weighted = refl;
        auto_eject = refl;
        sorting = refl;
        with_namespace = refl;
      })
      (Same-refl memc)

pub run_distribution-Same : (w : World) (memc : Memcached) → Same memc (run_distribution w memc).1
unfolding run_distribution
run_distribution-Same w memc =
    let m = sorted_hosts memc in
    Same-trans (sorted_hosts-Same memc) (
      if_both (λ (r : Return × Memcached). Same m r.1) (is_consistent m.distribution)
        (update_continuum w m) (success, m) (update_continuum-Same w m) (Same-refl m))

-- `set_distribution` leaves the switches, and has the distribution of its type, but for the one that it
-- refuses.
pub set_distribution-switches :
    (w : World) (memc : Memcached) (type : Distribution)
    → ((set_distribution w memc type).1.auto_eject_hosts ≡ memc.auto_eject_hosts)
      × ((set_distribution w memc type).1.hash_with_namespace ≡ memc.hash_with_namespace)
      × ((set_distribution w memc type).1.use_sort_hosts ≡ memc.use_sort_hosts)
unfolding set_distribution
set_distribution-switches w memc consistent_max = (refl, refl, refl)
set_distribution-switches w memc consistent =
    let s =
      run_distribution-Same w (record (weigh memc (some false)) { distribution = consistent }) in
    (s.auto_eject, s.with_namespace, s.sorting)
set_distribution-switches w memc consistent_ketama =
    let s =
      run_distribution-Same w
        (record (weigh memc (some false)) { distribution = consistent_ketama }) in
    (s.auto_eject, s.with_namespace, s.sorting)
set_distribution-switches w memc consistent_weighted =
    let s =
      run_distribution-Same w
        (record (weigh memc (some true)) { distribution = consistent_weighted }) in
    (s.auto_eject, s.with_namespace, s.sorting)
set_distribution-switches w memc type =
    let s = run_distribution-Same w (record memc { distribution = type }) in
    (s.auto_eject, s.with_namespace, s.sorting)

-- Ketama turned on or off, without weights.
pub set_distribution-ketama :
    (w : World) (memc : Memcached) (on : Bool)
    → is_consistent
        (set_distribution w memc (if on then consistent_ketama else modula)).1.distribution
      ≡ on
unfolding set_distribution
set_distribution-ketama w memc true =
    ap is_consistent
      (run_distribution-Same w
        (record (weigh memc (some false)) { distribution = consistent_ketama })).distribution
set_distribution-ketama w memc false =
    ap is_consistent (run_distribution-Same w (record memc { distribution = modula })).distribution

-- What `memcached_behavior_get` tells of the weights.
abbrev pub weighted_value : Memcached → ℕ
weighted_value m = if is_consistent m.distribution then of_bool m.ketama.weighted else 0

pub set_distribution-weighted :
    (w : World) (memc : Memcached)
    → (weighted_value (set_distribution w memc consistent_weighted).1 ≡ 1)
      × (weighted_value (set_distribution w memc consistent_ketama).1 ≡ 0)
unfolding set_distribution
set_distribution-weighted w memc =
    let s =
      run_distribution-Same w
        (record (weigh memc (some true)) { distribution = consistent_weighted }) in
    let t =
      run_distribution-Same w
        (record (weigh memc (some false)) { distribution = consistent_ketama }) in
    (
      ap₂ (λ d b. if is_consistent d then of_bool b else 0) s.distribution s.weighted,
      ap₂ (λ d b. if is_consistent d then of_bool b else 0) t.distribution t.weighted,
    )
