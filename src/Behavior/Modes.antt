-- ===== src/Behavior/Modes.antt =====
-- libmemcached/behavior.cc: settings that exclude each other.
use libmemcached.Prelude.{
  ℕ, ◌≡◌, ◌≢◌, ◌⊎◌, inl, inr, refl, Bool, Bool-cases, if◌then◌else◌, false, arith,
}
use libmemcached.Return.{Return, success}
use libmemcached.Hashkit.Digest.{Build}
use libmemcached.Distribution.State.{
  World, Memcached, modula, consistent_ketama, consistent_weighted,
}
use libmemcached.Behavior.{
  Behavior, Flags, Settings, to_bool, to_distribution, no_block, sort_hosts, distribution, ketama,
  ketama_weighted, remove_failed_servers, hash_with_prefix_key, auto_eject_hosts,
  server_failure_limit, buffer_requests, verify_key, noreply,
}
use libmemcached.Behavior.Kept.{if_both, run_distribution-Same, set_distribution-switches}
use libmemcached.Behavior.Setting.{behavior_set}

-- A client over UDP expects no replies and does not buffer; one that speaks the binary protocol does
-- not verify keys.
pub record Modes (f : Flags) : Type 0 where
  pub udp : (f.use_udp ≡ false) ⊎ ((f.reply ≡ false) × (f.buffer_requests ≡ false))
  pub binary : (f.binary_protocol ≡ false) ⊎ (f.verify_key ≡ false)

module _ (build : Build) (w : World) where
  udp_kept :
      (s : Settings) (b : Behavior) (n : ℕ)
      → (s.flags.use_udp ≡ false) ⊎ ((s.flags.reply ≡ false) × (s.flags.buffer_requests ≡ false))
      → ((behavior_set build w s b n).1.flags.use_udp ≡ false)
        ⊎ (((behavior_set build w s b n).1.flags.reply ≡ false)
            × ((behavior_set build w s b n).1.flags.buffer_requests ≡ false))
  unfolding behavior_set
  udp_kept s no_block n h = ground (arith, h)
  udp_kept s other n h = ground (arith, h)

  binary_kept :
      (s : Settings) (b : Behavior) (n : ℕ)
      → (s.flags.binary_protocol ≡ false) ⊎ (s.flags.verify_key ≡ false)
      → ((behavior_set build w s b n).1.flags.binary_protocol ≡ false)
        ⊎ ((behavior_set build w s b n).1.flags.verify_key ≡ false)
  unfolding behavior_set
  binary_kept s no_block n h = ground (arith, h)
  binary_kept s other n h = ground (arith, h)

  -- No call of `memcached_behavior_set`, with any behavior and any data, leads from modes that go
  -- together to others: a client over UDP expects no replies and does not buffer, and one that
  -- speaks the binary protocol does not verify keys.
  pub behavior_set-Modes :
      (s : Settings) (b : Behavior) (n : ℕ)
      → Modes s.flags
      → Modes (behavior_set build w s b n).1.flags
  behavior_set-Modes s b n m = record {
    udp = udp_kept s b n m.udp;
    binary = binary_kept s b n m.binary;
  }

  flags_kept :
      (s : Settings) (b : Behavior) (n : ℕ)
      → (behavior_set build w s b n).0 ≢ success
      → (behavior_set build w s b n).1.flags ≡ s.flags
  unfolding behavior_set
  flags_kept s no_block n h = ground (arith, h)
  flags_kept s other n h = ground (arith, h)

  limits_kept :
      (s : Settings) (b : Behavior) (n : ℕ)
      → (behavior_set build w s b n).0 ≢ success
      → (behavior_set build w s b n).1.limits ≡ s.limits
  unfolding behavior_set
  limits_kept s no_block n h = ground (arith, h)
  limits_kept s other n h = ground (arith, h)

  -- Sorting of hosts, set by its behavior before the distribution is run again.
  abbrev pub sorting_set : Behavior → ℕ → Bool → Bool
  sorting_set sort_hosts n old = to_bool n
  sorting_set other n old = old

  abbrev pub HasSwitches : Memcached → Bool → Memcached → Type 0
  HasSwitches old sorting m =
      (m.auto_eject_hosts ≡ old.auto_eject_hosts)
      × (m.hash_with_namespace ≡ old.hash_with_namespace)
      × (m.use_sort_hosts ≡ sorting)

  either_way :
      (s : Settings) (b : Bool) (x y : Return × Settings)
      → HasSwitches s.routing s.routing.use_sort_hosts x.1.routing
      → HasSwitches s.routing s.routing.use_sort_hosts y.1.routing
      → HasSwitches s.routing s.routing.use_sort_hosts (if b then x else y).1.routing
  either_way s =
      if_both
        (λ (r : Return × Settings). HasSwitches s.routing s.routing.use_sort_hosts r.1.routing)

  switches_kept :
      (s : Settings) (b : Behavior) (n : ℕ)
      → (behavior_set build w s b n).0 ≢ success
      → HasSwitches s.routing
          (sorting_set b n s.routing.use_sort_hosts)
          (behavior_set build w s b n).1.routing
  unfolding behavior_set
  switches_kept s sort_hosts n h =
      let k = run_distribution-Same w (record (s.routing) { use_sort_hosts = to_bool n }) in
      (k.auto_eject, k.with_namespace, k.sorting)
  switches_kept s distribution n h = set_distribution-switches w s.routing (to_distribution n)
  switches_kept s ketama n h =
      set_distribution-switches w s.routing (if to_bool n then consistent_ketama else modula)
  switches_kept s ketama_weighted n h = elim (Bool-cases (to_bool n)) [
    | inl e ↦ rw e (set_distribution-switches w s.routing consistent_weighted)
    | inr e ↦ rw e (set_distribution-switches w s.routing consistent_ketama)
  ]
  switches_kept s remove_failed_servers n h = absurd (h refl)
  switches_kept s hash_with_prefix_key n h = absurd (h refl)
  switches_kept s auto_eject_hosts n h = absurd (h refl)
  switches_kept s server_failure_limit n h =
      either_way s _ _ _ (refl, refl, refl) (refl, refl, refl)
  switches_kept s buffer_requests n h = either_way s _ _ _ (refl, refl, refl) (refl, refl, refl)
  switches_kept s verify_key n h = either_way s _ _ _ (refl, refl, refl) (refl, refl, refl)
  switches_kept s noreply n h = either_way s _ _ _ (refl, refl, refl) (refl, refl, refl)
  switches_kept s other n h = (refl, refl, refl)

  -- A call of `memcached_behavior_set` that does not succeed leaves every flag and every number as it
  -- was, but for one: the flag that sorts the hosts has its new value even if the distribution, which is
  -- run behind that, fails.
  pub behavior_set-refused :
      (s : Settings) (b : Behavior) (n : ℕ)
      → (behavior_set build w s b n).0 ≢ success
      → ((behavior_set build w s b n).1.flags ≡ s.flags)
        × ((behavior_set build w s b n).1.limits ≡ s.limits)
        × HasSwitches s.routing
            (sorting_set b n s.routing.use_sort_hosts)
            (behavior_set build w s b n).1.routing
  behavior_set-refused s b n h = (flags_kept s b n h, limits_kept s b n h, switches_kept s b n h)
