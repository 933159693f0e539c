-- ===== src/Key/Accepted.antt =====
-- libmemcached/key.cc and namespace.cc: what is accepted, as a property of the key.
use libmemcached.Prelude.{
  ℕ, zero, suc, ◌≤◌, ◌<◌, ◌≡◌, ◌↔◌, ◌≢◌, ◌⊎◌, inl, inr, refl, sym, ap, ◌∙◌, List, [], ◌∷◌, Bool,
  true, false, not, ◌&&◌, none, some, length, take, All, ltb, ◌==◌, if◌then◌else◌, arith,
  Bool-cases,
}
use libmemcached.Return.{
  Return, success, invalid_arguments, key_too_big, memory_allocation_failure, is_failed,
}
use libmemcached.Key.{
  KeyState, validate_key_length, all_graph, test_key, test_keys, key_test, set_namespace,
  install_namespace, set_error,
}

-- A character that is printed and is no blank.
abbrev pub IsGraph : ℕ → Type 0
IsGraph c = (33 ≤ c) × (c ≤ 126)

-- A key that a client with these flags takes.
abbrev pub IsKey : KeyState → List ℕ → Type 0
IsKey memc key =
    (0 < length key)
    × (length key ≤ 250)
    × (((memc.verify_key && not memc.binary_protocol) ≡ false) ⊎ All IsGraph key)

all_graph_iff : (key : List ℕ) → (all_graph key ≡ true) ↔ All IsGraph key
unfolding all_graph
all_graph_iff [] = (λ e. tt, λ h. refl)
all_graph_iff (c ∷ cs) = (
  λ e. ground (arith, e, (all_graph_iff cs).0),
  λ h. ground (arith, h.0, (all_graph_iff cs).1 h.1),
)

test_key_iff :
    (memc : KeyState) (key : List ℕ) → (is_failed (test_key memc key) ≡ false) ↔ IsKey memc key
unfolding test_key validate_key_length is_failed
test_key_iff memc key = (
  λ e. ground (arith, e, (all_graph_iff key).0),
  λ h. ground (arith, h.0, h.1, h.2, (all_graph_iff key).1),
)

failed_not_success : (rc : Return) → is_failed rc ≡ true → rc ≢ success
unfolding is_failed
failed_not_success rc e f = ground (arith, e, ap is_failed f)

test_keys_iff :
    (memc : KeyState) (keys : List (List ℕ))
    → ((test_keys memc keys).0 ≡ success) ↔ All (IsKey memc) keys
unfolding test_keys
test_keys_iff memc [] = (λ e. tt, λ h. refl)
test_keys_iff memc (key ∷ keys) = elim (Bool-cases (is_failed (test_key memc key))) [
  | inl e ↦ (
    λ f. absurd (
        failed_not_success (test_key memc key) e (
          sym (
            ap
              (λ (b : Bool).
                (if b then set_error memc (test_key memc key) else test_keys memc keys).0)
              e)
          ∙ f)),
    λ h. absurd (ground (arith, e, (test_key_iff memc key).1 h.0)),
  )
  | inr e ↦ (
    λ f. (
      (test_key_iff memc key).0 e,
      (test_keys_iff memc keys).0 (
          sym (
            ap
              (λ (b : Bool).
                (if b then set_error memc (test_key memc key) else test_keys memc keys).0)
              e)
          ∙ f),
    ),
    λ h.
        ap (λ (b : Bool). (if b then set_error memc (test_key memc key) else test_keys memc keys).0)
          e
        ∙ (test_keys_iff memc keys).1 h.1,
  )
]

-- `memcached_key_test` of an array succeeds exactly if there is a key, and every one has 1 to 250
-- characters, which are printed and no blanks unless the client does not verify keys or speaks the
-- binary protocol.
pub key_test-success_iff :
    (memc : KeyState) (keys : List (List ℕ)) (number_of_keys : ℕ)
    → ((key_test memc (some keys) number_of_keys).0 ≡ success)
      ↔ ((0 < number_of_keys) × All (IsKey memc) (take number_of_keys keys))
unfolding key_test
key_test-success_iff memc keys zero =
    (λ e. absurd (ground (arith, e)), λ h. absurd (omega (arith, h.0)))
key_test-success_iff memc keys (suc n) = (
  λ e. (omega arith, (test_keys_iff memc (take (suc n) keys)).0 (sym (several n memc keys) ∙ e)),
  λ h. several n memc keys ∙ (test_keys_iff memc (take (suc n) keys)).1 h.1,
)
  where
    positive : (n : ℕ) → (suc n == 0) ≡ false
    positive n = ground arith

    several :
        (n : ℕ) (memc : KeyState) (keys : List (List ℕ))
        → (key_test memc (some keys) (suc n)).0 ≡ (test_keys memc (take (suc n) keys)).0
    several n memc keys =
        ap
          (λ (b : Bool).
            (if b then set_error memc invalid_arguments else test_keys memc (take (suc n) keys)).0)
          (positive n)

-- The client while `memcached_set_namespace` tests a key.
abbrev pub verifying : KeyState → KeyState
verifying memc = record memc { verify_key = true }

install-failed :
    (memory : Bool) (memc : KeyState) (key : List ℕ)
    → is_failed (test_key (verifying memc) key) ≡ true
    → install_namespace memory memc key
      ≡ (test_key (verifying memc) key, record memc { last_error = test_key (verifying memc) key })
unfolding install_namespace key_test test_keys
install-failed memory memc key e = rw e (rw e)

-- What follows once the key has passed.
abbrev passed : Bool → KeyState → List ℕ → Return × KeyState
passed memory memc key =
    if ltb 127 (length key)
    then set_error memc key_too_big
    else if memory
    then (success, record memc { name_space = some key })
    else set_error (record memc { name_space = none }) memory_allocation_failure

install-passed :
    (memory : Bool) (memc : KeyState) (key : List ℕ)
    → is_failed (test_key (verifying memc) key) ≡ false
    → install_namespace memory memc key ≡ passed memory memc key
unfolding install_namespace key_test test_keys is_failed
install-passed memory memc key e = rw e

-- What `memcached_set_namespace` of the string `key` may do to a client.
pub data Settled (memc : KeyState) (key : List ℕ) (r : Return × KeyState) : Type 0 where
  installed : r.0 ≡ success → r.1 ≡ record memc { name_space = some key } → Settled memc key r
  refused :
      (rc : Return)
      → rc ≢ success
      → r.0 ≡ rc
      → r.1 ≡ record memc { last_error = rc }
      → Settled memc key r
  lost :
      r.0 ≡ memory_allocation_failure
      → r.1 ≡ record memc { name_space = none; last_error = memory_allocation_failure }
      → Settled memc key r

install-success_iff :
    (memc : KeyState) (key : List ℕ)
    → ((install_namespace true memc key).0 ≡ success)
      ↔ (IsKey (verifying memc) key × (length key ≤ 127))
install-success_iff memc key = elim (Bool-cases (is_failed (test_key (verifying memc) key))) [
  | inl e ↦ (
    λ f. absurd (
        failed_not_success _ e
          (sym (ap (λ (r : Return × KeyState). r.0) (install-failed true memc key e)) ∙ f)),
    λ h. absurd (ground (arith, e, (test_key_iff (verifying memc) key).1 h.0)),
  )
  | inr e ↦
      rw (install-passed true memc key e) (
        λ f. ((test_key_iff (verifying memc) key).0 e, ground (arith, f)),
        λ h. ground (arith, h.1),
      )
]

-- With memory, `memcached_set_namespace` of a string with a length succeeds exactly for a key of at
-- most 127 characters that would be taken by a client that verifies keys.
pub set_namespace-success_iff :
    (memc : KeyState) (key : List ℕ) (key_length : ℕ)
    → key_length ≢ 0
    → ((set_namespace true memc (some key) key_length).0 ≡ success)
      ↔ (IsKey (verifying memc) (take key_length key) × (length (take key_length key) ≤ 127))
unfolding set_namespace
set_namespace-success_iff memc key key_length h = elim (Bool-cases (key_length == 0)) [
  | inl e ↦ absurd (ground (arith, e, h))
  | inr e ↦ rw e (install-success_iff memc (take key_length key))
]
