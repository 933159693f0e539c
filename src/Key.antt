-- ===== src/Key.antt =====
-- libmemcached/key.cc and namespace.cc: which keys and namespaces are accepted.
pub mod Accepted
mod Tests
use libmemcached.Prelude.{
  ℕ, ◌-◌, List, [], ◌∷◌, Bool, true, false, not, ◌&&◌, Option, none, some, length, take, ltb, leb,
  ◌==◌, if◌then◌else◌,
}
use libmemcached.Return.{
  Return, success, bad_key_provided, invalid_arguments, key_too_big, memory_allocation_failure,
  is_failed,
}

-- The fields of `memcached_st` that the two files use, with the code of its last error.
pub record KeyState : Type 0 where
  pub verify_key : Bool
  pub binary_protocol : Bool
  pub name_space : Option (List ℕ)
  pub last_error : Return

-- MEMCACHED_MAX_KEY and MEMCACHED_MAX_NAMESPACE
abbrev pub max_key_size : ℕ
max_key_size = 251

abbrev pub max_namespace : ℕ
max_namespace = 128

-- `isgraph` of the C locale.
abbrev pub isgraph : ℕ → Bool
isgraph c = leb 33 c && leb c 126

-- `memcached_set_error` of a fatal code, as all that are set here: it is recorded, if there is memory
-- for the message, and returned.
abbrev pub set_error : KeyState → Return → Return × KeyState
set_error memc rc = (rc, record memc { last_error = rc })

-- `memcached_validate_key_length`
unfoldable pub validate_key_length : ℕ → Return
validate_key_length key_length =
    if key_length == 0
    then bad_key_provided
    else if leb max_key_size key_length
    then bad_key_provided
    else success

-- The loop over the characters of a key.
unfoldable pub all_graph : List ℕ → Bool
all_graph [] = true
all_graph (c ∷ cs) = let rest = all_graph cs in if isgraph c then rest else false

-- One round of the loop over the keys.
unfoldable pub test_key : KeyState → List ℕ → Return
unfolding validate_key_length all_graph
test_key memc key =
    if is_failed (validate_key_length (length key))
    then validate_key_length (length key)
    else if memc.verify_key && not memc.binary_protocol
    then (if all_graph key then success else bad_key_provided)
    else success

unfoldable pub test_keys : KeyState → List (List ℕ) → Return × KeyState
unfolding test_key
test_keys memc [] = (success, memc)
test_keys memc (key ∷ keys) =
    let rest = test_keys memc keys in
    let rc = test_key memc key in if is_failed rc then set_error memc rc else rest

-- `memcached_key_test`; `none` is an array that is NULL, of `number_of_keys` keys.
unfoldable pub key_test : KeyState → Option (List (List ℕ)) → ℕ → Return × KeyState
unfolding test_keys
key_test memc none number_of_keys =
    if number_of_keys == 0
    then set_error memc invalid_arguments
    else set_error memc bad_key_provided
key_test memc (some keys) number_of_keys =
    if number_of_keys == 0
    then set_error memc invalid_arguments
    else test_keys memc (take number_of_keys keys)

-- The part of `memcached_set_namespace` for a string that has a length.
unfoldable pub install_namespace : Bool → KeyState → List ℕ → Return × KeyState
unfolding key_test
install_namespace memory memc key =
    let tested = key_test (record memc { verify_key = true }) (some (key ∷ [])) 1 in
    let memc' = record (tested.1) { verify_key = memc.verify_key } in
    if is_failed tested.0
    then (memc'.last_error, memc')
    else if ltb (max_namespace - 1) (length key)
    then set_error memc' key_too_big
    else if memory
    then (success, record memc' { name_space = some key })
    else set_error (record memc' { name_space = none }) memory_allocation_failure

-- `memcached_set_namespace`; `memory` tells whether the copy can be made.
unfoldable pub set_namespace : Bool → KeyState → Option (List ℕ) → ℕ → Return × KeyState
unfolding install_namespace
set_namespace memory memc none key_length =
    if key_length == 0
    then (success, record memc { name_space = none })
    else set_error memc invalid_arguments
set_namespace memory memc (some key) key_length =
    if key_length == 0
    then set_error memc invalid_arguments
    else install_namespace memory memc (take key_length key)
