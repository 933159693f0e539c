-- ===== src/Server/Call.antt =====
-- include/libmemcachedprotocol-0.0/callback.h: the functions of interface version 1 that store.
use libmemcached.Prelude.{ℕ, List}

-- The call of the function that the server has set: key, data, flags, timeout and cas value.
pub data Call : Type 0 where
  call_set call_replace : List ℕ → List ℕ → ℕ → ℕ → ℕ → Call
  call_add : List ℕ → List ℕ → ℕ → ℕ → Call
  call_append call_prepend : List ℕ → List ℕ → ℕ → Call
