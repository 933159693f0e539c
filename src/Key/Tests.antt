-- ===== src/Key/Tests.antt =====
-- Short keys and namespaces.
use libmemcached.Prelude.{
  ℕ, ◌≤◌, ◌<◌, ◌≡◌, ◌≢◌, ◌↔◌, refl, List, [], ◌∷◌, true, false, none, some, length, All, arith,
}
use libmemcached.Return.{success, bad_key_provided, invalid_arguments, is_failed}
use libmemcached.Key.{
  KeyState, validate_key_length, all_graph, test_key, test_keys, key_test, set_namespace,
}
use libmemcached.Key.Accepted.{IsKey, verifying, key_test-success_iff, set_namespace-success_iff}

abbrev client : KeyState
client = record {
  verify_key = true;
  binary_protocol = false;
  name_space = none;
  last_error = success;
}

-- "get me" has a blank.
abbrev two_words : List ℕ
two_words = b'g' ∷ b'e' ∷ b't' ∷ b' ' ∷ b'm' ∷ b'e' ∷ []

abbrev one_word : List ℕ
one_word = b'g' ∷ b'e' ∷ b't' ∷ []

blank_refused : (key_test client (some (one_word ∷ two_words ∷ [])) 2).0 ≡ bad_key_provided
unfolding key_test test_keys test_key all_graph validate_key_length is_failed
blank_refused = refl

blank_taken :
    (key_test (record client { binary_protocol = true }) (some (two_words ∷ [])) 1).0 ≡ success
unfolding key_test test_keys test_key all_graph validate_key_length is_failed
blank_taken = refl

no_keys : (key_test client (some []) 0).0 ≡ invalid_arguments
unfolding key_test
no_keys = refl

key_test-success_iff_example :
    ((key_test client (some (one_word ∷ [])) 1).0 ≡ success)
    ↔ ((0 < 1) × All (IsKey client) (one_word ∷ []))
key_test-success_iff_example = key_test-success_iff client (one_word ∷ []) 1

abbrev word_length : ℕ
word_length = 3

three : word_length ≢ 0
three e = ground (arith, e)

set_namespace-success_iff_example :
    ((set_namespace true client (some two_words) 3).0 ≡ success)
    ↔ (IsKey (verifying client) one_word × (length one_word ≤ 127))
set_namespace-success_iff_example = set_namespace-success_iff client two_words 3 three
