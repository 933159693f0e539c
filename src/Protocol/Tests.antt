-- ===== src/Protocol/Tests.antt =====
-- Lines from the server, and a value in pieces.
use libmemcached.Prelude.{ℕ, ◌≡◌, ◌++◌, refl, true, List, [], ◌∷◌, some, none, arith}
use libmemcached.Return.{
  Return, success, stored, notfound, e2big, unknown_read_failure, partial_read,
}
use libmemcached.Io.{Instance, received, interrupted}
use libmemcached.Io.Tests.{instance_with}
use libmemcached.Protocol.Value.{result_reset, Answer, textual_value_fetch}
use libmemcached.Protocol.Numbers.{strtoul, print}
use libmemcached.Protocol.Response.{textual_read_one_response, read_one_response}
use libmemcached.Protocol.Response.Values.{
  textual_read_one_response-value, Responds, value_reply, holding,
}
use libmemcached.Protocol.Words

abbrev code : Answer → Return
code none = partial_read
code (some (rc, r, i)) = rc

abbrev answers : List ℕ → Answer
answers line =
    read_one_response (λ n. true) none 0 result_reset (instance_with (line ++ Words.word_crlf) [])
      350 []

answer_stored : code (answers (Words.word_stor ++ b'E' ∷ b'D' ∷ [])) ≡ stored
unfolding read_one_response
answer_stored = refl

answer_not_found : code (answers Words.word_not_found) ≡ notfound
unfolding read_one_response
answer_not_found = refl

answer_too_large : code (answers Words.word_too_large) ≡ e2big
unfolding read_one_response
answer_too_large = refl

answer_unknown : code (answers (b'H' ∷ b'I' ∷ [])) ≡ unknown_read_failure
unfolding read_one_response
answer_unknown = refl

-- A length of 2 ^ 64 - 1 wraps around: one byte is asked for, and the read counts as complete.
abbrev huge : List ℕ
huge = Words.word_value_space ++ b'k' ∷ b' ' ∷ b'0' ∷ b' ' ∷ print 18446744073709551615

wrapped :
    code (
      textual_read_one_response
        (λ n. true)
        none
        0
        result_reset
        (instance_with (huge ++ b'\r' ∷ b'\n' ∷ b'x' ∷ []) [])
        350
        [])
    ≡ success
unfolding textual_read_one_response textual_value_fetch strtoul print
wrapped = refl

abbrev halves : Instance
halves =
    instance_with (value_reply (b'n' ∷ []) (b'k' ∷ []) 7 (b'a' ∷ b'\n' ∷ []) (some 3) [])
      (interrupted ∷ received b'E' [] ∷ [])

textual_read_one_response-value_example :
    Responds
      (textual_read_one_response (λ n. true) none 1 result_reset halves 350 [])
      (holding (b'k' ∷ []) 7 (b'a' ∷ b'\n' ∷ []) (some 3))
      halves
      (b'E' ∷ [])
textual_read_one_response-value_example =
    textual_read_one_response-value (λ n. true) result_reset halves 350 [] (b'n' ∷ []) (b'k' ∷ []) 7
      (b'a' ∷ b'\n' ∷ []) (some 3) (b'E' ∷ []) refl (unfold print in refl) (refl, tt) (refl, tt)
      (omega arith) (omega arith) (omega arith) (omega arith) (omega arith) refl
