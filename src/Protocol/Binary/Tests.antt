-- ===== src/Protocol/Binary/Tests.antt =====
-- A value and an error of the binary protocol.
use libmemcached.Prelude.{◌≡◌, ◌≢◌, ◌++◌, refl, true, [], ◌∷◌, none, some, arith, replicate}
use libmemcached.Return.{Return, success, notfound, fetch_notfinished, unknown_read_failure}
use libmemcached.Io.{Instance, received, interrupted}
use libmemcached.Io.Stream.{Leaves}
use libmemcached.Io.Tests.{instance_with}
use libmemcached.Io.Read.{safe_read}
use libmemcached.Protocol.Value.{result_reset, Answer}
use libmemcached.Protocol.Header.{Header, header_bytes, read_header, to_network}
use libmemcached.Protocol.Binary.{binary_read_one_response}
use libmemcached.Protocol.Binary.Replies.{error_result}
use libmemcached.Protocol.Binary.Errors.{binary_read_one_response-error_result}
use libmemcached.Protocol.Binary.Values.{
  value_header, binary_holding, binary_read_one_response-getk,
}
use libmemcached.Protocol.Command
use libmemcached.Protocol.Status

abbrev code : Answer → Return
code none = success
code (some (rc, r, i)) = rc

-- "Not found", for a quiet set.
abbrev missing : Header
missing = record (value_header 0 0 0 0) {
  opcode = Command.setq;
  extlen = 0;
  status = Status.key_enoent;
  bodylen = 2;
}

abbrev answers : Instance → Return
answers i = code (binary_read_one_response (λ n. true) 0 1024 result_reset i)

quiet_error :
    answers (instance_with (header_bytes missing ++ b'N' ∷ b'f' ∷ []) []) ≡ fetch_notfinished
unfolding binary_read_one_response header_bytes to_network read_header safe_read
quiet_error = refl

-- Without a text the error of a quiet command is reported.
reported : answers (instance_with (header_bytes (record missing { bodylen = 0 })) []) ≡ notfound
unfolding binary_read_one_response header_bytes to_network read_header safe_read
reported = refl

not_a_response : answers (instance_with (replicate 24 b'x') []) ≡ unknown_read_failure
unfolding binary_read_one_response read_header safe_read
not_a_response = refl

abbrev error_reply : Instance
error_reply =
    instance_with (header_bytes missing ++ b'N' ∷ []) (interrupted ∷ received b'f' (b'x' ∷ []) ∷ [])

abbrev not_succeeded : Status.key_enoent ≢ Status.succeeded
not_succeeded = λ e. absurd (omega arith)

abbrev not_continued : Status.key_enoent ≢ Status.auth_continue
not_continued = λ e. absurd (omega arith)

binary_read_one_response-error_result_example :
    (j : Instance) × (binary_read_one_response (λ n. true) 0 1024 result_reset error_reply
      ≡ some (error_result missing, result_reset, j))
    × Leaves error_reply j (b'x' ∷ [])
binary_read_one_response-error_result_example =
    binary_read_one_response-error_result (λ n. true) 0 1024 result_reset error_reply missing
      (b'N' ∷ b'f' ∷ []) (b'x' ∷ []) refl
      (record {
        magic = omega arith;
        opcode = omega arith;
        keylen = omega arith;
        extlen = omega arith;
        datatype = omega arith;
        status = omega arith;
        bodylen = omega arith;
        opaque = omega arith;
        cas = omega arith;
      })
      refl not_succeeded not_continued refl (unfold header_bytes to_network in refl)

abbrev value_reply : Instance
value_reply =
    instance_with (header_bytes (value_header 2 1 5 9))
      (received 0 (0 ∷ 0 ∷ 7 ∷ b'n' ∷ []) ∷ received b'k' (b'v' ∷ b'x' ∷ []) ∷ [])

binary_read_one_response-getk_example :
    (j : Instance) × (binary_read_one_response (λ n. true) 1 1024 result_reset value_reply
      ≡ some (success, binary_holding (b'k' ∷ []) 7 (b'v' ∷ []) 5, j))
    × Leaves value_reply j (b'x' ∷ [])
binary_read_one_response-getk_example =
    binary_read_one_response-getk (λ n. true) 1024 result_reset value_reply (b'n' ∷ []) (b'k' ∷ [])
      7 5 9 (b'v' ∷ []) (b'x' ∷ []) refl refl (omega arith) (omega arith) (omega arith)
      (omega arith) (omega arith) (omega arith) (unfold header_bytes to_network in refl)
