-- ===== src/Server/Binary/Pipeline.antt =====
-- libmemcached/storage.cc, libmemcachedprotocol/binary_handler.c: requests that arrive one behind the
-- other.
use libmemcached.Prelude.{
  ℕ, zero, suc, ◌+◌, ◌≤◌, ◌≡◌, ◌∙◌, refl, sym, ap, ap₂, Bool, true, false, List, [], ◌∷◌, ◌++◌,
  Option, none, some, map, concat, drop, length, ◌==◌, if◌then◌else◌, length-append,
  drop-length_append, All, arith,
}
use libmemcached.Protocol.Status
use libmemcached.Protocol.Header.{Header, header_bytes, header_size, length-header_bytes}
use libmemcached.Protocol.Storage.{request_magic}
use libmemcached.Server.Call.{Call}
use libmemcached.Server.Binary.{
  Callbacks, Executed, answer, answer_error, ask_unknown, run_handler, comcode_remap, answered,
  execute_command, execute_handler, end_round, packet_size, is_complete, no_extras, process_packets,
  process_data, stop, read_event, error_event,
}
use libmemcached.Server.Binary.Requests.{
  Request, IsRequest, sent, extras, request_header, text, handler_of, asks,
  comcode_remap-get_com_code, answered-get_com_code,
}
use libmemcached.Server.Binary.Fields.{call_of-asks, sent-append, read_header-sent, length-sent}

-- Each function is set and stores what it is given, with a cas value that it grants, and responses
-- can be sent.
pub record Accepts (s : Callbacks) (grant : Call → ℕ) : Type 0 where
  pub stored : (call : Call) → s.callback call ≡ some (Status.succeeded, grant call)
  pub responded : (h : Header) → s.respond h ≡ Status.succeeded

-- A call that is carried out, and the response if it is wanted.
abbrev pub granted : (Call → ℕ) → Request → Bool → ℕ → Executed
granted grant r loud rval = record {
  called = some (asks r);
  responses =
      if loud then no_extras (request_header r) Status.succeeded (grant (asks r)) ∷ [] else [];
  rval = rval;
}

abbrev pub outcome : (Call → ℕ) → Request → Executed
outcome grant r = granted grant r r.reply Status.succeeded

module _ (s : Callbacks) (grant : Call → ℕ) (a : Accepts s grant) where
  answer-outcome :
      (r : Request) (loud : Bool)
      → loud ≡ r.reply
      → answer s loud (request_header r) (asks r) (some (Status.succeeded, grant (asks r)))
        ≡ outcome grant r
  unfolding answer
  answer-outcome r true e = ap₂ (granted grant r) e (a.responded _)
  answer-outcome r false e = ap (λ b. granted grant r b Status.succeeded) e

  ask_unknown-outcome :
      (unknown : Option (List ℕ → ℕ)) (packet : List ℕ) (r : Request)
      → ask_unknown unknown packet (outcome grant r) ≡ outcome grant r
  unfolding ask_unknown
  ask_unknown-outcome none packet r = refl
  ask_unknown-outcome (some unknown) packet r = refl

  run_handler-outcome :
      (r : Request) (rest : List ℕ)
      → IsRequest r
      → run_handler s (handler_of r.verb) (request_header r) (extras r ++ (text r ++ rest))
        ≡ outcome grant r
  unfolding run_handler
  run_handler-outcome r rest v =
      let h = request_header r in
      let loud = h.opcode == answered (handler_of r.verb) in
      ap (λ c. answer s loud h c (s.callback c))
        (call_of-asks r.request_id r.ns r.key r.flags r.expiration r.value r.cas r.reply rest r.verb
          v)
      ∙ ap (answer s loud h (asks r)) (a.stored (asks r))
      ∙ answer-outcome r loud (answered-get_com_code r.verb r.reply)

  drop_header :
      (r : Request) (rest : List ℕ)
      → drop header_size (sent r ++ rest) ≡ extras r ++ (text r ++ rest)
  drop_header r rest =
      ap₂ drop (sym (length-header_bytes (request_header r))) (sent-append r rest)
      ∙ drop-length_append (header_bytes (request_header r)) _

  execute_command-outcome :
      (r : Request) (rest : List ℕ)
      → IsRequest r
      → execute_command s (sent r ++ rest) ≡ some (outcome grant r)
  unfolding execute_command execute_handler
  execute_command-outcome r rest v =
      let packet = sent r ++ rest in
      let h = request_header r in
      ap (λ x. execute_handler s x packet (comcode_remap x.opcode)) (read_header-sent r rest v)
      ∙ ap (execute_handler s h packet) (comcode_remap-get_com_code r.verb r.reply)
      ∙ ap (λ e. some (answer_error s h (ask_unknown s.unknown packet e)))
          (ap (run_handler s (handler_of r.verb) h) (drop_header r rest)
            ∙ run_handler-outcome r rest v)
      ∙ ap (λ e. some (answer_error s h e)) (ask_unknown-outcome s.unknown packet r)
      ∙ unfold answer_error in refl

  packet_size-sent :
      (r : Request) (rest : List ℕ) → IsRequest r → packet_size (sent r ++ rest) ≡ length (sent r)
  unfolding packet_size
  packet_size-sent r rest v =
      ap (λ h. header_size + h.bodylen) (read_header-sent r rest v) ∙ sym (length-sent r v)

  is_complete-sent :
      (r : Request) (rest : List ℕ) → IsRequest r → is_complete (sent r ++ rest) ≡ true
  is_complete-sent r rest v =
      ground (arith, packet_size-sent r rest v, length-append (sent r) rest, length-sent r v)

  process_packets-outcome :
      (fuel : ℕ) (rs : List Request)
      → All IsRequest rs
      → length rs ≤ fuel
      → process_packets s fuel (concat (map sent rs)) ≡ stop read_event (map (outcome grant) rs) []
  unfolding process_packets
  process_packets-outcome zero [] v k = refl
  process_packets-outcome (suc fuel) [] v k = refl
  process_packets-outcome zero (r ∷ rs) v k = absurd (omega arith)
  process_packets-outcome (suc fuel) (r ∷ rs) (v, vs) k =
      let rest = concat (map sent rs) in
      let packet = sent r ++ rest in
      let more = process_packets s fuel (drop (packet_size packet) packet) in
      ap
        (λ b.
          if b then end_round packet more (execute_command s packet) else stop read_event [] packet)
        (is_complete-sent r rest v)
      ∙ ap₂ (end_round packet)
          (ap (process_packets s fuel) (
              ap (λ n. drop n packet) (packet_size-sent r rest v)
              ∙ drop-length_append (sent r) rest)
            ∙ process_packets-outcome fuel rs vs (omega arith))
          (execute_command-outcome r rest v)
      ∙ unfold end_round in refl

enough : (rs : List Request) → All IsRequest rs → length rs ≤ length (concat (map sent rs))
enough [] v = omega arith
enough (r ∷ rs) (v, vs) =
    omega (arith, enough rs vs, length-sent r v, length-append (sent r) (concat (map sent rs)))

-- Requests of the client that store, by the binary protocol and with sizes and numbers that fit, reach
-- the server library one behind the other, at least one of them, in one buffer. Then each makes the
-- call that it asks for, in order, with the same key behind its namespace, value, flags, expiration and
-- cas value; exactly those that want a reply are answered, with their own opaque; nothing is left, and
-- the library wants to read on. The server has all the functions, they store what they are given, and
-- the responses can be sent.
pub process_data-requests :
    (s : Callbacks) (grant : Call → ℕ) (r : Request) (rs : List Request)
    → Accepts s grant
    → IsRequest r
    → All IsRequest rs
    → process_data s (concat (map sent (r ∷ rs)))
      ≡ stop read_event (map (outcome grant) (r ∷ rs)) []
unfolding process_data
process_data-requests s grant r rs a v vs =
    let input = concat (map sent (r ∷ rs)) in
    ap
      (λ h.
        if h.magic == request_magic
        then process_packets s (length input) input
        else stop error_event [] input)
      (read_header-sent r (concat (map sent rs)) v)
    ∙ process_packets-outcome s grant a (length input) (r ∷ rs) (v, vs) (enough (r ∷ rs) (v, vs))
