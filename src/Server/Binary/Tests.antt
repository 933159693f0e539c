-- ===== src/Server/Binary/Tests.antt =====
-- Packets of the binary protocol.
use libmemcached.Prelude.{
  ℕ, ◌≡◌, refl, Bool, true, false, [], ◌∷◌, none, some, map, concat, take, arith,
}
use libmemcached.Protocol.Status
use libmemcached.Protocol.Header.{Header}
use libmemcached.Protocol.Storage.{StorageAction, set_op, cas_op, append_op}
use libmemcached.Server.Call.{Call}
use libmemcached.Server.Binary.{Callbacks, process_data, stop, read_event}
use libmemcached.Server.Binary.Requests.{Request, IsRequest, sent}
use libmemcached.Server.Binary.Pipeline.{Accepts, outcome, process_data-requests}

abbrev request : StorageAction → Bool → Request
request verb reply = record {
  request_id = 6;
  verb = verb;
  ns = b'n' ∷ [];
  key = b'k' ∷ b'e' ∷ b'y' ∷ [];
  flags = 5;
  expiration = 60;
  value = b'v' ∷ b'\r' ∷ b'\n' ∷ [];
  cas = 700;
  reply = reply;
}

abbrev grant : Call → ℕ
grant call = 9

abbrev accepting : Callbacks
accepting = record {
  callback = λ call. some (Status.succeeded, grant call);
  respond = λ h. Status.succeeded;
  unknown = none;
}

accepting-Accepts : Accepts accepting grant
accepting-Accepts = record { stored = λ call. refl; responded = λ h. refl }

request-IsRequest : (verb : StorageAction) (reply : Bool) → IsRequest (request verb reply)
request-IsRequest verb reply = record {
  key_size = omega arith;
  body_size = omega arith;
  flags = omega arith;
  expiration = omega arith;
  cas = omega arith;
}

process_data-requests_example :
    process_data accepting
      (concat (map sent (request cas_op true ∷ request append_op false ∷ request set_op true ∷ [])))
    ≡ stop read_event
        (map
          (outcome grant)
          (request cas_op true ∷ request append_op false ∷ request set_op true ∷ []))
        []
process_data-requests_example =
    process_data-requests accepting grant (request cas_op true)
      (request append_op false ∷ request set_op true ∷ []) accepting-Accepts
      (request-IsRequest cas_op true)
      (request-IsRequest append_op false, (request-IsRequest set_op true, tt))

-- A packet that is cut waits for the rest.
cut_waits :
    process_data accepting (take 30 (sent (request set_op true)))
    ≡ stop read_event [] (take 30 (sent (request set_op true)))
unfolding process_data libmemcached.Protocol.Storage.binary_request
    libmemcached.Protocol.Header.header_bytes
cut_waits = refl
