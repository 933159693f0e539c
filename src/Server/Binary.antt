-- ===== src/Server/Binary.antt =====
-- libmemcachedprotocol/binary_handler.c: how the server library reads the packets of the binary
-- protocol and carries out those that store, by the functions of interface version 1.
pub mod Requests
pub mod Fields
pub mod Pipeline
mod Tests
use libmemcached.Prelude.{
  ℕ, zero, suc, ◌+◌, ◌-◌, ◌*◌, ◌%◌, ◌^◌, Bool, true, false, not, ◌||◌, ◌&&◌, List, [], ◌∷◌, ◌++◌,
  Option, none, some, take, drop, length, leb, ◌==◌, if◌then◌else◌,
}
use libmemcached.Prelude.Words.{u32_mod}
use libmemcached.Server.Call.{Call, call_set, call_replace, call_add, call_append, call_prepend}
use libmemcached.Protocol.Binary.{response_magic}
use libmemcached.Protocol.Command
use libmemcached.Protocol.Status
use libmemcached.Protocol.Header.{Header, header_size, read_header, from_network, from_network_onto}
use libmemcached.Protocol.Storage.{request_magic}

-- `callback` answers a call with its status and a cas value, or there is no such function. `respond`
-- is what `binary_raw_response_handler` returns for a response, `unknown` the function for other
-- packets, if it is set.
pub record Callbacks : Type 0 where
  pub callback : Call → Option (ℕ × ℕ)
  pub respond : Header → ℕ
  pub unknown : Option (List ℕ → ℕ)

-- What a packet has led to.
pub record Executed : Type 0 where
  pub called : Option Call
  pub responses : List Header
  pub rval : ℕ

-- The handlers of `comcode_v0_v1_remap` that store.
pub data Handler : Type 0 where
  set_handler add_handler replace_handler append_handler prepend_handler : Handler

-- The row of an opcode; `none` is another handler, or none.
unfoldable pub comcode_remap : ℕ → Option Handler
comcode_remap cc =
    if cc == Command.addq || cc == Command.add
    then some add_handler
    else if cc == Command.appendq || cc == Command.append
    then some append_handler
    else if cc == Command.prependq || cc == Command.prepend
    then some prepend_handler
    else if cc == Command.replaceq || cc == Command.replace
    then some replace_handler
    else if cc == Command.setq || cc == Command.set
    then some set_handler
    else none

-- The opcode that is answered on success.
abbrev pub answered : Handler → ℕ
answered set_handler = Command.set
answered add_handler = Command.add
answered replace_handler = Command.replace
answered append_handler = Command.append
answered prepend_handler = Command.prepend

-- The key behind `extlen` bytes of the body, and the data behind it, by lengths that wrap around.
abbrev pub key_at : ℕ → Header → List ℕ → List ℕ
key_at extlen h body = take h.keylen (drop extlen body)

abbrev pub data_at : ℕ → Header → List ℕ → List ℕ
data_at extlen h body =
    take ((h.bodylen + 2 * u32_mod - h.keylen - extlen) % u32_mod)
      (drop h.keylen (drop extlen body))

abbrev pub flags_of : List ℕ → ℕ
flags_of body = from_network (take 4 body)

abbrev pub expiration_of : List ℕ → ℕ
expiration_of body = from_network (take 4 (drop 4 body))

-- The call that a handler makes, from the header and what stands behind it.
unfoldable pub call_of : Handler → Header → List ℕ → Call
unfolding from_network_onto
call_of set_handler h body =
    call_set (key_at 8 h body) (data_at 8 h body) (flags_of body) (expiration_of body) h.cas
call_of replace_handler h body =
    call_replace (key_at 8 h body) (data_at 8 h body) (flags_of body) (expiration_of body) h.cas
call_of add_handler h body =
    call_add (key_at 8 h body) (data_at 8 h body) (flags_of body) (expiration_of body)
call_of append_handler h body = call_append (key_at 0 h body) (data_at 0 h body) h.cas
call_of prepend_handler h body = call_prepend (key_at 0 h body) (data_at 0 h body) h.cas

-- A response without extras.
abbrev pub no_extras : Header → ℕ → ℕ → Header
no_extras h status cas = record {
  magic = response_magic;
  opcode = h.opcode;
  keylen = 0;
  extlen = 0;
  datatype = 0;
  status = status;
  bodylen = 0;
  opaque = h.opaque;
  cas = cas;
}

-- The rest of a handler, with the answer of the function; the flag tells if success is answered.
unfoldable pub answer : Callbacks → Bool → Header → Call → Option (ℕ × ℕ) → Executed
answer s loud h call none = record { called = none; responses = []; rval = Status.unknown_command }
answer s loud h call (some (status, cas)) =
    let response = no_extras h Status.succeeded cas in
    if status == Status.succeeded && loud
    then record { called = some call; responses = response ∷ []; rval = s.respond response }
    else record { called = some call; responses = []; rval = status }

-- `set_command_handler` and the others.
unfoldable pub run_handler : Callbacks → Handler → Header → List ℕ → Executed
unfolding call_of answer
run_handler s handler h body =
    let call = call_of handler h body in
    answer s (h.opcode == answered handler) h call (s.callback call)

-- The function for unknown packets.
unfoldable pub ask_unknown : Option (List ℕ → ℕ) → List ℕ → Executed → Executed
ask_unknown none packet e = e
ask_unknown (some unknown) packet e =
    if e.rval == Status.unknown_command then record e { rval = unknown packet } else e

-- An error is answered.
unfoldable pub answer_error : Callbacks → Header → Executed → Executed
answer_error s h e =
    let response = no_extras h e.rval 0 in
    if e.rval == Status.succeeded || (e.rval == Status.einternal || e.rval == Status.not_supported)
    then e
    else record e { responses = e.responses ++ response ∷ []; rval = s.respond response }

-- A packet with this header, and the handler for its opcode; `none` is a command of another kind.
unfoldable pub execute_handler : Callbacks → Header → List ℕ → Option Handler → Option Executed
unfolding run_handler ask_unknown answer_error
execute_handler s h packet none = none
execute_handler s h packet (some handler) = some (
    answer_error s h
      (ask_unknown s.unknown packet (run_handler s handler h (drop header_size packet))))

-- `execute_command`
unfoldable pub execute_command : Callbacks → List ℕ → Option Executed
unfolding comcode_remap execute_handler read_header
execute_command s packet =
    let h = read_header packet in execute_handler s h packet (comcode_remap h.opcode)

-- `memcached_protocol_event_t`, or the stop at a command of another kind.
pub data Event : Type 0 where
  read_event error_event pause_event elsewhere : Event

-- The event, what the packets have led to, and what is left of the input.
pub record Processed : Type 0 where
  pub event : Event
  pub executed : List Executed
  pub left : List ℕ

abbrev pub stop : Event → List Executed → List ℕ → Processed
stop event done left = record { event = event; executed = done; left = left }

-- The end of a round; `more` is the next one.
unfoldable pub end_round : List ℕ → Processed → Option Executed → Processed
end_round input more none = stop elsewhere [] input
end_round input more (some e) =
    if e.rval == Status.einternal
    then stop error_event (e ∷ []) input
    else if e.rval == Status.not_supported
    then stop pause_event (e ∷ []) input
    else record more { executed = e ∷ more.executed }

-- The size of the packet at the head of the input.
unfoldable pub packet_size : List ℕ → ℕ
unfolding read_header
packet_size input = let h = read_header input in header_size + h.bodylen

-- The input starts with a complete packet.
abbrev pub is_complete : List ℕ → Bool
is_complete input = leb header_size (length input) && leb (packet_size input) (length input)

-- The loop; each round takes the bytes of a header at least.
unfoldable pub process_packets : Callbacks → ℕ → List ℕ → Processed
unfolding execute_command end_round packet_size
process_packets s zero input = stop read_event [] input
process_packets s (suc fuel) input =
    let more = process_packets s fuel (drop (packet_size input) input) in
    if is_complete input
    then end_round input more (execute_command s input)
    else stop read_event [] input

-- `memcached_binary_protocol_process_data`; only the first packet's magic is looked at.
unfoldable pub process_data : Callbacks → List ℕ → Processed
unfolding process_packets read_header
process_data s input =
    let h = read_header input in
    let processed = process_packets s (length input) input in
    if h.magic == request_magic then processed else stop error_event [] input
