-- ===== src/Server/Tests.antt =====
-- Requests of the client, read by the server.
use libmemcached.Prelude.{
  ℕ, ◌≡◌, ◌++◌, refl, true, false, List, [], ◌∷◌, none, some, replicate, arith,
}
use libmemcached.Protocol.Numbers.{print}
use libmemcached.Protocol.Storage.{cas_op, ascii_request}
use libmemcached.Server.Ascii.{Served, stores, bad_key, needs_more, process_data}
use libmemcached.Server.Ascii.Commands.{storing}
use libmemcached.Server.Ascii.RoundTrip.{process_data-ascii_request}

-- "set k 0 0 2", without all of the value.
abbrev cut : List ℕ
cut =
    b's' ∷ b'e' ∷ b't' ∷ b' ' ∷ b'k' ∷ b' ' ∷ b'0' ∷ b' ' ∷ b'0' ∷ b' ' ∷ b'2' ∷ b'\r' ∷ b'\n'
    ∷ b'v' ∷ []

abbrev served : List ℕ → Served
served input = (process_data (λ c. true) input).1

waits : served cut ≡ needs_more
unfolding process_data
waits = refl

-- The client takes keys of 250 characters, the server of 240.
abbrev long_key : List ℕ
long_key = replicate 241 b'k'

refused :
    served
      (b's' ∷ b'e' ∷ b't' ∷ b' ' ∷ long_key ++ b' ' ∷ b'0' ∷ b' ' ∷ b'0' ∷ b' ' ∷ b'0' ∷ b'\n' ∷ [])
    ≡ bad_key
unfolding process_data
refused = refl

-- A cas value of 20 digits does not fit the client's buffer with its zero.
not_sent : ascii_request cas_op [] (b'k' ∷ []) 0 0 [] 10000000000000000000 true ≡ none
unfolding ascii_request print
not_sent = refl

process_data-ascii_request_example :
    (text : List ℕ) × (ascii_request cas_op
        (b'n' ∷ [])
        (b'k' ∷ [])
        5
        60
        (b'a' ∷ b'\n' ∷ [])
        77
        false
      ≡ some text)
    × (process_data (λ c. true) (text ++ b'q' ∷ []) ≡ (
      true,
      stores (storing cas_op (b'n' ∷ b'k' ∷ []) 5 60 (b'a' ∷ b'\n' ∷ []) 77) (b'q' ∷ []),
    ))
process_data-ascii_request_example =
    process_data-ascii_request cas_op (b'n' ∷ []) (b'k' ∷ []) 5 60 (b'a' ∷ b'\n' ∷ []) 77 false
      (b'q' ∷ []) (refl, (refl, tt)) (omega arith) (omega arith) (omega arith) (omega arith)
      (omega arith) (omega arith) (λ e. absurd (omega arith))
