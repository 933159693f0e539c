-- ===== src/Distribution/HostKey.antt =====
-- libmemcached/hosts.cc: the text that a server's points are hashed from, and `ketama_server_hash`.
use libmemcached.Prelude.{
  ℕ, zero, suc, ◌+◌, ◌*◌, ◌/◌, ◌%◌, List, [], ◌∷◌, ◌++◌, Bool, true, false, ltb, ◌==◌,
  if◌then◌else◌,
}
use libmemcached.Hashkit.Md5.{md5_signature, signature_word}
use libmemcached.Distribution.State.{Server}

-- `%u`: the decimal digits of a number, the last digits first; a digit for each unit of fuel.
unfoldable pub decimal_rev : ℕ → ℕ → List ℕ
decimal_rev zero n = []
decimal_rev (suc fuel) n =
    let rest = decimal_rev fuel (n / 10) in
    let last = b'0' + n % 10 in if ltb n 10 then last ∷ [] else last ∷ rest

abbrev pub reverse_onto : List ℕ → List ℕ → List ℕ
reverse_onto acc [] = acc
reverse_onto acc (x ∷ xs) = reverse_onto (x ∷ acc) xs

-- A `uint32_t` has at most ten digits.
unfoldable pub decimal : ℕ → List ℕ
unfolding decimal_rev
decimal n = reverse_onto [] (decimal_rev 10 n)

abbrev pub default_port : ℕ
default_port = 11211

-- `"/%s:%u-%u"` for the spymemcached layout; else `"%s-%u"` at the default port and `"%s:%u-%u"` at
-- any other.
unfoldable pub sort_host : Bool → Server → ℕ → List ℕ
unfolding decimal
sort_host true server i =
    b'/' ∷ (server.hostname ++ (b':' ∷ (decimal server.port ++ (b'-' ∷ decimal i))))
sort_host false server i =
    if server.port == default_port
    then server.hostname ++ (b'-' ∷ decimal i)
    else server.hostname ++ (b':' ∷ (decimal server.port ++ (b'-' ∷ decimal i)))

-- `sizeof(sort_host)`, with NI_MAXHOST 1025 and NI_MAXSERV 32.
abbrev pub sort_host_size : Bool → ℕ
sort_host_size true = 1 + (1025 + (1 + (32 + (1 + 32))))
sort_host_size false = 1025 + (1 + (32 + (1 + 32)))

-- `ketama_server_hash`
unfoldable pub ketama_server_hash : List ℕ → ℕ → ℕ
unfolding md5_signature signature_word
ketama_server_hash key alignment = signature_word (md5_signature key) (alignment * 4)
