-- ===== src/Protocol/Words.antt =====
-- The words of the text protocol, as bytes.
use libmemcached.Prelude.{ℕ, List, [], ◌∷◌}

abbrev pub word_value_space : List ℕ
word_value_space = b'V' ∷ b'A' ∷ b'L' ∷ b'U' ∷ b'E' ∷ b' ' ∷ []

abbrev pub word_value : List ℕ
word_value = b'V' ∷ b'A' ∷ b'L' ∷ b'U' ∷ b'E' ∷ []

abbrev pub word_version : List ℕ
word_version = b'V' ∷ b'E' ∷ b'R' ∷ b'S' ∷ b'I' ∷ b'O' ∷ b'N' ∷ []

abbrev pub word_ok : List ℕ
word_ok = b'O' ∷ b'K' ∷ []

abbrev pub word_stat : List ℕ
word_stat = b'S' ∷ b'T' ∷ b'A' ∷ b'T' ∷ []

abbrev pub word_server_error : List ℕ
word_server_error =
    b'S' ∷ b'E' ∷ b'R' ∷ b'V' ∷ b'E' ∷ b'R' ∷ b'_' ∷ b'E' ∷ b'R' ∷ b'R' ∷ b'O' ∷ b'R' ∷ []

abbrev pub word_too_large : List ℕ
word_too_large =
    b'S' ∷ b'E' ∷ b'R' ∷ b'V' ∷ b'E' ∷ b'R' ∷ b'_' ∷ b'E' ∷ b'R' ∷ b'R' ∷ b'O' ∷ b'R' ∷ b' ' ∷ b'o'
    ∷ b'b' ∷ b'j' ∷ b'e' ∷ b'c' ∷ b't' ∷ b' ' ∷ b't' ∷ b'o' ∷ b'o' ∷ b' ' ∷ b'l' ∷ b'a' ∷ b'r'
    ∷ b'g' ∷ b'e' ∷ b' ' ∷ b'f' ∷ b'o' ∷ b'r' ∷ b' ' ∷ b'c' ∷ b'a' ∷ b'c' ∷ b'h' ∷ b'e' ∷ []

abbrev pub word_out_of_memory : List ℕ
word_out_of_memory =
    b'S' ∷ b'E' ∷ b'R' ∷ b'V' ∷ b'E' ∷ b'R' ∷ b'_' ∷ b'E' ∷ b'R' ∷ b'R' ∷ b'O' ∷ b'R' ∷ b' ' ∷ b'o'
    ∷ b'u' ∷ b't' ∷ b' ' ∷ b'o' ∷ b'f' ∷ b' ' ∷ b'm' ∷ b'e' ∷ b'm' ∷ b'o' ∷ b'r' ∷ b'y' ∷ []

abbrev pub word_out_of_memory_upper : List ℕ
word_out_of_memory_upper =
    b'S' ∷ b'E' ∷ b'R' ∷ b'V' ∷ b'E' ∷ b'R' ∷ b'_' ∷ b'E' ∷ b'R' ∷ b'R' ∷ b'O' ∷ b'R' ∷ b' ' ∷ b'O'
    ∷ b'u' ∷ b't' ∷ b' ' ∷ b'o' ∷ b'f' ∷ b' ' ∷ b'm' ∷ b'e' ∷ b'm' ∷ b'o' ∷ b'r' ∷ b'y' ∷ []

abbrev pub word_stor : List ℕ
word_stor = b'S' ∷ b'T' ∷ b'O' ∷ b'R' ∷ []

abbrev pub word_deleted : List ℕ
word_deleted = b'D' ∷ b'E' ∷ b'L' ∷ b'E' ∷ b'T' ∷ b'E' ∷ b'D' ∷ []

abbrev pub word_not_found : List ℕ
word_not_found = b'N' ∷ b'O' ∷ b'T' ∷ b'_' ∷ b'F' ∷ b'O' ∷ b'U' ∷ b'N' ∷ b'D' ∷ []

abbrev pub word_not_stored : List ℕ
word_not_stored = b'N' ∷ b'O' ∷ b'T' ∷ b'_' ∷ b'S' ∷ b'T' ∷ b'O' ∷ b'R' ∷ b'E' ∷ b'D' ∷ []

abbrev pub word_end : List ℕ
word_end = b'E' ∷ b'N' ∷ b'D' ∷ []

abbrev pub word_error : List ℕ
word_error = b'E' ∷ b'R' ∷ b'R' ∷ b'O' ∷ b'R' ∷ []

abbrev pub word_exists : List ℕ
word_exists = b'E' ∷ b'X' ∷ b'I' ∷ b'S' ∷ b'T' ∷ b'S' ∷ []

abbrev pub word_touched : List ℕ
word_touched = b'T' ∷ b'O' ∷ b'U' ∷ b'C' ∷ b'H' ∷ b'E' ∷ b'D' ∷ []

abbrev pub word_item : List ℕ
word_item = b'I' ∷ b'T' ∷ b'E' ∷ b'M' ∷ []

abbrev pub word_client_error : List ℕ
word_client_error =
    b'C' ∷ b'L' ∷ b'I' ∷ b'E' ∷ b'N' ∷ b'T' ∷ b'_' ∷ b'E' ∷ b'R' ∷ b'R' ∷ b'O' ∷ b'R' ∷ []

abbrev pub word_crlf : List ℕ
word_crlf = b'\r' ∷ b'\n' ∷ []

abbrev pub word_space : List ℕ
word_space = b' ' ∷ []

abbrev pub word_set : List ℕ
word_set = b's' ∷ b'e' ∷ b't' ∷ b' ' ∷ []

abbrev pub word_add : List ℕ
word_add = b'a' ∷ b'd' ∷ b'd' ∷ b' ' ∷ []

abbrev pub word_replace : List ℕ
word_replace = b'r' ∷ b'e' ∷ b'p' ∷ b'l' ∷ b'a' ∷ b'c' ∷ b'e' ∷ b' ' ∷ []

abbrev pub word_append : List ℕ
word_append = b'a' ∷ b'p' ∷ b'p' ∷ b'e' ∷ b'n' ∷ b'd' ∷ b' ' ∷ []

abbrev pub word_prepend : List ℕ
word_prepend = b'p' ∷ b'r' ∷ b'e' ∷ b'p' ∷ b'e' ∷ b'n' ∷ b'd' ∷ b' ' ∷ []

abbrev pub word_cas : List ℕ
word_cas = b'c' ∷ b'a' ∷ b's' ∷ b' ' ∷ []

abbrev pub word_noreply : List ℕ
word_noreply = b' ' ∷ b'n' ∷ b'o' ∷ b'r' ∷ b'e' ∷ b'p' ∷ b'l' ∷ b'y' ∷ []

abbrev pub word_incr : List ℕ
word_incr = b'i' ∷ b'n' ∷ b'c' ∷ b'r' ∷ b' ' ∷ []

abbrev pub word_decr : List ℕ
word_decr = b'd' ∷ b'e' ∷ b'c' ∷ b'r' ∷ b' ' ∷ []

abbrev pub word_delete : List ℕ
word_delete = b'd' ∷ b'e' ∷ b'l' ∷ b'e' ∷ b't' ∷ b'e' ∷ b' ' ∷ []

abbrev pub word_touch : List ℕ
word_touch = b't' ∷ b'o' ∷ b'u' ∷ b'c' ∷ b'h' ∷ b' ' ∷ []
