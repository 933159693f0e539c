-- ===== src/Server/Ascii/RoundTrip.antt =====
-- libmemcached/storage.cc and libmemcachedprotocol/ascii_handler.c: what the client writes to store a
-- value, the server reads.
use libmemcached.Prelude.{
  ◌*◌, ℕ, ◌+◌, ◌^◌, ◌≤◌, ◌<◌, ◌≡◌, refl, ap, ◌∙◌, Bool, true, false, not, List, [], ◌∷◌, ◌++◌, some,
  length, All, arith, ◌==◌, ◌>>=◌, Bool-cases, inl, inr, append_assoc, append-nil, length-append,
  if◌then◌else◌,
}
use libmemcached.Prelude.Words.{u32_mod, u64_mod}
use libmemcached.Protocol.Numbers.{print, length-print, length-print_small}
use libmemcached.Protocol.Storage.{
  StorageAction, set_op, replace_op, add_op, prepend_op, append_op, cas_op, storage_op_string,
  printed, display_length, ascii_request,
}
use libmemcached.Protocol.Value.RoundTrip.{IsName}
use libmemcached.Protocol.Words
use libmemcached.Server.Ascii.{
  find_line, ascii_tokenize_command, with_tokens, process_line, AsciiCmd, ascii_to_cmd, stores,
  process_command, noreply, muted, process_data,
}
use libmemcached.Server.Ascii.Commands.{
  command_of, name_of, cas_words, reply_words, words_of, HasCas, storing, ascii_to_cmd-name,
  print-IsWord, name_of-IsWord, muted-reply, muted-noreply, process_command-words,
  process_storage_command-words,
}
use libmemcached.Server.Ascii.Tokens.{
  NotSpace, IsWord, separator, joined, find_line-joined, ascii_tokenize_command-joined,
}

-- A number that has room for its zero.
printed-print : (size n : ℕ) → length (print n) + 1 < size → printed size n ≡ some (b' ' ∷ print n)
unfolding printed
printed-print size n h = ground arith

storage_op_string-name : (verb : StorageAction) → storage_op_string verb ≡ name_of verb ++ b' ' ∷ []
unfolding storage_op_string
storage_op_string-name set_op = refl
storage_op_string-name replace_op = refl
storage_op_string-name add_op = refl
storage_op_string-name prepend_op = refl
storage_op_string-name append_op = refl
storage_op_string-name cas_op = refl

-- The request, as a line of words and the value behind it.
abbrev pub request_text : StorageAction → List ℕ → ℕ → ℕ → List ℕ → ℕ → Bool → List ℕ
request_text verb key flags expiration value cas reply =
    joined (words_of verb key flags expiration (length value) (cas_words cas ++ reply_words reply))
    ++ 10 ∷ (value ++ Words.word_crlf)

ascii_request-request_text :
    (verb : StorageAction) (ns key : List ℕ) (flags expiration : ℕ) (value : List ℕ) (cas : ℕ)
    (reply : Bool)
    → flags < u32_mod
    → length value < 2 ^ 63
    → cas < 10 ^ 19
    → ascii_request verb ns key flags expiration value cas reply
      ≡ some (request_text verb (ns ++ key) flags expiration value cas reply)
unfolding ascii_request
ascii_request-request_text verb ns key flags expiration value cas reply hf hv hc =
    rw
      (
        printed-print (display_length + 1) flags
            (omega (arith, length-print_small flags (omega arith))),
        printed-print (display_length + 2) expiration (omega (arith, length-print expiration)),
        printed-print (display_length + 1) (length value)
            (omega (arith, length-print_small (length value) (omega arith))),
        printed-print (display_length + 1) cas (omega (arith, length-print_small cas hc)),
        storage_op_string-name verb,
      )
      (text_same reply)
  where
    text_same :
        (reply : Bool)
        → (do
          cas_text ← if cas == 0 then some [] else some (b' ' ∷ print cas)
          some (
              name_of verb
              ++ b' ' ∷ []
              ++ (ns
                  ++ (key
                      ++ ((b' ' ∷ print flags)
                          ++ ((b' ' ∷ print expiration)
                              ++ ((b' ' ∷ print (length value))
                                  ++ (cas_text
                                      ++ ((if reply then [] else Words.word_noreply)
                                          ++ (Words.word_crlf
                                              ++ (value ++ Words.word_crlf)))))))))))
          ≡ some (request_text verb (ns ++ key) flags expiration value cas reply)
    text_same true = elim (Bool-cases (cas == 0)) [
      | inl e ↦ rw e (simp append_assoc)
      | inr e ↦ rw e (simp append_assoc)
    ]
    text_same false = elim (Bool-cases (cas == 0)) [
      | inl e ↦ rw e (simp append_assoc)
      | inr e ↦ rw e (simp append_assoc)
    ]

name-NotSpace : (c : ℕ) → IsName c → NotSpace c
name-NotSpace c h = ground arith

names-NotSpace : (key : List ℕ) → All IsName key → All NotSpace key
names-NotSpace [] h = tt
names-NotSpace (c ∷ key) h = (name-NotSpace c h.0, names-NotSpace key h.1)

abbrev IsShort : List ℕ → Type 0
IsShort w = length w ≤ 240

length-joined : (ws : List (List ℕ)) → All IsShort ws → length (joined ws) ≤ 241 * length ws
length-joined [] h = omega arith
length-joined (w ∷ ws) h =
    omega (arith, length-joined ws h.1, h.0, length-append w (separator ws ∷ joined ws))

more_words :
    (P : List ℕ → Type 0) (cas : ℕ) (reply : Bool)
    → P (print cas)
    → P noreply
    → All P (cas_words cas ++ reply_words reply)
more_words P cas reply h k = elim (Bool-cases (cas == 0)) [
  | inl e ↦ rw e (replying reply)
  | inr e ↦ rw e (h, replying reply)
]
  where
    replying : (reply : Bool) → All P (reply_words reply)
    replying true = tt
    replying false = (k, tt)

length-more_words : (cas : ℕ) (reply : Bool) → length (cas_words cas ++ reply_words reply) ≤ 2
length-more_words cas true = elim (Bool-cases (cas == 0)) [
  | inl e ↦ rw e (omega arith)
  | inr e ↦ rw e (omega arith)
]
length-more_words cas false = elim (Bool-cases (cas == 0)) [
  | inl e ↦ rw e (omega arith)
  | inr e ↦ rw e (omega arith)
]

noreply-IsWord : IsWord noreply
noreply-IsWord = (omega arith, (refl, (refl, (refl, (refl, (refl, (refl, (refl, tt))))))))

length-name_of : (verb : StorageAction) → IsShort (name_of verb)
length-name_of set_op = omega arith
length-name_of replace_op = omega arith
length-name_of add_op = omega arith
length-name_of prepend_op = omega arith
length-name_of append_op = omega arith
length-name_of cas_op = omega arith

muted_words :
    (verb : StorageAction) (key : List ℕ) (flags expiration size cas : ℕ) (reply : Bool)
    → size < u64_mod
    → cas < u64_mod
    → muted (words_of verb key flags expiration size (cas_words cas ++ reply_words reply))
      ≡ (not reply, words_of verb key flags expiration size (cas_words cas))
muted_words verb key flags expiration size cas true h k =
    ap (λ more. muted (words_of verb key flags expiration size more)) (append-nil (cas_words cas))
    ∙ muted-reply verb key flags expiration size cas h k
muted_words verb key flags expiration size cas false h k =
    muted-noreply verb key flags expiration size cas

process_data-step :
    (input line behind : List ℕ) (tokens words : List (List ℕ)) (mute : Bool) (cmd : AsciiCmd)
    → find_line input ≡ some (line, behind)
    → ascii_tokenize_command 10 line ≡ tokens
    → muted tokens ≡ (mute, words)
    → ascii_to_cmd input ≡ cmd
    → process_data (λ c. true) input
      ≡ (mute, process_command (λ c. true) cmd words (length line + 1) behind)
unfolding process_data process_line
process_data-step input line behind tokens words mute cmd e f g h =
    ap (process_line (λ c. true) input) e
    ∙ ap
        (λ c.
          with_tokens (λ c. true) c (muted (ascii_tokenize_command 10 line)) (length line + 1)
            behind)
        h
    ∙ ap (λ t. with_tokens (λ c. true) cmd (muted t) (length line + 1) behind) f
    ∙ ap (λ t. with_tokens (λ c. true) cmd t (length line + 1) behind) g

-- Let key and namespace be without blanks and control characters, not empty and of 240 characters at
-- most together, flags and expiration of 32 bits, the value shorter than 2 ^ 32, the cas value below
-- 10 ^ 19, not 0 for cas and 0 for the other commands. Then the client has a request in the text
-- protocol, and a server that has functions for all commands reads it, with anything behind it, and
-- calls the function of the command, which is replace for cas, with the same key, namespace in front,
-- and the same value, but for append and prepend with the same flags and expiration, and for cas with
-- the same cas value, for the others but add with 0; the answer is muted exactly if the client wants no
-- reply, and what stands behind the request is left.
pub process_data-ascii_request :
    (verb : StorageAction) (ns key : List ℕ) (flags expiration : ℕ) (value : List ℕ) (cas : ℕ)
    (reply : Bool) (rest : List ℕ)
    → All IsName (ns ++ key)
    → 0 < length (ns ++ key)
    → length (ns ++ key) ≤ 240
    → flags < u32_mod
    → expiration < u32_mod
    → length value < u32_mod
    → cas < 10 ^ 19
    → HasCas verb cas
    → (text : List ℕ) × (ascii_request verb ns key flags expiration value cas reply ≡ some text)
      × (process_data (λ c. true) (text ++ rest)
          ≡ (not reply, stores (storing verb (ns ++ key) flags expiration value cas) rest))
process_data-ascii_request verb ns key flags expiration value cas reply rest hn hk hl hf he hv hc
      has =
    let name = ns ++ key in
    let more = cas_words cas ++ reply_words reply in
    let ws = words_of verb name flags expiration (length value) more in
    let behind = value ++ (Words.word_crlf ++ rest) in
    let input = joined ws ++ 10 ∷ behind in
    let words : All IsWord ws = (
      name_of-IsWord verb,
      (
        (hk, names-NotSpace name hn),
        (
          print-IsWord flags (omega arith),
          (
            print-IsWord expiration (omega arith),
            (
              print-IsWord (length value) (omega arith),
              more_words IsWord cas reply (print-IsWord cas (omega arith)) noreply-IsWord,
            ),
          ),
        ),
      ),
    ) in
    let short : All IsShort ws = (
      length-name_of verb,
      (
        hl,
        (
          omega (arith, length-print flags),
          (
            omega (arith, length-print expiration),
            (
              omega (arith, length-print (length value)),
              more_words IsShort cas reply (omega (arith, length-print cas)) (omega arith),
            ),
          ),
        ),
      ),
    ) in
    let count : length ws ≤ 7 = omega (arith, length-more_words cas reply) in
    let size : length (joined ws) ≤ 1687 = omega (arith, length-joined ws short, count) in
    let same : request_text verb name flags expiration value cas reply ++ rest ≡ input =
      append_assoc (joined ws) (10 ∷ (value ++ Words.word_crlf)) rest
      ∙ ap (λ b. joined ws ++ 10 ∷ b) (append_assoc value Words.word_crlf rest) in
    (
      request_text verb name flags expiration value cas reply,
      ascii_request-request_text verb ns key flags expiration value cas reply hf (omega arith) hc,
      ap (process_data (λ c. true)) same
          ∙ process_data-step input (joined ws) behind ws
              (words_of verb name flags expiration (length value) (cas_words cas)) (not reply)
              (command_of verb) (find_line-joined ws behind words)
              (ascii_tokenize_command-joined 10 ws (omega arith) words)
              (muted_words verb name flags expiration (length value) cas reply (omega arith)
                (omega arith))
              (ascii_to_cmd-name verb name
                (print flags ∷ print expiration ∷ print (length value) ∷ more) (10 ∷ behind))
          ∙ ap (λ s. (not reply, s))
              (process_command-words verb name flags expiration (length value) cas
                  (length (joined ws) + 1) behind has
                ∙ process_storage_command-words verb name flags expiration value cas
                    (length (joined ws) + 1) rest hn hk hl hf he hv (omega (arith, size))
                    (omega arith)),
    )
