-- ===== src/Server/Ascii/Commands.antt =====
-- libmemcachedprotocol/ascii_handler.c: the words of a storage command, as the server reads them.
use libmemcached.Prelude.{
  take-length_append, drop-length_append, ℕ, ◌+◌, ◌%◌, ◌^◌, ◌≤◌, ◌<◌, ◌≡◌, ◌≢◌, refl, sym, ap, ◌∙◌,
  Bool, true, false, List, [], ◌∷◌, ◌++◌, some, length, take, drop, All, arith, ◌==◌, Bool-cases,
  inl, inr, append_assoc, append-nil, length-append, if◌then◌else◌,
}
use libmemcached.Prelude.Words.{u32_mod, u64_mod}
use libmemcached.Protocol.Numbers.{
  print, iscntrl, strtoul, strtoul-print, starts_digit, print-starts_digit, print-NotSpace,
}
use libmemcached.Protocol.Storage.{
  StorageAction, set_op, replace_op, add_op, prepend_op, append_op, cas_op,
}
use libmemcached.Protocol.Value.RoundTrip.{IsName}
use libmemcached.Protocol.Words
use libmemcached.Server.Call.{Call, call_set, call_replace, call_add, call_append, call_prepend}
use libmemcached.Server.Ascii.{
  AsciiCmd, set_cmd, add_cmd, replace_cmd, cas_cmd, append_cmd, prepend_cmd, ascii_to_cmd, key_text,
  parse_ascii_key, Store, stores, called, call_with, cas_of, number, cas_number, needs, call_store,
  process_storage_command, process_counted, process_command, same_text, noreply, take_noreply,
  muted,
}
use libmemcached.Server.Ascii.Tokens.{IsWord, joined}

abbrev pub command_of : StorageAction → AsciiCmd
command_of set_op = set_cmd
command_of replace_op = replace_cmd
command_of add_op = add_cmd
command_of prepend_op = prepend_cmd
command_of append_op = append_cmd
command_of cas_op = cas_cmd

-- The name of a command, without the blank behind it.
abbrev pub name_of : StorageAction → List ℕ
name_of set_op = b's' ∷ b'e' ∷ b't' ∷ []
name_of replace_op = b'r' ∷ b'e' ∷ b'p' ∷ b'l' ∷ b'a' ∷ b'c' ∷ b'e' ∷ []
name_of add_op = b'a' ∷ b'd' ∷ b'd' ∷ []
name_of prepend_op = b'p' ∷ b'r' ∷ b'e' ∷ b'p' ∷ b'e' ∷ b'n' ∷ b'd' ∷ []
name_of append_op = b'a' ∷ b'p' ∷ b'p' ∷ b'e' ∷ b'n' ∷ b'd' ∷ []
name_of cas_op = b'c' ∷ b'a' ∷ b's' ∷ []

abbrev pub cas_words : ℕ → List (List ℕ)
cas_words cas = if cas == 0 then [] else print cas ∷ []

abbrev pub reply_words : Bool → List (List ℕ)
reply_words reply = if reply then [] else noreply ∷ []

-- The words of a request.
abbrev pub words_of : StorageAction → List ℕ → ℕ → ℕ → ℕ → List (List ℕ) → List (List ℕ)
words_of verb key flags expiration size more =
    name_of verb ∷ key ∷ print flags ∷ print expiration ∷ print size ∷ more

pub ascii_to_cmd-name :
    (verb : StorageAction) (w : List ℕ) (ws : List (List ℕ)) (rest : List ℕ)
    → ascii_to_cmd (joined (name_of verb ∷ w ∷ ws) ++ rest) ≡ command_of verb
unfolding ascii_to_cmd
ascii_to_cmd-name set_op w ws rest = refl
ascii_to_cmd-name replace_op w ws rest = refl
ascii_to_cmd-name add_op w ws rest = refl
ascii_to_cmd-name prepend_op w ws rest = refl
ascii_to_cmd-name append_op w ws rest = refl
ascii_to_cmd-name cas_op w ws rest = refl

pub name_of-IsWord : (verb : StorageAction) → IsWord (name_of verb)
name_of-IsWord set_op = (omega arith, (refl, (refl, (refl, tt))))
name_of-IsWord replace_op =
    (omega arith, (refl, (refl, (refl, (refl, (refl, (refl, (refl, tt))))))))
name_of-IsWord add_op = (omega arith, (refl, (refl, (refl, tt))))
name_of-IsWord prepend_op =
    (omega arith, (refl, (refl, (refl, (refl, (refl, (refl, (refl, tt))))))))
name_of-IsWord append_op = (omega arith, (refl, (refl, (refl, (refl, (refl, (refl, tt)))))))
name_of-IsWord cas_op = (omega arith, (refl, (refl, (refl, tt))))

pub print-IsWord : (n : ℕ) → n < u64_mod → IsWord (print n)
print-IsWord n h = (starts_pos (print n) (print-starts_digit n [] h), print-NotSpace n)
  where
    starts_pos : (w : List ℕ) → starts_digit (w ++ []) ≡ true → 0 < length w
    starts_pos [] e = cc e
    starts_pos (c ∷ w) e = omega arith

number-print : (n : ℕ) → n < u64_mod → number (print n) ≡ some n
unfolding number
number-print n h =
    let e = ap strtoul (sym (append-nil (print n))) ∙ strtoul-print n [] h refl in rw e

-- Only cas sends a cas value.
abbrev pub HasCas : StorageAction → ℕ → Type 0
HasCas cas_op cas = cas ≢ 0
HasCas verb cas = cas ≡ 0

same_text-digit : (w : List ℕ) → starts_digit (w ++ []) ≡ true → same_text w noreply ≡ false
same_text-digit [] e = refl
same_text-digit (c ∷ w) e = ground arith

same_text-print : (n : ℕ) → n < u64_mod → same_text (print n) noreply ≡ false
same_text-print n h = same_text-digit (print n) (print-starts_digit n [] h)

module _ (verb : StorageAction) (key : List ℕ) (flags expiration size : ℕ) where
  pub muted-reply :
      (cas : ℕ)
      → size < u64_mod
      → cas < u64_mod
      → muted (words_of verb key flags expiration size (cas_words cas))
        ≡ (false, words_of verb key flags expiration size (cas_words cas))
  unfolding take_noreply
  muted-reply cas h k = elim (Bool-cases (cas == 0)) [
    | inl e ↦ rw (e, same_text-print size h)
    | inr e ↦ rw (e, same_text-print cas k)
  ]

  pub muted-noreply :
      (cas : ℕ)
      → muted (words_of verb key flags expiration size (cas_words cas ++ noreply ∷ []))
        ≡ (true, words_of verb key flags expiration size (cas_words cas))
  unfolding take_noreply
  muted-noreply cas = elim (Bool-cases (cas == 0)) [ inl e ↦ rw e | inr e ↦ rw e ]

process_counted-equal :
    (count : ℕ) (cmd : AsciiCmd) (tokens : List (List ℕ)) (line_size : ℕ) (behind : List ℕ)
    → length tokens ≡ count
    → process_counted count true cmd tokens line_size behind
      ≡ process_storage_command cmd tokens line_size behind
unfolding process_counted
process_counted-equal count cmd tokens line_size behind e = rw (==_true _ _ e)
  where
    ==_true : (a b : ℕ) → a ≡ b → (a == b) ≡ true
    ==_true a b h = ground arith

length-cas_words_zero : (cas : ℕ) → cas ≡ 0 → length (cas_words cas) ≡ 0
length-cas_words_zero cas h = ground arith

length-cas_words_one : (cas : ℕ) → cas ≢ 0 → length (cas_words cas) ≡ 1
length-cas_words_one cas h = ground arith

pub process_command-words :
    (verb : StorageAction) (key : List ℕ) (flags expiration size cas line_size : ℕ)
    (behind : List ℕ)
    → HasCas verb cas
    → process_command
        (λ c. true)
        (command_of verb)
        (words_of verb key flags expiration size (cas_words cas))
        line_size
        behind
      ≡ process_storage_command
          (command_of verb)
          (words_of verb key flags expiration size (cas_words cas))
          line_size
          behind
unfolding process_command
process_command-words set_op key flags expiration size cas line_size behind h =
    process_counted-equal 5 set_cmd (words_of set_op key flags expiration size (cas_words cas))
      line_size behind (omega (arith, length-cas_words_zero cas h))
process_command-words replace_op key flags expiration size cas line_size behind h =
    process_counted-equal 5 replace_cmd
      (words_of replace_op key flags expiration size (cas_words cas)) line_size behind
      (omega (arith, length-cas_words_zero cas h))
process_command-words add_op key flags expiration size cas line_size behind h =
    process_counted-equal 5 add_cmd (words_of add_op key flags expiration size (cas_words cas))
      line_size behind (omega (arith, length-cas_words_zero cas h))
process_command-words prepend_op key flags expiration size cas line_size behind h =
    process_counted-equal 5 prepend_cmd
      (words_of prepend_op key flags expiration size (cas_words cas)) line_size behind
      (omega (arith, length-cas_words_zero cas h))
process_command-words append_op key flags expiration size cas line_size behind h =
    process_counted-equal 5 append_cmd
      (words_of append_op key flags expiration size (cas_words cas)) line_size behind
      (omega (arith, length-cas_words_zero cas h))
process_command-words cas_op key flags expiration size cas line_size behind h =
    process_counted-equal 6 cas_cmd (words_of cas_op key flags expiration size (cas_words cas))
      line_size behind (omega (arith, length-cas_words_one cas h))

name_printed : (c : ℕ) → IsName c → (iscntrl c ≡ false) × ((c == 0) ≡ false)
name_printed c h = (ground arith, ground arith)

key_text-name : (key : List ℕ) → All IsName key → key_text key ≡ some key
unfolding key_text
key_text-name [] h = refl
key_text-name (c ∷ key) h =
    rw ((name_printed c h.0).0, (name_printed c h.0).1, key_text-name key h.1)

take-length : (xs : List ℕ) → take (length xs) xs ≡ xs
take-length [] = refl
take-length (x ∷ xs) = ap (◌∷◌ x) (take-length xs)

parse_ascii_key-name :
    (key : List ℕ)
    → All IsName key
    → 0 < length key
    → length key ≤ 240
    → parse_ascii_key key ≡ some key
unfolding parse_ascii_key
parse_ascii_key-name key h k l = rw (key_text-name key h) (ground (arith, take-length key, small))
  where
    small : length key % 2 ^ 16 ≡ length key
    small = omega arith

cas_number-cas_words : (cas : ℕ) → cas < u64_mod → cas_number (cas_words cas) ≡ some cas
unfolding cas_number
cas_number-cas_words cas h = elim (Bool-cases (cas == 0)) [
  | inl e ↦ rw e (ap some (sym (zero_of cas e)))
  | inr e ↦ rw e (number-print cas h)
]
  where
    zero_of : (n : ℕ) → (n == 0) ≡ true → n ≡ 0
    zero_of n e = ground arith

mod_self : (n : ℕ) → n < u32_mod → n % u32_mod ≡ n
mod_self n h = omega arith

abbrev cas_sent : StorageAction → ℕ → ℕ
cas_sent cas_op cas = cas
cas_sent verb cas = 0

cas_of-cas_words :
    (verb : StorageAction) (cas : ℕ)
    → cas < u64_mod
    → cas_of (command_of verb) (cas_words cas) ≡ some (cas_sent verb cas)
unfolding cas_of
cas_of-cas_words cas_op cas h = cas_number-cas_words cas h
cas_of-cas_words set_op cas h = refl
cas_of-cas_words replace_op cas h = refl
cas_of-cas_words add_op cas h = refl
cas_of-cas_words append_op cas h = refl
cas_of-cas_words prepend_op cas h = refl

-- What the server calls its function with: append and prepend have no flags and no expiration, and
-- only `cas` has a cas value.
abbrev pub storing : StorageAction → List ℕ → ℕ → ℕ → List ℕ → ℕ → Call
storing set_op key flags expiration value cas = call_set key value flags expiration 0
storing replace_op key flags expiration value cas = call_replace key value flags expiration 0
storing cas_op key flags expiration value cas = call_replace key value flags expiration cas
storing add_op key flags expiration value cas = call_add key value flags expiration
storing append_op key flags expiration value cas = call_append key value 0
storing prepend_op key flags expiration value cas = call_prepend key value 0

abbrev store_of : StorageAction → List ℕ → ℕ → ℕ → Store
store_of verb key flags expiration = record {
  command = command_of verb;
  key = key;
  flags = flags;
  timeout = expiration;
}

called-storing :
    (verb : StorageAction) (key : List ℕ) (flags expiration : ℕ) (value : List ℕ) (cas : ℕ)
    (rest : List ℕ)
    → called (call_with (store_of verb key flags expiration) value (cas_sent verb cas)) rest
      ≡ stores (storing verb key flags expiration value cas) rest
called-storing set_op key flags expiration value cas rest = refl
called-storing replace_op key flags expiration value cas rest = refl
called-storing cas_op key flags expiration value cas rest = refl
called-storing add_op key flags expiration value cas rest = refl
called-storing append_op key flags expiration value cas rest = refl
called-storing prepend_op key flags expiration value cas rest = refl

-- All the data is there.
call_store-all :
    (verb : StorageAction) (key : List ℕ) (flags expiration size cas line_size : ℕ)
    (behind : List ℕ)
    → size < u32_mod
    → size + 2 ≤ length behind
    → size + line_size + 2 < 2 ^ 63
    → cas < u64_mod
    → call_store (store_of verb key flags expiration) size (cas_words cas) line_size behind
      ≡ stores (storing verb key flags expiration (take size behind) cas) (drop (size + 2) behind)
unfolding call_store
call_store-all verb key flags expiration size cas line_size behind s h k c =
    rw (enough, cas_of-cas_words verb cas c, mod_self size s)
      (called-storing verb key flags expiration (take size behind) cas (drop (size + 2) behind))
  where
    enough : needs (size + line_size + 2) (line_size + length behind) ≡ false
    enough = ground arith

drop_block :
    (value rest : List ℕ) → drop (length value + 2) (value ++ (Words.word_crlf ++ rest)) ≡ rest
drop_block value rest =
    ap (λ n. drop n (value ++ (Words.word_crlf ++ rest)))
      (sym (length-append value Words.word_crlf))
    ∙ ap (drop (length (value ++ Words.word_crlf))) (sym (append_assoc value Words.word_crlf rest))
    ∙ drop-length_append (value ++ Words.word_crlf) rest

pub process_storage_command-words :
    (verb : StorageAction) (key : List ℕ) (flags expiration : ℕ) (value : List ℕ)
    (cas line_size : ℕ) (rest : List ℕ)
    → All IsName key
    → 0 < length key
    → length key ≤ 240
    → flags < u32_mod
    → expiration < u32_mod
    → length value < u32_mod
    → length value + line_size + 2 < 2 ^ 63
    → cas < u64_mod
    → process_storage_command
        (command_of verb)
        (words_of verb key flags expiration (length value) (cas_words cas))
        line_size
        (value ++ (Words.word_crlf ++ rest))
      ≡ stores (storing verb key flags expiration value cas) rest
unfolding process_storage_command
process_storage_command-words verb key flags expiration value cas line_size rest hn hk hl hf he hs
      hv hc =
    let behind = (value ++ (Words.word_crlf ++ rest)) in
    rw
      (
        parse_ascii_key-name key hn hk hl,
        number-print flags (omega arith),
        number-print expiration (omega arith),
        number-print (length value) (omega arith),
      )
      (cc (mod_self flags hf, mod_self expiration he)
        ∙ call_store-all verb key flags expiration (length value) cas line_size behind hs
            (omega (
              arith,
              length-append value (Words.word_crlf ++ rest),
              length-append Words.word_crlf rest,
            ))
            hv hc
        ∙ cc (take-length_append value (Words.word_crlf ++ rest), drop_block value rest))
