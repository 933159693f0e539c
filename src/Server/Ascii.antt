-- ===== src/Server/Ascii.antt =====
-- libmemcachedprotocol/ascii_handler.c: the storage commands of the text protocol, up to the call of
-- the server's function.
pub mod Tokens
pub mod Commands
pub mod RoundTrip
use libmemcached.Prelude.{
  ℕ, zero, suc, ◌+◌, ◌%◌, ◌^◌, Bool, true, false, not, ◌||◌, ◌&&◌, List, [], ◌∷◌, Option, none,
  some, take, drop, length, ltb, ◌==◌, ◌>>=◌, if◌then◌else◌,
}
use libmemcached.Prelude.Words.{u32_mod, u64_mod}
use libmemcached.Protocol.Numbers.{strtoul, isspace, iscntrl, skip_spaces}
use libmemcached.Protocol.Words
use libmemcached.Server.Call.{Call, call_set, call_replace, call_add, call_append, call_prepend}

-- `enum ascii_cmd`
pub data AsciiCmd : Type 0 where
  get_cmd gets_cmd set_cmd add_cmd replace_cmd cas_cmd append_cmd prepend_cmd delete_cmd : AsciiCmd
  incr_cmd decr_cmd stats_cmd flush_all_cmd version_cmd quit_cmd verbosity_cmd unknown_cmd :
      AsciiCmd

-- The text starts with the command's name, and a blank or nothing follows it.
abbrev names : List ℕ → List ℕ → Bool
names [] [] = true
names [] (b ∷ bs) = isspace b
names (c ∷ cs) [] = false
names (c ∷ cs) (b ∷ bs) = if b == c then names cs bs else false

-- The table of `ascii_to_cmd`.
abbrev commands : List (List ℕ × AsciiCmd)
commands =
    (b'g' ∷ b'e' ∷ b't' ∷ [], get_cmd)
    ∷ (b'g' ∷ b'e' ∷ b't' ∷ b's' ∷ [], gets_cmd)
    ∷ (b's' ∷ b'e' ∷ b't' ∷ [], set_cmd)
    ∷ (b'a' ∷ b'd' ∷ b'd' ∷ [], add_cmd)
    ∷ (b'r' ∷ b'e' ∷ b'p' ∷ b'l' ∷ b'a' ∷ b'c' ∷ b'e' ∷ [], replace_cmd)
    ∷ (b'c' ∷ b'a' ∷ b's' ∷ [], cas_cmd)
    ∷ (b'a' ∷ b'p' ∷ b'p' ∷ b'e' ∷ b'n' ∷ b'd' ∷ [], append_cmd)
    ∷ (b'p' ∷ b'r' ∷ b'e' ∷ b'p' ∷ b'e' ∷ b'n' ∷ b'd' ∷ [], prepend_cmd)
    ∷ (b'd' ∷ b'e' ∷ b'l' ∷ b'e' ∷ b't' ∷ b'e' ∷ [], delete_cmd)
    ∷ (b'i' ∷ b'n' ∷ b'c' ∷ b'r' ∷ [], incr_cmd)
    ∷ (b'd' ∷ b'e' ∷ b'c' ∷ b'r' ∷ [], decr_cmd)
    ∷ (b's' ∷ b't' ∷ b'a' ∷ b't' ∷ b's' ∷ [], stats_cmd)
    ∷ (b'f' ∷ b'l' ∷ b'u' ∷ b's' ∷ b'h' ∷ b'_' ∷ b'a' ∷ b'l' ∷ b'l' ∷ [], flush_all_cmd)
    ∷ (b'v' ∷ b'e' ∷ b'r' ∷ b's' ∷ b'i' ∷ b'o' ∷ b'n' ∷ [], version_cmd)
    ∷ (b'q' ∷ b'u' ∷ b'i' ∷ b't' ∷ [], quit_cmd)
    ∷ (b'v' ∷ b'e' ∷ b'r' ∷ b'b' ∷ b'o' ∷ b's' ∷ b'i' ∷ b't' ∷ b'y' ∷ [], verbosity_cmd)
    ∷ []

abbrev find_cmd : List (List ℕ × AsciiCmd) → List ℕ → AsciiCmd
find_cmd [] text = unknown_cmd
find_cmd ((name, cmd) ∷ rest) text = if names name text then cmd else find_cmd rest text

unfoldable pub ascii_to_cmd : List ℕ → AsciiCmd
ascii_to_cmd = find_cmd commands

abbrev line_with : ℕ → Option (List ℕ × List ℕ) → Option (List ℕ × List ℕ)
line_with c none = none
line_with c (some (line, rest)) = some (c ∷ line, rest)

-- `memchr (ptr, '\n', length)`: the line without its end, and what stands behind it.
unfoldable pub find_line : List ℕ → Option (List ℕ × List ℕ)
find_line [] = none
find_line (c ∷ cs) =
    let more = line_with c (find_line cs) in if c == b'\n' then some ([], cs) else more

-- A token, up to a blank, and what stands from there.
unfoldable pub take_token : List ℕ → List ℕ × List ℕ
take_token [] = ([], [])
take_token (c ∷ cs) =
    let (token, rest) = take_token cs in if isspace c then ([], c ∷ cs) else (c ∷ token, rest)

abbrev next_token : (List ℕ → List (List ℕ)) → List ℕ → List (List ℕ)
next_token more [] = []
next_token more (c ∷ cs) = (take_token (c ∷ cs)).0 ∷ more (drop 1 (take_token (c ∷ cs)).1)

-- `ascii_tokenize_command`, into a vector of `size` elements.
unfoldable pub ascii_tokenize_command : ℕ → List ℕ → List (List ℕ)
unfolding take_token skip_spaces
ascii_tokenize_command zero str = []
ascii_tokenize_command (suc size) str = next_token (ascii_tokenize_command size) (skip_spaces str)

-- The characters of a token, which has no blanks, up to a zero; `none` at another control character.
unfoldable pub key_text : List ℕ → Option (List ℕ)
key_text [] = some []
key_text (c ∷ cs) =
    let more = key_text cs in
    if c == 0 then some [] else if iscntrl c then none else more >>= λ text. some (c ∷ text)

-- `parse_ascii_key`: the key of at most 240 characters, by a length of 16 bits; `none` is the length 0.
unfoldable pub parse_ascii_key : List ℕ → Option (List ℕ)
unfolding key_text
parse_ascii_key token = key_text token >>= λ text.
    let len = length text % 2 ^ 16 in if len == 0 || ltb 240 len then none else some (take len text)

-- What the tokens of a storage command tell, but for its data and cas value.
pub record Store : Type 0 where
  pub command : AsciiCmd
  pub key : List ℕ
  pub flags : ℕ
  pub timeout : ℕ

-- How a command ends: the call, with what stands behind the command, an error of the client, a command
-- with the wrong number of tokens or without a function, or the wait for more input.
pub data Served : Type 0 where
  stores : Call → List ℕ → Served
  bad_key usage not_implemented needs_more other : Served

-- `strtoul` of a token; `none` is an `errno`.
unfoldable pub number : List ℕ → Option ℕ
unfolding strtoul
number token = if (strtoul token).out_of_range then none else some (strtoul token).value

-- The cas value, which only the token behind the length can give.
unfoldable pub cas_number : List (List ℕ) → Option ℕ
unfolding number
cas_number [] = some 0
cas_number (token ∷ tokens) = number token

-- Only `cas` reads one.
unfoldable pub cas_of : AsciiCmd → List (List ℕ) → Option ℕ
unfolding cas_number
cas_of cas_cmd tokens = cas_number tokens
cas_of cmd tokens = some 0

-- The function that is called, and with what; the other commands do not come here.
abbrev pub call_with : Store → List ℕ → ℕ → Option Call
call_with store data_ cas = elim store.command [
  | set_cmd ↦ some (call_set store.key data_ store.flags store.timeout cas)
  | add_cmd ↦ some (call_add store.key data_ store.flags store.timeout)
  | cas_cmd ↦ some (call_replace store.key data_ store.flags store.timeout cas)
  | replace_cmd ↦ some (call_replace store.key data_ store.flags store.timeout cas)
  | append_cmd ↦ some (call_append store.key data_ cas)
  | prepend_cmd ↦ some (call_prepend store.key data_ cas)
  | _ ↦ none
]

abbrev pub called : Option Call → List ℕ → Served
called none rest = other
called (some call) rest = stores call rest

-- `(ssize_t) need > length`
abbrev needs : ℕ → ℕ → Bool
needs need len = ltb (need % u64_mod) (2 ^ 63) && ltb len (need % u64_mod)

-- The end of `process_storage_command`, behind the three numbers; the function gets the low 32 bits of
-- the length.
unfoldable pub call_store : Store → ℕ → List (List ℕ) → ℕ → List ℕ → Served
unfolding cas_of
call_store store nbytes tokens line_size behind =
    if needs (nbytes + line_size + 2) (line_size + length behind)
    then needs_more
    else elim (cas_of store.command tokens) [
      | none ↦ bad_key
      | some cas ↦
          called (call_with store (take (nbytes % u32_mod) behind) cas) (drop (nbytes + 2) behind)
    ]

abbrev or_bad_key : Option Served → Served
or_bad_key none = bad_key
or_bad_key (some s) = s

-- `process_storage_command`. `behind` is what stands behind the line, of `line_size` bytes with its end.
unfoldable pub process_storage_command : AsciiCmd → List (List ℕ) → ℕ → List ℕ → Served
unfolding parse_ascii_key number call_store
process_storage_command cmd (name ∷ key ∷ flags ∷ timeout ∷ nbytes ∷ tokens) line_size behind =
    or_bad_key do
      text ← parse_ascii_key key
      f ← number flags
      t ← number timeout
      n ← number nbytes
      let store : Store = record {
        command = cmd;
        key = text;
        flags = f % u32_mod;
        timeout = t % u32_mod;
      }
      some (call_store store n tokens line_size behind)
process_storage_command cmd tokens line_size behind = usage

-- `process_set_command` and those of the other commands, which take `count` tokens.
unfoldable pub process_counted : ℕ → Bool → AsciiCmd → List (List ℕ) → ℕ → List ℕ → Served
unfolding process_storage_command
process_counted count implemented cmd tokens line_size behind =
    if not (length tokens == count)
    then usage
    else if not implemented
    then not_implemented
    else process_storage_command cmd tokens line_size behind

-- Commands that store; `implemented` tells for which there is a function.
unfoldable pub process_command : (AsciiCmd → Bool) → AsciiCmd → List (List ℕ) → ℕ → List ℕ → Served
unfolding process_counted
process_command implemented set_cmd = process_counted 5 (implemented set_cmd) set_cmd
process_command implemented add_cmd = process_counted 5 (implemented add_cmd) add_cmd
process_command implemented replace_cmd = process_counted 5 (implemented replace_cmd) replace_cmd
process_command implemented cas_cmd = process_counted 6 (implemented replace_cmd) cas_cmd
process_command implemented append_cmd = process_counted 5 (implemented append_cmd) append_cmd
process_command implemented prepend_cmd = process_counted 5 (implemented prepend_cmd) prepend_cmd
process_command implemented cmd = λ tokens line_size behind. other

abbrev same_text : List ℕ → List ℕ → Bool
same_text [] [] = true
same_text (c ∷ cs) (b ∷ bs) = c == b && same_text cs bs
same_text cs bs = false

abbrev noreply : List ℕ
noreply = drop 1 Words.word_noreply

-- The tokens without a "noreply" at their end, and if it was there. A line without a token is a read
-- in front of the vector; here nothing is there.
unfoldable pub take_noreply : List (List ℕ) → Bool × List (List ℕ)
take_noreply [] = (false, [])
take_noreply (token ∷ []) = if same_text token noreply then (true, []) else (false, token ∷ [])
take_noreply (token ∷ next ∷ tokens) =
    let (mute, rest) = take_noreply (next ∷ tokens) in (mute, token ∷ rest)

abbrev pub muted : List (List ℕ) → Bool × List (List ℕ)
muted tokens = if ltb (length tokens) 10 then take_noreply tokens else (false, tokens)

abbrev pub with_tokens :
    (AsciiCmd → Bool) → AsciiCmd → Bool × List (List ℕ) → ℕ → List ℕ → Bool × Served
with_tokens implemented cmd (mute, tokens) line_size behind =
    (mute, process_command implemented cmd tokens line_size behind)

-- A round with the line that was found, if any.
unfoldable pub process_line : (AsciiCmd → Bool) → List ℕ → Option (List ℕ × List ℕ) → Bool × Served
unfolding ascii_to_cmd ascii_tokenize_command take_noreply process_command
process_line implemented input none = (false, needs_more)
process_line implemented input (some (line, behind)) =
    with_tokens implemented (ascii_to_cmd input) (muted (ascii_tokenize_command 10 line))
      (length line + 1) behind

-- One round of `memcached_ascii_protocol_process_data`, for the commands that store: if the answer is
-- muted, and how the command ends.
unfoldable pub process_data : (AsciiCmd → Bool) → List ℕ → Bool × Served
unfolding find_line process_line
process_data implemented input = process_line implemented input (find_line input)
