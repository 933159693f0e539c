-- ===== src/Protocol/Response/Values.antt =====
-- libmemcached/response.cc: a value that comes in, from its line to the line end behind it.
use libmemcached.Prelude.{
  take-length_append, drop-length_append, ℕ, ◌+◌, ◌%◌, ◌≤◌, ◌<◌, ◌≡◌, refl, sym, ap, subst, ◌∙◌,
  Bool, true, false, List, [], ◌∷◌, ◌++◌, Option, none, some, take, drop, length, ◌==◌,
  if◌then◌else◌, All, All-append, arith, length-append, append_assoc,
}
use libmemcached.Prelude.Words.{u32_mod, u64_mod}
use libmemcached.Return.{success, memory_allocation_failure, is_failed}
use libmemcached.Io.{Instance, response_increment}
use libmemcached.Io.Read.{io_read}
use libmemcached.Io.Stream.{coming, Leaves, io_read-Reads}
use libmemcached.Io.Stream.Line.{io_readline-ReadsLine}
use libmemcached.Io.Stream.Round.{line_feed, IsPlain}
use libmemcached.Protocol.Numbers.{print, print-plain, length-print}
use libmemcached.Protocol.Value.{
  Result, Header, loaded, Answer, header_read, value_read, decrypted, textual_value_fetch,
}
use libmemcached.Protocol.Value.RoundTrip.{
  IsName, IsCas, cas_text, value_text, told, load_header-value_text, length-cas_text,
}
use libmemcached.Protocol.Response.{respond, line_read, textual_read_one_response}
use libmemcached.Protocol.Words

cas_text-append : (cas : Option ℕ) (xs : List ℕ) → cas_text cas [] ++ xs ≡ cas_text cas xs
cas_text-append none xs = refl
cas_text-append (some cas) xs = ap (◌∷◌ b' ') (append_assoc (print cas) (b'\r' ∷ []) xs)

value_text-append :
    (ns key : List ℕ) (flags len : ℕ) (cas : Option ℕ) (xs : List ℕ)
    → value_text ns key flags len cas [] ++ xs ≡ value_text ns key flags len cas xs
value_text-append ns key flags len cas xs = simp (append_assoc, cas_text-append)

name-IsPlain : (c : ℕ) → IsName c → IsPlain c
name-IsPlain c h e = ground arith

names-IsPlain : (cs : List ℕ) → All IsName cs → All IsPlain cs
names-IsPlain [] h = tt
names-IsPlain (c ∷ cs) h = (name-IsPlain c h.0, names-IsPlain cs h.1)

not_feed : (c : ℕ) → (c == line_feed) ≡ false → IsPlain c
not_feed c h = ground arith

cas_text-IsPlain : (cas : Option ℕ) → All IsPlain (cas_text cas [])
cas_text-IsPlain none = (not_feed b'\r' refl, tt)
cas_text-IsPlain (some cas) = (
  not_feed b' ' refl,
  All-append IsPlain (print cas) _ (print-plain cas) (not_feed b'\r' refl, tt),
)

value_text-IsPlain :
    (ns key : List ℕ) (flags len : ℕ) (cas : Option ℕ)
    → All IsName ns
    → All IsName key
    → All IsPlain (value_text ns key flags len cas [])
value_text-IsPlain ns key flags len cas hn hk =
    let plain : (c : ℕ) → (c == line_feed) ≡ false → IsPlain c = not_feed in
    All-append IsPlain Words.word_value_space _
      (
        plain b'V' refl,
        (
          plain b'A' refl,
          (plain b'L' refl, (plain b'U' refl, (plain b'E' refl, (plain b' ' refl, tt)))),
        ),
      )
      (All-append IsPlain ns _ (names-IsPlain ns hn) (
        All-append IsPlain key _ (names-IsPlain key hk) (
          plain b' ' refl,
          All-append IsPlain (print flags) _ (print-plain flags) (
            plain b' ' refl,
            All-append IsPlain (print len) _ (print-plain len) (cas_text-IsPlain cas),
          ),
        )))

length-value_text :
    (ns key : List ℕ) (flags len : ℕ) (cas : Option ℕ)
    → length ns + length key ≤ 250
    → length (value_text ns key flags len cas []) < 340
length-value_text ns key flags len cas h =
    let t3 = cas_text cas [] in
    let t2 = print len ++ t3 in
    let t1 = print flags ++ b' ' ∷ t2 in
    omega (
      arith,
      length-append ns (key ++ b' ' ∷ t1),
      length-append key (b' ' ∷ t1),
      length-append (print flags) (b' ' ∷ t2),
      length-append (print len) t3,
      length-cas_text cas [],
      length-print flags,
      length-print len,
      h,
    )

-- What the server sends for a value, with `rest` behind it.
abbrev pub value_reply : List ℕ → List ℕ → ℕ → List ℕ → Option ℕ → List ℕ → List ℕ
value_reply ns key flags value cas rest =
    value_text ns key flags (length value) cas [] ++ line_feed ∷ (value ++ b'\r' ∷ b'\n' ∷ rest)

-- The result that holds it.
abbrev pub holding : List ℕ → ℕ → List ℕ → Option ℕ → Result
holding key flags value cas = record (told key flags 0 cas).result { value = value }

-- The response is this result, and `rest` is left for the next, of which one more is expected.
abbrev pub Responds : Answer → Result → Instance → List ℕ → Type 0
Responds f r i rest =
    (j : Instance) × (f ≡ some (success, r, j))
    × (coming j ≡ rest)
    × (j.has_socket ≡ i.has_socket)
    × (j.cursor_active ≡ i.cursor_active + 1)

header_read-step :
    (allocates : ℕ → Bool) (i : Instance) (h : Header) (n : ℕ)
    → n ≡ (h.value_length + 2) % u64_mod
    → allocates n ≡ true
    → header_read allocates none i (loaded h) ≡ value_read none h (io_read i n)
unfolding header_read
header_read-step allocates i h n e a = rw (← e) (
    ap
      (λ b.
        if b
        then value_read none h (io_read i n)
        else some (memory_allocation_failure, h.result, i))
      a)

value_read-all :
    (h : Header) (bytes : List ℕ) (j : Instance)
    → length bytes ≡ (h.value_length + 2) % u64_mod
    → value_read none h (some (success, bytes, j))
      ≡ some (success, record h.result { value = take h.value_length bytes }, j)
unfolding value_read is_failed decrypted
value_read-all h bytes j e = ground arith

header_read-value :
    (allocates : ℕ → Bool) (i : Instance) (key : List ℕ) (flags : ℕ) (value : List ℕ)
    (cas : Option ℕ) (rest : List ℕ)
    → allocates (length value + 2) ≡ true
    → length value + 2 < u64_mod
    → i.has_socket ≡ true
    → coming i ≡ value ++ b'\r' ∷ b'\n' ∷ rest
    → (j : Instance) × (header_read allocates none i (loaded (told key flags (length value) cas))
        ≡ some (success, holding key flags value cas, j))
      × Leaves i j rest
header_read-value allocates i key flags value cas rest a n o e =
    let block = value ++ b'\r' ∷ b'\n' ∷ [] in
    let size : length block ≡ length value + 2 = length-append value _ in
    let whole : coming i ≡ block ++ rest = e ∙ sym (append_assoc value (b'\r' ∷ b'\n' ∷ []) rest) in
    let (j, f, leaves) = io_read-Reads i (length block) o (
      subst (λ c. length block ≤ length c) (sym whole) (omega (arith, length-append block rest))) in
    (
      j,
      header_read-step allocates i (told key flags (length value) cas) (length block)
            (size ∙ omega arith) (subst (λ n. allocates n ≡ true) (sym size) a)
          ∙ ap (value_read none (told key flags (length value) cas)) (
              f
              ∙ ap (λ c. some (success, c, j))
                  (ap (take (length block)) whole ∙ take-length_append block rest))
          ∙ value_read-all (told key flags (length value) cas) block j (size ∙ omega arith)
          ∙ ap (λ v. some (success, holding key flags v cas, j))
              (take-length_append value (b'\r' ∷ b'\n' ∷ [])),
      record {
        bytes = leaves.bytes ∙ ap (drop (length block)) whole ∙ drop-length_append block rest;
        socket = leaves.socket;
        responses = leaves.responses;
      },
    )

respond-value :
    (allocates : ℕ → Bool) (p : ℕ) (r : Result) (i : Instance) (ns key : List ℕ) (flags len : ℕ)
    (cas : Option ℕ) (rest : List ℕ) (total : ℕ)
    → respond allocates none p r i (value_text ns key flags len cas rest) total
      ≡ textual_value_fetch allocates none p
          (response_increment i)
          (value_text ns key flags len cas rest)
unfolding respond
respond-value allocates p r i ns key flags len cas rest total = refl

-- From the line that has been read to the read of the value.
line_read-value :
    (allocates : ℕ → Bool) (r : Result) (k : Instance) (stale ns key : List ℕ) (flags len : ℕ)
    (cas : Option ℕ)
    → All IsName ns
    → All IsName key
    → length ns + length key ≤ 250
    → flags < u32_mod
    → len < u64_mod
    → IsCas cas
    → line_read allocates none
        (length ns)
        r
        stale
        (some (success, value_text ns key flags len cas [] ++ line_feed ∷ [], k))
      ≡ header_read allocates none (response_increment k) (loaded (told key flags len cas))
unfolding line_read is_failed textual_value_fetch
line_read-value allocates r k stale ns key flags len cas hn hk h hf hl hc =
    let line = value_text ns key flags len cas [] in
    ap (λ b. respond allocates none (length ns) r k b (length (line ++ line_feed ∷ [])))
      (append_assoc line (line_feed ∷ []) stale
        ∙ value_text-append ns key flags len cas (line_feed ∷ stale))
    ∙ respond-value allocates (length ns) r k ns key flags len cas (line_feed ∷ stale)
        (length (line ++ line_feed ∷ []))
    ∙ ap (header_read allocates none (response_increment k)) (
        load_header-value_text ns key flags len cas (line_feed ∷ stale) hn hk h hf hl hc
          (omega arith))

-- Let the bytes that are coming on a connected socket be the line of a value, of a key and a namespace
-- without blanks and control characters and of 250 characters at most together, with flags of 32
-- bits and, if there is one, a cas value of 64 bits, then the value, the line end and `rest`. Let the
-- buffer for the line have 350 bytes at least, the namespace be the client's, encryption be off and
-- the memory for the value and its line end be there. Then `textual_read_one_response` returns with
-- success, the result holds the key without the namespace, the flags, the cas value (0 without one)
-- and the value, `rest` is what is coming afterwards, and one more response is expected.
pub textual_read_one_response-value :
    (allocates : ℕ → Bool) (r : Result) (i : Instance) (buffer_length : ℕ) (stale ns key : List ℕ)
    (flags : ℕ) (value : List ℕ) (cas : Option ℕ) (rest : List ℕ)
    → i.has_socket ≡ true
    → coming i ≡ value_reply ns key flags value cas rest
    → All IsName ns
    → All IsName key
    → length ns + length key ≤ 250
    → flags < u32_mod
    → length value + 2 < u64_mod
    → IsCas cas
    → 350 ≤ buffer_length
    → allocates (length value + 2) ≡ true
    → Responds
        (textual_read_one_response allocates none (length ns) r i buffer_length stale)
        (holding key flags value cas)
        i
        rest
textual_read_one_response-value allocates r i buffer_length stale ns key flags value cas rest o e hn
      hk h hf hv hc hb a =
    let len = length value in
    let line = value_text ns key flags len cas [] in
    let (k, f, l) =
      io_readline-ReadsLine i buffer_length line (value ++ b'\r' ∷ b'\n' ∷ rest) o e
        (value_text-IsPlain ns key flags len cas hn hk)
        (omega (arith, length-value_text ns key flags len cas h)) in
    let (j, g, m) =
      header_read-value allocates (response_increment k) key flags value cas rest a hv
        (l.socket ∙ o) l.bytes in
    (
      j,
      unfold textual_read_one_response in
          (ap (line_read allocates none (length ns) r stale) f
            ∙ line_read-value allocates r k stale ns key flags len cas hn hk h hf (omega arith) hc
            ∙ g),
      m.bytes,
      m.socket ∙ l.socket,
      m.responses ∙ ap (λ n. n + 1) l.responses,
    )
