-- ===== src/Protocol/Binary/Replies.antt =====
-- libmemcached/response.cc: responses of the binary protocol that come in, read to their end.
use libmemcached.Prelude.{
  take-length_append, drop-length_append, ℕ, zero, suc, ◌+◌, ◌-◌, ◌≤◌, ◌<◌, ◌≡◌, ◌≢◌, refl, sym, ap,
  subst, ◌∙◌, Bool, true, ◌||◌, ◌&&◌, not, List, [], ◌∷◌, ◌++◌, some, take, drop, length, min, ◌==◌,
  if◌then◌else◌, arith, length-append, append-nil,
}
use native.Mathlib.Numerals.{unary_clauses}
use libmemcached.Return.{Return, fetch_notfinished}
use libmemcached.Io.{Instance}
use libmemcached.Io.Read.{safe_read}
use libmemcached.Io.Stream.{coming, Leaves}
use libmemcached.Io.Stream.Safe.{safe_read-Reads}
use libmemcached.Protocol.Value.{Result, Answer}
use libmemcached.Protocol.Header.{
  Header, IsHeader, header_bytes, header_size, read_header, read_header-header_bytes,
  length-header_bytes,
}
use libmemcached.Protocol.Binary.{
  hole_size, then_bytes, unknown, status_result, skip_body, after_error, header_switch,
  response_magic, binary_read_one_response,
}
use libmemcached.Protocol.Command
use libmemcached.Protocol.Status

drop-drop : (d n : ℕ) (xs : List ℕ) → d ≤ n → drop (n - d) (drop d xs) ≡ drop n xs
drop-drop zero n xs h = simp unary_clauses
drop-drop (suc d) zero xs h = absurd (omega arith)
drop-drop (suc d) (suc n) [] h = simp unary_clauses (drop_nil (n - d))
  where
    drop_nil : (m : ℕ) → drop {A = ℕ} m [] ≡ []
    drop_nil zero = refl
    drop_nil (suc m) = refl
drop-drop (suc d) (suc n) (x ∷ xs) h = simp unary_clauses (drop-drop d n xs (omega arith))

length-drop : (d : ℕ) (xs : List ℕ) → d ≤ length xs → length (drop d xs) + d ≡ length xs
length-drop zero xs h = omega arith
length-drop (suc d) [] h = absurd (omega arith)
length-drop (suc d) (x ∷ xs) h = omega (arith, length-drop d xs (omega arith))

-- A call that goes on as `next` says, from a connection with `left` still to come.
abbrev Continues : Answer → (List ℕ → Instance → Answer) → Instance → List ℕ → List ℕ → Type 0
Continues a next i bytes left = (j : Instance) × (a ≡ next bytes j) × Leaves i j left

then_bytes-Continues :
    (failed : Return → Return) (r : Result) (n : ℕ) (i : Instance)
    (next : List ℕ → Instance → Answer)
    → i.has_socket ≡ true
    → n ≤ length (coming i)
    → Continues
        (then_bytes failed r (safe_read i n) next)
        next
        i
        (take n (coming i))
        (drop n (coming i))
unfolding then_bytes
then_bytes-Continues failed r n i next o h =
    let (j, e, l) = safe_read-Reads i n o h in (j, ap (λ x. then_bytes failed r x next) e, l)

pub skip_body-Continues :
    (fuel : ℕ) (r : Result) (bodylen : ℕ) (i : Instance) (next : Instance → Answer)
    → bodylen < fuel
    → i.has_socket ≡ true
    → bodylen ≤ length (coming i)
    → (j : Instance) × (skip_body fuel r bodylen i next ≡ next j)
      × Leaves i j (drop bodylen (coming i))
unfolding skip_body
skip_body-Continues zero r bodylen i next h o k = absurd (omega arith)
skip_body-Continues (suc fuel) r zero i next h o k =
    (i, refl, record { bytes = refl; socket = refl; responses = refl })
skip_body-Continues (suc fuel) r (suc bodylen) i next h o k =
    let nr = min hole_size (suc bodylen) in
    let (j, e, l) =
      then_bytes-Continues unknown r nr i (λ bytes j. skip_body fuel r (suc bodylen - nr) j next) o
        (omega arith) in
    let (m, f, n) =
      skip_body-Continues fuel r (suc bodylen - nr) j next (omega arith) (l.socket ∙ o)
        (omega (arith, length-drop nr (coming i) (omega arith), ap length l.bytes)) in
    (
      m,
      e ∙ f,
      record {
        bytes =
            n.bytes
            ∙ ap (drop (suc bodylen - nr)) l.bytes
            ∙ drop-drop nr (suc bodylen) (coming i) (omega arith);
        socket = n.socket ∙ l.socket;
        responses = n.responses ∙ l.responses;
      },
    )

-- A part of `n` bytes that is known.
pub then_part :
    (failed : Return → Return) (r : Result) (n : ℕ) (i : Instance)
    (next : List ℕ → Instance → Answer) (part rest : List ℕ)
    → i.has_socket ≡ true
    → n ≡ length part
    → coming i ≡ part ++ rest
    → Continues (then_bytes failed r (safe_read i n) next) next i part rest
then_part failed r n i next part rest o e c =
    let (j, f, l) =
      then_bytes-Continues failed r n i next o
        (subst (λ xs. n ≤ length xs) (sym c) (omega (arith, length-append part rest))) in
    (
      j,
      f
          ∙ ap (λ bytes. next bytes j)
              (ap (λ m. take m (coming i)) e
                ∙ ap (take (length part)) c
                ∙ take-length_append part rest),
      record {
        bytes =
            l.bytes
            ∙ ap (λ m. drop m (coming i)) e
            ∙ ap (drop (length part)) c
            ∙ drop-length_append part rest;
        socket = l.socket;
        responses = l.responses;
      },
    )

-- The header of a response that comes in.
pub header-Continues :
    (allocates : ℕ → Bool) (p n : ℕ) (r : Result) (i : Instance) (h : Header) (rest : List ℕ)
    → i.has_socket ≡ true
    → IsHeader h
    → coming i ≡ header_bytes h ++ rest
    → (j : Instance) × (binary_read_one_response allocates p n r i
        ≡ header_switch allocates p n h r j)
      × Leaves i j rest
unfolding binary_read_one_response
header-Continues allocates p n r i h rest o v c =
    let (j, e, l) =
      then_part (λ rc. rc) r header_size i
        (λ bytes j. header_switch allocates p n (read_header bytes) r j) (header_bytes h) rest o
        (sym (length-header_bytes h)) c in
    (
      j,
      e
          ∙ ap (λ g. header_switch allocates p n g r j)
              (ap read_header (sym (append-nil (header_bytes h)))
                ∙ read_header-header_bytes h [] v),
      l,
    )

unfoldable pub is_quiet : ℕ → Bool
is_quiet opcode =
    opcode == Command.setq
    || opcode == Command.addq
    || opcode == Command.replaceq
    || opcode == Command.appendq
    || opcode == Command.prependq

-- What the client reports for a response with an error.
unfoldable pub error_result : Header → Return
unfolding is_quiet
error_result h =
    if not (h.bodylen == 0) && is_quiet h.opcode then fetch_notfinished else status_result h.status

pub header_switch_empty :
    (allocates : ℕ → Bool) (p n : ℕ) (h : Header) (r : Result) (i : Instance)
    → h.magic ≡ response_magic
    → h.status ≢ Status.succeeded
    → h.status ≢ Status.auth_continue
    → h.bodylen ≡ 0
    → header_switch allocates p n h r i ≡ some (error_result h, r, i)
unfolding header_switch error_result is_quiet
header_switch_empty allocates p n h r i m s a b = ground arith

pub header_switch-skip_body :
    (allocates : ℕ → Bool) (p n : ℕ) (h : Header) (r : Result) (i : Instance)
    → h.magic ≡ response_magic
    → h.status ≢ Status.succeeded
    → h.status ≢ Status.auth_continue
    → h.bodylen ≢ 0
    → header_switch allocates p n h r i ≡ skip_body (suc h.bodylen) r h.bodylen i (after_error h r)
unfolding header_switch
header_switch-skip_body allocates p n h r i m s a b = ground arith

pub after_error-error_result :
    (h : Header) (r : Result) (i : Instance)
    → h.bodylen ≢ 0
    → after_error h r i ≡ some (error_result h, r, i)
unfolding after_error error_result is_quiet
after_error-error_result h r i b = ground arith
