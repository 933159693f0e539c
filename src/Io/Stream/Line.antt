-- ===== src/Io/Stream/Line.antt =====
-- libmemcached/io.cc: `memcached_io_readline` on the bytes that the socket delivers.
use libmemcached.Prelude.{
  ℕ, zero, suc, ◌+◌, ◌<◌, ◌≡◌, refl, sym, ap, subst, ◌∙◌, Bool, true, false, List, [], ◌∷◌, ◌++◌,
  some, append_assoc, length, All, arith, length-append,
}
use libmemcached.Return.{success, is_failed}
use libmemcached.Io.{Instance}
use libmemcached.Io.Read.{Reading, line_body, end_round, readline_loop, io_readline}
use libmemcached.Io.Stream.{stream, coming, Leaves}
use libmemcached.Io.Stream.Round.{line_feed, IsPlain, Copied, complete, partly, first_byte-Round}

-- The line is read, without its line feed `l`, and `rest` stays behind.
abbrev pub ReadsLine : Reading → List ℕ → List ℕ → List ℕ → Instance → Type 0
ReadsLine r got l rest i =
    (k : Instance) × (r ≡ some (success, got ++ (l ++ line_feed ∷ []), k)) × Leaves i k rest

end_round_complete :
    (loop : List ℕ → Instance → Reading) (size : ℕ) (line left : List ℕ) (j : Instance)
    → length line < size
    → end_round loop size j (line, (true, left))
      ≡ some (success, line, record j { readable = left })
unfolding end_round
end_round_complete loop size line left j h = ground arith

end_round_partly :
    (loop : List ℕ → Instance → Reading) (size : ℕ) (line left : List ℕ) (j : Instance)
    → length line < size
    → end_round loop size j (line, (false, left)) ≡ loop line (record j { readable = left })
unfolding end_round
end_round_partly loop size line left j h = ground arith

All-drop_append : (l1 l2 : List ℕ) → All IsPlain (l1 ++ l2) → All IsPlain l2
All-drop_append [] l2 p = p
All-drop_append (x ∷ l1) l2 p = All-drop_append l1 l2 p.1

end_round-ReadsLine :
    (fuel size : ℕ) (got bs l rest : List ℕ) (j : Instance) {r : List ℕ × (Bool × List ℕ)}
    → ((g l' : List ℕ) (k : Instance)
        → coming k ≡ l' ++ line_feed ∷ rest
        → All IsPlain l'
        → length g + length l' + 1 < size
        → length l' < fuel
        → k.has_socket ≡ true
        → ReadsLine (readline_loop fuel size g k) g l' rest k)
    → Copied got bs (stream j.arrivals) l rest r
    → 0 < length bs
    → All IsPlain l
    → length got + length l + 1 < size
    → length l < suc fuel
    → j.has_socket ≡ true
    → ReadsLine (end_round (readline_loop fuel size) size j r) got l rest j
end_round-ReadsLine fuel size got bs l rest j ih (complete left e) q p h n o = (
  record j { readable = left },
  end_round_complete (readline_loop fuel size) size _ left j
      (omega (arith, length-append got (l ++ line_feed ∷ []), length-append l (line_feed ∷ []))),
  record { bytes = e; socket = refl; responses = refl },
)
end_round-ReadsLine fuel size got bs l rest j ih (partly l1 l2 e s m) q p h n o =
    let (k, f, leaves) =
      ih (got ++ l1) l2 (record j { readable = [] }) s
        (All-drop_append l1 l2 (subst (All IsPlain) (sym e) p))
        (omega (arith, length-append got l1, length-append l1 l2, ap length e))
        (omega (arith, length-append l1 l2, ap length e)) o in
    (
      k,
      end_round_partly (readline_loop fuel size) size (got ++ l1) [] j
            (omega (arith, length-append got l1, length-append l1 l2, ap length e))
          ∙ f
          ∙ ap (λ line. some (success, line, k))
              (append_assoc got l1 _
                ∙ ap (λ line. got ++ line)
                    (sym (append_assoc l1 l2 (line_feed ∷ [])) ∙ ap (λ x. x ++ line_feed ∷ []) e)),
      record { bytes = leaves.bytes; socket = leaves.socket; responses = leaves.responses },
    )

readline_loop-ReadsLine :
    (fuel size : ℕ) (got l rest : List ℕ) (i : Instance)
    → coming i ≡ l ++ line_feed ∷ rest
    → All IsPlain l
    → length got + length l + 1 < size
    → length l < fuel
    → i.has_socket ≡ true
    → ReadsLine (readline_loop fuel size got i) got l rest i
unfolding readline_loop line_body is_failed
readline_loop-ReadsLine zero size got l rest i e p h n o = absurd (omega arith)
readline_loop-ReadsLine (suc fuel) size got l rest i e p h n o =
    let r = first_byte-Round i.readable size got l rest i refl o e p (omega arith) in
    let (k, f, leaves) =
      end_round-ReadsLine fuel size got r.bs l rest r.over
        (λ g l' k. readline_loop-ReadsLine fuel size g l' rest k) r.copied r.progress p h n
        (r.socket ∙ o) in
    (
      k,
      ap (line_body (readline_loop fuel size) size got) r.first ∙ f,
      record {
        bytes = leaves.bytes;
        socket = leaves.socket ∙ r.socket;
        responses = leaves.responses ∙ r.responses;
      },
    )

-- On a connected socket whose coming bytes are a line without a line feed, then a line feed, then
-- `rest`, and with a buffer larger than the line and its line feed, `memcached_io_readline` returns
-- with success and the whole line; afterwards exactly `rest` is coming, and the number of expected
-- responses has not changed. This does not depend on how the bytes are cut into packets, nor on the
-- interruptions and successful waits between them.
pub io_readline-ReadsLine :
    (i : Instance) (size : ℕ) (l rest : List ℕ)
    → i.has_socket ≡ true
    → coming i ≡ l ++ line_feed ∷ rest
    → All IsPlain l
    → length l + 1 < size
    → ReadsLine (io_readline i size) [] l rest i
unfolding io_readline
io_readline-ReadsLine i size l rest o e p h =
    readline_loop-ReadsLine (size + 1) size [] l rest i e p (omega arith) (omega arith) o
