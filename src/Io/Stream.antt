-- ===== src/Io/Stream.antt =====
-- libmemcached/io.cc: the reads as functions of the bytes that the socket delivers, however these
-- are cut into packets.
pub mod Safe
pub mod Round
pub mod Line
use libmemcached.Prelude.{
  ◌==◌, if◌then◌else◌, ℕ, zero, suc, ◌+◌, ◌-◌, ◌≤◌, ◌<◌, ◌≡◌, refl, sym, ap, subst, ◌∙◌, Bool, true,
  false, List, [], ◌∷◌, ◌++◌, Option, some, append-nil, append_assoc, take, drop, length, min,
  arith, length-append,
}
use native.Mathlib.Numerals.{unary_clauses}
use libmemcached.Return.{Return, success, connection_failure, is_success, is_fatal}
use libmemcached.Io.{Wait, ready, Arrival, received, interrupted, unready, closed, broken, Instance}
use libmemcached.Io.Read.{fill_from, io_fill, fill_if_empty, consume, read_loop, io_read}

-- The bytes that the socket delivers before it fails or falls silent.
abbrev pub stream : List Arrival → List ℕ
stream [] = []
stream (received b bs ∷ rest) = b ∷ bs ++ stream rest
stream (interrupted ∷ rest) = stream rest
stream (unready ready ∷ rest) = stream rest
stream (unready _ ∷ rest) = []
stream (closed ∷ rest) = []
stream (broken rc ∷ rest) = []

-- What is buffered, and what the socket delivers.
abbrev pub coming : Instance → List ℕ
coming i = i.readable ++ stream i.arrivals

-- From `i` a call has come to `j` with the bytes `left` still to read.
pub record Leaves (i j : Instance) (left : List ℕ) : Type 0 where
  pub bytes : coming j ≡ left
  pub socket : j.has_socket ≡ i.has_socket
  pub responses : j.cursor_active ≡ i.cursor_active

fill_from-Leaves :
    (events : List Arrival) (i : Instance)
    → 0 < length (stream events)
    → (j : Instance) × (fill_from i events ≡ some (success, j))
      × (0 < length j.readable)
      × Leaves i j (stream events)
unfolding fill_from is_success
fill_from-Leaves [] i h = absurd (omega arith)
fill_from-Leaves (received b bs ∷ rest) i h =
    (_, refl, omega arith, record { bytes = refl; socket = refl; responses = refl })
fill_from-Leaves (interrupted ∷ rest) i h = fill_from-Leaves rest i h
fill_from-Leaves (unready ready ∷ rest) i h =
    let (j, e, p, l) = fill_from-Leaves rest (record i { read_waits = i.read_waits + 1 }) h in
    (j, e, p, record { bytes = l.bytes; socket = l.socket; responses = l.responses })
fill_from-Leaves (unready _ ∷ rest) i h = absurd (omega arith)
fill_from-Leaves (closed ∷ rest) i h = absurd (omega arith)
fill_from-Leaves (broken rc ∷ rest) i h = absurd (omega arith)

fill_if_empty-Leaves :
    (bs : List ℕ) (i : Instance)
    → i.readable ≡ bs
    → 0 < length (coming i)
    → (j : Instance) × (fill_if_empty i bs ≡ some (success, j))
      × (0 < length j.readable)
      × Leaves i j (coming i)
unfolding fill_if_empty io_fill
fill_if_empty-Leaves [] i e h =
    let (j, e', p, l) =
      fill_from-Leaves i.arrivals i (subst (λ bs. 0 < length (bs ++ stream i.arrivals)) e h) in
    (
      j,
      e',
      p,
      record {
        bytes = l.bytes ∙ ap (λ bs. bs ++ stream i.arrivals) (sym e);
        socket = l.socket;
        responses = l.responses;
      },
    )
fill_if_empty-Leaves (b ∷ bs) i e h = (
  i,
  refl,
  subst (λ xs. 0 < length xs) (sym e) (omega arith),
  record { bytes = refl; socket = refl; responses = refl },
)

module _ {ℓ} {A : Type ℓ} where
  -- A prefix is taken in two parts.
  take_parts :
      (d n : ℕ) (r s : List A)
      → d ≤ length r
      → d ≤ n
      → take d r ++ take (n - d) (drop d r ++ s) ≡ take n (r ++ s)
  take_parts zero n r s h k = simp unary_clauses
  take_parts (suc d) n [] s h k = absurd (omega arith)
  take_parts (suc d) zero (x ∷ r) s h k = absurd (omega arith)
  take_parts (suc d) (suc n) (x ∷ r) s h k =
      simp unary_clauses (ap (◌∷◌ x) (take_parts d n r s (omega arith) (omega arith)))

  drop_parts :
      (d n : ℕ) (r s : List A)
      → d ≤ length r
      → d ≤ n
      → drop (n - d) (drop d r ++ s) ≡ drop n (r ++ s)
  drop_parts zero n r s h k = simp unary_clauses
  drop_parts (suc d) n [] s h k = absurd (omega arith)
  drop_parts (suc d) zero (x ∷ r) s h k = absurd (omega arith)
  drop_parts (suc d) (suc n) (x ∷ r) s h k =
      simp unary_clauses (drop_parts d n r s (omega arith) (omega arith))

  length-drop_parts :
      (d : ℕ) (r s : List A) → d ≤ length r → length (drop d r ++ s) + d ≡ length (r ++ s)
  length-drop_parts zero r s h = omega arith
  length-drop_parts (suc d) [] s h = absurd (omega arith)
  length-drop_parts (suc d) (x ∷ r) s h = omega (arith, length-drop_parts d r s (omega arith))

Leaves-trans : {i j k : Instance} {xs ys : List ℕ} → Leaves i j xs → Leaves j k ys → Leaves i k ys
Leaves-trans a b = record {
  bytes = b.bytes;
  socket = b.socket ∙ a.socket;
  responses = b.responses ∙ a.responses;
}

pub not_zero : (n : ℕ) → (suc n == 0) ≡ false
not_zero n = ground arith

read_round :
    (fuel need : ℕ) (got : List ℕ) (i j : Instance)
    → fill_if_empty i i.readable ≡ some (success, j)
    → read_loop (suc fuel) (suc (suc need)) got i ≡ (
        let d = min (suc (suc need)) (length j.readable) in
        read_loop fuel (suc (suc need) - d) (got ++ take d j.readable) (consume d j))
unfolding read_loop is_fatal
read_round fuel need got i j e = rw (e, read_loop, is_fatal, not_zero need)

read_one :
    (fuel : ℕ) (got : List ℕ) (i j : Instance)
    → fill_if_empty i i.readable ≡ some (success, j)
    → read_loop (suc fuel) 1 got i ≡ some (success, got ++ take 1 j.readable, consume 1 j)
unfolding read_loop is_fatal
read_one fuel got i j e = rw (e, read_loop, is_fatal)

-- The bytes that are read, and what stays behind.
abbrev pub Reads : Option (Return × List ℕ × Instance) → ℕ → List ℕ → Instance → Type 0
Reads r n got i =
    (j : Instance) × (r ≡ some (success, got ++ take n (coming i), j))
    × Leaves i j (drop n (coming i))

read_one-Reads :
    (fuel : ℕ) (got : List ℕ) (i j : Instance)
    → fill_if_empty i i.readable ≡ some (success, j)
    → 0 < length j.readable
    → Leaves i j (coming i)
    → Reads (read_loop (suc fuel) 1 got i) 1 got i
read_one-Reads fuel got i j e p l = (
  consume 1 j,
  read_one fuel got i j e
      ∙ ap (λ bs. some (success, got ++ bs, consume 1 j)) (same ∙ ap (take 1) l.bytes),
  record {
    bytes = drop_parts 1 1 j.readable (stream j.arrivals) p (omega arith) ∙ ap (drop 1) l.bytes;
    socket = l.socket;
    responses = l.responses;
  },
)
  where
    same : take 1 j.readable ≡ take 1 (coming j)
    same =
        sym (append-nil (take 1 j.readable))
        ∙ take_parts 1 1 j.readable (stream j.arrivals) p (omega arith)

-- A round that takes `d` bytes, and the rounds behind it.
module _ (fuel need d : ℕ) (got : List ℕ) (i j : Instance) where
  abbrev after : Option (Return × List ℕ × Instance)
  after = read_loop fuel (need - d) (got ++ take d j.readable) (consume d j)

  after-Reads :
      d ≤ length j.readable
      → d ≤ need
      → Leaves i j (coming i)
      → Reads after (need - d) (got ++ take d j.readable) (consume d j)
      → Reads after need got i
  after-Reads p q l (k, e, l') = (
    k,
    e
        ∙ ap (λ bs. some (success, bs, k))
            (append_assoc got _ _
              ∙ ap (λ bs. got ++ bs) (take_parts d need j.readable _ p q ∙ ap (take need) l.bytes)),
    record {
      bytes = l'.bytes ∙ drop_parts d need j.readable _ p q ∙ ap (drop need) l.bytes;
      socket = l'.socket ∙ l.socket;
      responses = l'.responses ∙ l.responses;
    },
  )

read_more-Reads :
    (fuel need : ℕ) (got : List ℕ) (i j : Instance)
    → ((n : ℕ) (bs : List ℕ) (k : Instance)
        → n < fuel
        → n ≤ length (coming k)
        → Reads (read_loop fuel n bs k) n bs k)
    → suc need < fuel
    → suc (suc need) ≤ length (coming i)
    → fill_if_empty i i.readable ≡ some (success, j)
    → 0 < length j.readable
    → Leaves i j (coming i)
    → Reads (read_loop (suc fuel) (suc (suc need)) got i) (suc (suc need)) got i
read_more-Reads fuel need got i j ih h k e p l =
    let d = min (suc (suc need)) (length j.readable) in
    subst (λ r. Reads r (suc (suc need)) got i) (sym (read_round fuel need got i j e))
      (after-Reads fuel (suc (suc need)) d got i j (omega arith) (omega arith) l (
        ih (suc (suc need) - d) (got ++ take d j.readable) (consume d j) (omega arith) (
          omega (
            arith,
            length-drop_parts d j.readable (stream j.arrivals) (omega arith),
            ap length l.bytes,
          ))))

read_loop-Reads :
    (fuel need : ℕ) (got : List ℕ) (i : Instance)
    → need < fuel
    → need ≤ length (coming i)
    → Reads (read_loop fuel need got i) need got i
read_loop-Reads zero need got i h k = absurd (omega arith)
read_loop-Reads (suc fuel) zero got i h k = (
  i,
  unfold read_loop in ap (λ bs. some (success, bs, i)) (sym (append-nil got)),
  record { bytes = refl; socket = refl; responses = refl },
)
read_loop-Reads (suc fuel) (suc zero) got i h k =
    let (j, e, p, l) = fill_if_empty-Leaves i.readable i refl (omega arith) in
    read_one-Reads fuel got i j e p l
read_loop-Reads (suc fuel) (suc (suc need)) got i h k =
    let (j, e, p, l) = fill_if_empty-Leaves i.readable i refl (omega arith) in
    read_more-Reads fuel need got i j (read_loop-Reads fuel) (omega arith) k e p l

pub io_read-Reads :
    (i : Instance) (n : ℕ)
    → i.has_socket ≡ true
    → n ≤ length (coming i)
    → Reads (io_read i n) n [] i
io_read-Reads i n o h =
    let (j, e, l) = read_loop-Reads (suc n) n [] i (omega arith) h in
    (
      j,
      unfold io_read in
          ap (λ b. if b then read_loop (suc n) n [] i else some (connection_failure, [], i)) o ∙ e,
      l,
    )
