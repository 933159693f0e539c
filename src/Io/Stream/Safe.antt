-- ===== src/Io/Stream/Safe.antt =====
-- libmemcached/io.cc: `memcached_safe_read` on the bytes that the socket delivers.
use libmemcached.Prelude.{
  ℕ, zero, suc, ◌-◌, ◌≤◌, ◌≡◌, refl, ap, ◌∙◌, true, List, [], some, take, length, arith,
  length-take,
}
use native.Mathlib.Numerals.{unary_clauses}
use libmemcached.Return.{success, is_failed}
use libmemcached.Io.{Instance}
use libmemcached.Io.Read.{safe_body, safe_loop, safe_read, io_read}
use libmemcached.Io.Stream.{coming, Reads, io_read-Reads}

safe_loop-all :
    (fuel need : ℕ) (i j : Instance) (bs : List ℕ)
    → need ≡ 0
    → safe_loop (suc fuel) need bs j ≡ some (success, bs, j)
unfolding safe_loop
safe_loop-all fuel zero i j bs e = refl
safe_loop-all fuel (suc need) i j bs e = absurd (omega arith)

safe_round :
    (fuel need : ℕ) (i j : Instance) (bs : List ℕ)
    → io_read i (suc need) ≡ some (success, bs, j)
    → length bs ≡ suc need
    → safe_loop (suc (suc fuel)) (suc need) [] i ≡ some (success, bs, j)
unfolding safe_loop safe_body is_failed
safe_round fuel need i j bs e h =
    ap (safe_body (safe_loop (suc fuel)) (suc need) []) e
    ∙ safe_loop-all fuel (suc need - length bs) i j bs (omega arith)

-- On a connected socket for which at least `n` bytes are coming, `memcached_safe_read` of `n` bytes
-- returns with success and the first `n` of them; afterwards exactly the others are coming, and the
-- number of expected responses has not changed. This does not depend on how the bytes are cut into
-- packets, nor on the interruptions and successful waits between them.
pub safe_read-Reads :
    (i : Instance) (n : ℕ)
    → i.has_socket ≡ true
    → n ≤ length (coming i)
    → Reads (safe_read i n) n [] i
safe_read-Reads i zero o h = (
  i,
  unfold safe_read in safe_loop-all 2 0 i i [] refl,
  record { bytes = refl; socket = refl; responses = refl },
)
safe_read-Reads i (suc n) o h =
    let (j, e, l) = io_read-Reads i (suc n) o h in
    (
      j,
      unfold safe_read in
          simp unary_clauses (
            safe_round (suc (suc n)) n i j (take (suc n) (coming i)) e
              (omega (arith, length-take (suc n) (coming i)))),
      l,
    )
