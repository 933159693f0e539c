-- ===== src/StringBuffer/Growth.antt =====
-- libmemcached/string.cc: how the buffer grows, and that its test for overflow is enough.
use libmemcached.Prelude.{
  ℕ, zero, suc, ◌+◌, ◌-◌, ◌^◌, ◌≤◌, ◌<◌, ◌≡◌, ◌⊎◌, inl, inr, refl, ap, List, [], ◌∷◌, ◌++◌, Bool,
  true, not, ◌&&◌, length, take, replicate, ltb, ltb→le, ◌==◌, arith, Bool-cases, length-append,
  length-take, length-replicate,
}
use libmemcached.Return.{success, memory_allocation_failure}
use libmemcached.StringBuffer.{StringBuffer, spare, new_size, resized, string_check, content}

-- The count of the bytes is right, and `end` lies among them or just behind.
pub record IsSound (s : StringBuffer) : Type 0 where
  pub cells_size : length s.cells ≡ s.current_size
  pub end_le : s.end_offset ≤ s.current_size
  pub small : s.current_size < 2 ^ 63

-- What a granted request leaves: room for it, and the same content.
pub record HasRoom (s : StringBuffer) (need : ℕ) (t : StringBuffer) : Type 0 where
  pub sound : IsSound t
  pub room : t.end_offset + need ≤ t.current_size
  pub same_end : t.end_offset ≡ s.end_offset
  pub same_content : content t ≡ content s

take-resized :
    (xs ys : List ℕ) (n m : ℕ) → n ≤ m → n ≤ length xs → take n (take m xs ++ ys) ≡ take n xs
take-resized xs ys zero m h k = refl
take-resized [] ys (suc n) m h k = absurd (omega arith)
take-resized (x ∷ xs) ys (suc n) zero h k = absurd (omega arith)
take-resized (x ∷ xs) ys (suc n) (suc m) h k =
    ap (◌∷◌ x) (take-resized xs ys n m (omega arith) (omega arith))

spare-eq : (s : StringBuffer) → IsSound s → spare s ≡ s.current_size - s.end_offset
spare-eq s v = omega (arith, v.end_le, v.small)

-- A size that passes the test has not wrapped around.
new_size-grows :
    (s : StringBuffer) (need : ℕ)
    → IsSound s
    → need < 2 ^ 64
    → spare s < need
    → need ≤ new_size s need
    → s.end_offset + need ≤ new_size s need × (s.current_size ≤ new_size s need)
new_size-grows s need v small short passed =
    (omega (arith, v.end_le, v.small, spare-eq s v), omega (arith, v.end_le, v.small, spare-eq s v))

resized-HasRoom :
    (s : StringBuffer) (need size : ℕ)
    → IsSound s
    → s.end_offset + need ≤ size
    → s.current_size ≤ size
    → size < 2 ^ 63
    → HasRoom s need (resized s size)
resized-HasRoom s need size v room wider limit = record {
  sound = record {
    cells_size = omega (
      arith,
      v.cells_size,
      length-append (take size s.cells) (replicate (size - length s.cells) 0),
      length-take size s.cells,
      length-replicate {A = ℕ} (size - length s.cells) 0,
    );
    end_le = omega (arith, v.end_le);
    small = limit;
  };
  room = room;
  same_end = refl;
  same_content =
      take-resized s.cells (replicate (size - length s.cells) 0) s.end_offset size
        (omega (arith, v.end_le)) (omega (arith, v.end_le, v.cells_size));
}

-- A request on a sound buffer, of any number of bytes that a `size_t` can hold: if memory is only
-- given out below half of the address space, it either fails and leaves the buffer alone, or leaves
-- room for as many bytes behind the same content.
pub string_check-HasRoom :
    (realloc : ℕ → Bool) (s : StringBuffer) (need : ℕ)
    → ((n : ℕ) → realloc n ≡ true → n < 2 ^ 63)
    → IsSound s
    → need < 2 ^ 64
    → (((string_check realloc s need).0 ≡ success) × HasRoom s need (string_check realloc s need).1)
      ⊎ (((string_check realloc s need).0 ≡ memory_allocation_failure)
          × ((string_check realloc s need).1 ≡ s))
unfolding string_check
string_check-HasRoom realloc s need limit v small =
    elim (Bool-cases (not (need == 0) && ltb (spare s) need)) [
      | inr e ↦ rw e (
          inl (
            refl,
            record {
              sound = v;
              room = ground (arith, v.end_le, spare-eq s v, e);
              same_end = refl;
              same_content = refl;
            },
          ))
      | inl e ↦ elim (Bool-cases (ltb (new_size s need) need)) [
        | inl f ↦ rw e (rw f (inr (refl, refl)))
        | inr f ↦ elim (Bool-cases (realloc (new_size s need))) [
          | inr g ↦ rw e (rw f (rw g (inr (refl, refl))))
          | inl g ↦
              let grows =
                new_size-grows s need v small (ground (arith, e))
                  (ltb→le (new_size s need) need f) in
              rw e (
                rw f (
                  rw g (
                    inl (
                      refl,
                      resized-HasRoom s need (new_size s need) v grows.0 grows.1
                          (limit (new_size s need) g),
                    ))))
        ]
      ]
    ]
