-- ===== src/StringBuffer/Content.antt =====
-- libmemcached/string.cc: what the buffer holds after each operation.
use mathlib.Core.Option.{some-injective, none-ne-some}
use libmemcached.Prelude.{
  if◌then◌else◌, length-take, ℕ, zero, suc, ◌+◌, ◌≤◌, ◌<◌, ◌^◌, ◌≡◌, ◌⊎◌, inl, inr, refl, sym, ap,
  ◌∙◌, List, [], ◌∷◌, ◌++◌, Bool, true, false, Option, none, some, length, set, take, arith,
  append-nil, append_assoc, length-set, take-set, ◌==◌, get_elem?, get_elem?-set,
}
use libmemcached.Return.{success, memory_allocation_failure, is_success}
use libmemcached.StringBuffer.{
  StringBuffer, init_string, content, string_check, memcpy, string_append, append_null, string_set,
  string_reset, take_value, string_length,
}
use libmemcached.StringBuffer.Growth.{IsSound, string_check-HasRoom}

-- The bytes of the buffer are `bytes`, and it is sound.
pub record Contains (s : StringBuffer) (bytes : List ℕ) : Type 0 where
  pub sound : IsSound s
  pub bytes_are : content s ≡ bytes

length-memcpy : (cells : List ℕ) (i : ℕ) (vs : List ℕ) → length (memcpy cells i vs) ≡ length cells
unfolding memcpy
length-memcpy cells i [] = refl
length-memcpy cells i (v ∷ vs) = length-memcpy (set cells i v) (suc i) vs ∙ length-set cells i v

take-memcpy :
    (cells : List ℕ) (i : ℕ) (vs : List ℕ)
    → i + length vs ≤ length cells
    → take (i + length vs) (memcpy cells i vs) ≡ take i cells ++ vs
unfolding memcpy
take-memcpy cells i [] h = ap (λ n. take n cells) (omega arith) ∙ sym (append-nil (take i cells))
take-memcpy cells i (v ∷ vs) h =
    ap (λ n. take n (memcpy (set cells i v) (suc i) vs)) (omega arith)
    ∙ take-memcpy (set cells i v) (suc i) vs (omega (arith, length-set cells i v))
    ∙ ap (λ l. l ++ vs) (take-set cells i v (omega arith))
    ∙ append_assoc (take i cells) (v ∷ []) vs

take-set_other : (cells : List ℕ) (n i v : ℕ) → n ≤ i → take n (set cells i v) ≡ take n cells
take-set_other cells zero i v h = refl
take-set_other [] (suc n) i v h = refl
take-set_other (x ∷ cells) (suc n) zero v h = absurd (omega arith)
take-set_other (x ∷ cells) (suc n) (suc i) v h =
    ap (◌∷◌ x) (take-set_other cells n i v (omega arith))

length-content :
    (s : StringBuffer) (bytes : List ℕ)
    → IsSound s
    → content s ≡ bytes
    → length bytes ≡ s.end_offset
length-content s bytes v e =
    omega (arith, ap length e, length-take s.end_offset s.cells, v.end_le, v.cells_size)

emptied : (s : StringBuffer) → IsSound s → Contains (string_reset s) []
emptied s v = record {
  sound = record { cells_size = v.cells_size; end_le = omega arith; small = v.small };
  bytes_are = refl;
}

-- `take_value` gives a value in one of its three branches.
abbrev out_of : Bool → Bool → StringBuffer → StringBuffer → Option (List ℕ) × StringBuffer
out_of empty ended s t =
    if empty then (none, s) else (if ended then (some t.cells, init_string) else (none, t))

gave :
    (empty ended : Bool) (s t : StringBuffer) (taken : List ℕ)
    → (out_of empty ended s t).0 ≡ some taken
    → (ended ≡ true) × (t.cells ≡ taken) × ((out_of empty ended s t).1 ≡ init_string)
gave true ended s t taken e = absurd (none-ne-some taken e)
gave false false s t taken e = absurd (none-ne-some taken e)
gave false true s t taken e = (refl, some-injective t.cells taken e, refl)

module _ (realloc : ℕ → Bool) (limit : (n : ℕ) → realloc n ≡ true → n < 2 ^ 63) where
  -- If memory is only given out below half of the address space: appending fewer than 2 ^ 64 bytes
  -- to a sound buffer adds them behind its content, or fails for want of memory and leaves the
  -- content alone; the buffer stays sound.
  pub string_append-Contains :
      (s : StringBuffer) (bytes value : List ℕ)
      → Contains s bytes
      → length value < 2 ^ 64
      → (((string_append realloc s value).0 ≡ success)
          × Contains (string_append realloc s value).1 (bytes ++ value))
        ⊎ (((string_append realloc s value).0 ≡ memory_allocation_failure)
            × Contains (string_append realloc s value).1 bytes)
  unfolding string_append is_success
  string_append-Contains s bytes value c small =
      elim (string_check-HasRoom realloc s (length value) limit c.sound small) [
        | inl (e, r) ↦
            let t = (string_check realloc s (length value)).1 in
            rw e (
              inl (
                refl,
                record {
                  sound = record {
                    cells_size = length-memcpy t.cells t.end_offset value ∙ r.sound.cells_size;
                    end_le = r.room;
                    small = r.sound.small;
                  };
                  bytes_are =
                      take-memcpy t.cells t.end_offset value
                        (omega (arith, r.room, r.sound.cells_size))
                      ∙ ap (λ l. l ++ value) (r.same_content ∙ c.bytes_are);
                },
              ))
        | inr (e, f) ↦ rw (e, f) (inr (refl, c))
      ]

  append_null-Contains :
      (s : StringBuffer) (bytes : List ℕ)
      → Contains s bytes
      → Contains (append_null realloc s).1 bytes
        × (((append_null realloc s).0 ≡ memory_allocation_failure)
            ⊎ (((append_null realloc s).0 ≡ success)
                × (get_elem? (append_null realloc s).1.cells (length bytes) ≡ some 0)))
  unfolding append_null is_success
  append_null-Contains s bytes c =
      elim (string_check-HasRoom realloc s 1 limit c.sound (omega arith)) [
        | inl (e, r) ↦
            let t = (string_check realloc s 1).1 in
            let sized = length-content t bytes r.sound (r.same_content ∙ c.bytes_are) in
            rw e (
              record {
                sound = record {
                  cells_size = length-set t.cells t.end_offset 0 ∙ r.sound.cells_size;
                  end_le = r.sound.end_le;
                  small = r.sound.small;
                };
                bytes_are =
                    take-set_other t.cells t.end_offset t.end_offset 0 (omega arith)
                    ∙ r.same_content
                    ∙ c.bytes_are;
              },
              inr (
                refl,
                ap (λ n. get_elem? (set t.cells t.end_offset 0) n) sized
                    ∙ get_elem?-set t.cells t.end_offset 0
                        (omega (arith, r.room, r.sound.cells_size)),
              ),
            )
        | inr (e, f) ↦ rw (e, f) (c, inl refl)
      ]

  -- If memory is only given out below half of the address space: setting a sound buffer to fewer
  -- than 2 ^ 64 bytes leaves exactly these, or fails and leaves none; the buffer stays sound.
  pub string_set-Contains :
      (s : StringBuffer) (bytes value : List ℕ)
      → Contains s bytes
      → length value < 2 ^ 64
      → (((string_set realloc s value).0 ≡ true) × Contains (string_set realloc s value).1 value)
        ⊎ (((string_set realloc s value).0 ≡ false) × Contains (string_set realloc s value).1 [])
  unfolding string_set is_success
  string_set-Contains s bytes value c small =
      elim (string_append-Contains (string_reset s) [] value (emptied s c.sound) small) [
        | inl (e, d) ↦ rw e (
            inl (
              refl,
              (append_null-Contains (string_append realloc (string_reset s) value).1 value d).0,
            ))
        | inr (e, d) ↦ rw e (inr (refl, d))
      ]

  -- If memory is only given out below half of the address space: a value that is taken from a sound
  -- buffer starts with its content and has a zero behind it, and the buffer is as new.
  pub take_value-content :
      (s : StringBuffer) (bytes taken : List ℕ)
      → Contains s bytes
      → (take_value realloc s).0 ≡ some taken
      → (take (length bytes) taken ≡ bytes)
        × (get_elem? taken (length bytes) ≡ some 0)
        × ((take_value realloc s).1 ≡ init_string)
  unfolding take_value is_success
  take_value-content s bytes taken c e =
      let ended = append_null realloc s in
      let out = gave (string_length s == 0) (is_success ended.0) s ended.1 taken e in
      let kept = append_null-Contains s bytes c in
      (
        ap (λ l. take (length bytes) l) (sym out.1)
            ∙ ap (λ n. take n ended.1.cells)
                (length-content ended.1 bytes kept.0.sound kept.0.bytes_are)
            ∙ kept.0.bytes_are,
        ap (λ l. get_elem? l (length bytes)) (sym out.1) ∙ elim (kept.1) [
          | inl f ↦ absurd (ground (arith, out.0, f, ap is_success f))
          | inr (f, g) ↦ g
        ],
        out.2,
      )
