-- ===== src/Io/Write/Order.antt =====
-- libmemcached/io.cc: what is sent, and what is buffered, in the order in which it was written.
use libmemcached.Prelude.{
  concat, ℕ, zero, suc, ◌+◌, ◌≤◌, ◌≡◌, ◌∙◌, refl, sym, ap, subst, some, if◌then◌else◌, Bool, true,
  false, List, [], ◌∷◌, ◌++◌, append-nil, append_assoc, take, drop, length, length-take,
  length-drop, length-append, arith,
}
use libmemcached.Return.{Return, is_failed}
use libmemcached.Io.Write
use libmemcached.Io.Write.Flush.{
  Writes, Writes-trans, Writes-refl, Wrote, HasRoom, IsEmpty, CanWrite, CanWrite-rest, parts,
  and_then-Wrote, io_flush-Wrote, flush_if_full-Wrote,
}

copied_in-Writes :
    (n : ℕ) (text : List ℕ) (w : Write.Writer) → Writes w (Write.copied_in n text w) (take n text)
copied_in-Writes n text w = record {
  order = sym (append_assoc w.sent w.instance_.pending (take n text));
  responses = refl;
  served = omega (arith, length-append w.instance_.pending (take n text));
}

-- A round of the loop.
copy_round-Wrote :
    (m : Write.Watermarks) (n : ℕ) (text : List ℕ) (w : Write.Writer)
    → length w.instance_.pending + n ≤ Write.max_buffer
    → n ≤ length text
    → CanWrite m w text
    → Wrote (Write.flush_if_full m (Write.copied_in n text w)) HasRoom w (take n text)
copy_round-Wrote m n text w h k c =
    let v = Write.copied_in n text w in
    let e = length-append w.instance_.pending (take n text) in
    let d : CanWrite m v [] = record {
      calm = record { few = c.calm.few; below = c.calm.below };
      capacity = omega (arith, c.capacity, e, length-take n text);
    } in
    let (u, e', a, p) = flush_if_full-Wrote m v _ refl d (omega (arith, e, length-take n text)) in
    (
      u,
      e',
      subst (Writes w u) (append-nil (take n text)) (Writes-trans (copied_in-Writes n text w) a),
      p,
    )

write_loop-Wrote :
    (m : Write.Watermarks) (fuel : ℕ) (text : List ℕ) (w : Write.Writer)
    → length text ≤ fuel
    → HasRoom w
    → CanWrite m w text
    → Wrote (Write.write_loop m fuel text w) HasRoom w text
unfolding Write.write_loop
write_loop-Wrote m zero [] w h p c = (w, refl, Writes-refl w, p)
write_loop-Wrote m (suc fuel) [] w h p c = (w, refl, Writes-refl w, p)
write_loop-Wrote m zero (b ∷ bs) w h p c = absurd (omega arith)
write_loop-Wrote m (suc fuel) (b ∷ bs) w h p c =
    let n = Write.should_write (b ∷ bs) w in
    let xs = take n (b ∷ bs) in
    let ys = drop n (b ∷ bs) in
    let c' : CanWrite m w (xs ++ ys) = subst (CanWrite m w) (sym (parts n (b ∷ bs))) c in
    subst (Wrote (Write.write_loop m (suc fuel) (b ∷ bs) w) HasRoom w) (parts n (b ∷ bs)) (
      and_then-Wrote (Write.flush_if_full m (Write.copied_in n (b ∷ bs) w))
        (Write.write_loop m fuel ys) HasRoom HasRoom w xs ys
        (copy_round-Wrote m n (b ∷ bs) w (omega (arith, p)) (omega arith) c)
        (λ v a q.
          write_loop-Wrote m fuel ys v (omega (arith, p, length-drop n (b ∷ bs))) q
            (CanWrite-rest m w v xs ys a c')))

io_write-Wrote :
    (m : Write.Watermarks) (text : List ℕ) (w : Write.Writer)
    → HasRoom w
    → CanWrite m w text
    → Wrote (Write.io_write m text false w) HasRoom w text
unfolding Write.io_write
io_write-Wrote m text w p c =
    subst (Wrote (Write.io_write m text false w) HasRoom w) (append-nil text) (
      and_then-Wrote (Write.write_loop m (suc (length text)) text w) (Write.flush_if false m)
        HasRoom HasRoom w text [] (write_loop-Wrote m (suc (length text)) text w (omega arith) p c)
        (λ v a q. (v, unfold Write.flush_if in refl, Writes-refl v, q)))

abbrev pub Rest : Bool → Write.Writer → Type 0
Rest true = IsEmpty
Rest false = HasRoom

io_writev-Wrote :
    (m : Write.Watermarks) (vector : List (List ℕ)) (with_flush : Bool) (w : Write.Writer)
    → HasRoom w
    → CanWrite m w (concat vector)
    → Wrote (Write.io_writev m vector with_flush w) (Rest with_flush) w (concat vector)
unfolding Write.io_writev
io_writev-Wrote m [] true w p c =
    unfold Write.io_write in
    unfold Write.write_loop in
    unfold Write.and_then in unfold Write.flush_if in io_flush-Wrote m w c
io_writev-Wrote m [] false w p c = (w, refl, Writes-refl w, p)
io_writev-Wrote m ([] ∷ vector) with_flush w p c = io_writev-Wrote m vector with_flush w p c
io_writev-Wrote m ((b ∷ bs) ∷ vector) with_flush w p c =
    and_then-Wrote (Write.io_write m (b ∷ bs) false w) (Write.io_writev m vector with_flush) HasRoom
      (Rest with_flush) w (b ∷ bs) (concat vector)
      (io_write-Wrote m (b ∷ bs) w p (record {
        calm = c.calm;
        capacity = omega (arith, c.capacity, length-append (b ∷ bs) (concat vector));
      }))
      (λ v a q.
        io_writev-Wrote m vector with_flush v q (CanWrite-rest m w v (b ∷ bs) (concat vector) a c))

-- On an open connection `memcached_vdo` comes back with the code of `memcached_connect`, and it has
-- written the vector in order: what `send` has taken, with what is left in the buffer, is what it had
-- taken, what the buffer held and all the texts; then the response is counted, if there is one. With a
-- flush nothing is left in the buffer, without one there is still room. The conditions are that the
-- connection succeeded, the buffer was not full, so few responses are outstanding that nothing is
-- purged, and `send` takes at least one byte for each that is to be written before a call of it fails
-- or a wait for it is in vain.
pub vdo-Wrote :
    (m : Write.Watermarks) (is_replying : Bool) (connected last_error : Return)
    (vector : List (List ℕ)) (with_flush : Bool) (w : Write.Writer)
    → is_failed connected ≡ false
    → HasRoom w
    → CanWrite m w (concat vector)
    → (v : Write.Writer) × (Write.vdo m is_replying connected last_error vector with_flush w
        ≡ some (connected, Write.response_counted is_replying v))
      × Writes w v (concat vector)
      × Rest with_flush v
unfolding Write.vdo Write.end_vdo
vdo-Wrote m is_replying connected last_error vector with_flush w e p c =
    let (v, e', a, q) = io_writev-Wrote m vector with_flush w p c in
    let done =
      Write.end_vdo is_replying connected last_error (Write.io_writev m vector with_flush w) in
    (
      v,
      ap (λ b. if b then some (connected, w) else done) e
          ∙ ap (Write.end_vdo is_replying connected last_error) e',
      a,
      q,
    )
