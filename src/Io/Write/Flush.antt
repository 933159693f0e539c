-- ===== src/Io/Write/Flush.antt =====
-- libmemcached/io.cc: what `io_flush` sends, and what the calls leave behind.
use libmemcached.Prelude.{
  ℕ, zero, suc, ◌+◌, ◌≤◌, ◌<◌, ◌≡◌, refl, sym, ap, ap₂, subst, ◌∙◌, Bool, true, false, List, [],
  ◌∷◌, ◌++◌, some, none, append-nil, append_assoc, take, drop, length, length-drop, length-append,
  arith, ◌==◌, if◌then◌else◌,
}
use libmemcached.Return.{success}
use libmemcached.Io.{Instance, ready}
use libmemcached.Io.Write

-- The calls of `send` that take at least one byte, before the first one that may fail.
abbrev pub turns : List Write.Sending → ℕ
turns [] = 0
turns (Write.accepted n ∷ rest) = suc (turns rest)
turns (Write.no_buffers ∷ rest) = turns rest
turns (Write.blocked input ready ∷ rest) = turns rest
turns (Write.blocked input answer ∷ rest) = 0
turns (Write.lost ∷ rest) = 0
turns (Write.failed rc ∷ rest) = 0

-- So few responses are outstanding that nothing is purged.
pub record IsCalm (m : Write.Watermarks) (i : Instance) : Type 0 where
  pub few : i.cursor_active < 2
  pub below : i.cursor_active < m.io_msg_watermark

IsCalm-nothing :
    (m : Write.Watermarks) (i : Instance) → IsCalm m i → Write.nothing_to_purge m i ≡ true
unfolding Write.nothing_to_purge
IsCalm-nothing m i c =
    let (few, below) : (i.cursor_active < 2) × (i.cursor_active < m.io_msg_watermark) =
      (c.few, c.below) in
    ground arith

-- From `w` the calls have come to `v` with `bytes` written.
pub record Writes (w v : Write.Writer) (bytes : List ℕ) : Type 0 where
  pub order : v.sent ++ v.instance_.pending ≡ (w.sent ++ w.instance_.pending) ++ bytes
  pub responses : v.instance_.cursor_active ≡ w.instance_.cursor_active
  pub served :
      turns w.sends + length v.instance_.pending
      ≤ turns v.sends + (length w.instance_.pending + length bytes)

-- A flush has sent the text, where `send` was good for `capacity` bytes.
record Flushes (w v : Write.Writer) (capacity : ℕ) (text : List ℕ) : Type 0 where
  order : v.sent ≡ w.sent ++ text
  empty : v.instance_.pending ≡ []
  responses : v.instance_.cursor_active ≡ w.instance_.cursor_active
  served : capacity ≤ turns v.sends + length text

abbrev Flushed : Write.Writing → Write.Writer → ℕ → List ℕ → Type 0
Flushed r w capacity text = (v : Write.Writer) × (r ≡ some (true, v)) × Flushes w v capacity text

unblock_either {ℓ} :
    (P : Write.Writing → Type ℓ) (taken : List ℕ) (idle : Bool) (r again : Write.Writing)
    (rest : List Write.Sending) (w : Write.Writer)
    → idle ≡ true
    → P r
    → P again
    → P (Write.unblock taken idle r success again rest w)
unfolding Write.unblock Write.waited
unblock_either P [] true r again rest w e p q = q
unblock_either P [] false r again rest w e p q = absurd (cc e)
unblock_either P (b ∷ bs) idle r again rest w e p q = p

pub parts : (n : ℕ) (bs : List ℕ) → take n bs ++ drop n bs ≡ bs
parts zero bs = refl
parts (suc n) [] = refl
parts (suc n) (b ∷ bs) = ap (◌∷◌ b) (parts n bs)

Flushed-same :
    {capacity : ℕ} {text : List ℕ} {r : Write.Writing} (u w : Write.Writer)
    → u.sent ≡ w.sent
    → u.instance_.cursor_active ≡ w.instance_.cursor_active
    → Flushed r u capacity text
    → Flushed r w capacity text
Flushed-same {text = text} u w e e' (v, k, f) = (
  v,
  k,
  record {
    order = f.order ∙ ap (λ t. t ++ text) e;
    empty = f.empty;
    responses = f.responses ∙ e';
    served = f.served;
  },
)

flush_loop-Flushes :
    (m : Write.Watermarks) (text : List ℕ) (w : Write.Writer) (sends : List Write.Sending)
    → IsCalm m w.instance_
    → length text ≤ turns sends
    → Flushed (Write.flush_loop m text w sends) w (turns sends) text
unfolding Write.flush_loop
flush_loop-Flushes m [] w sends c h = (
  _,
  refl,
  record { order = sym (append-nil w.sent); empty = refl; responses = refl; served = omega arith },
)
flush_loop-Flushes m (b ∷ bs) w [] c h = absurd (omega arith)
flush_loop-Flushes m (b ∷ bs) w (Write.accepted n ∷ rest) c h =
    let (v, e, f) =
      flush_loop-Flushes m (drop n bs) (Write.took (suc n) (b ∷ bs) w) rest
        (record { few = c.few; below = c.below }) (omega (arith, length-drop n bs)) in
    (
      v,
      e,
      record {
        order =
            f.order
            ∙ append_assoc w.sent (b ∷ take n bs) (drop n bs)
            ∙ ap (λ t. w.sent ++ b ∷ t) (parts n bs);
        empty = f.empty;
        responses = f.responses;
        served = omega (arith, f.served, length-drop n bs);
      },
    )
flush_loop-Flushes m (b ∷ bs) w (Write.no_buffers ∷ rest) c h =
    flush_loop-Flushes m (b ∷ bs) w rest c h
flush_loop-Flushes m (b ∷ bs) w (Write.blocked input ready ∷ rest) c h =
    let v = Write.repack input w in
    let d : IsCalm m v.instance_ = record { few = c.few; below = c.below } in
    unblock_either (λ r. Flushed r w (turns rest) (b ∷ bs)) (Write.repacked input w)
      (Write.nothing_to_purge m w.instance_) _ _ rest (Write.waiting w)
      (IsCalm-nothing m w.instance_ c)
      (Flushed-same v w refl refl (flush_loop-Flushes m (b ∷ bs) v rest d h))
      (Flushed-same (Write.waiting v) w refl refl
        (flush_loop-Flushes m (b ∷ bs) (Write.waiting v) rest d h))
flush_loop-Flushes m (b ∷ bs) w (Write.blocked input answer ∷ rest) c h = absurd (omega arith)
flush_loop-Flushes m (b ∷ bs) w (Write.lost ∷ rest) c h = absurd (omega arith)
flush_loop-Flushes m (b ∷ bs) w (Write.failed rc ∷ rest) c h = absurd (omega arith)

pub Writes-trans :
    {u v w : Write.Writer} {xs ys : List ℕ} → Writes u v xs → Writes v w ys → Writes u w (xs ++ ys)
Writes-trans {u} {v} {w} {xs} {ys} a b = record {
  order = b.order ∙ ap (λ t. t ++ ys) a.order ∙ append_assoc (u.sent ++ u.instance_.pending) xs ys;
  responses = b.responses ∙ a.responses;
  served = omega (arith, a.served, b.served, length-append xs ys);
}

-- All is written, and what is left in the buffer is as `Left` says.
abbrev pub Wrote : Write.Writing → (Write.Writer → Type 0) → Write.Writer → List ℕ → Type 0
Wrote r Left w bytes = (v : Write.Writer) × (r ≡ some (true, v)) × Writes w v bytes × Left v

abbrev pub HasRoom : Write.Writer → Type 0
HasRoom w = length w.instance_.pending < Write.max_buffer

abbrev pub IsEmpty : Write.Writer → Type 0
IsEmpty w = w.instance_.pending ≡ []

pub and_then-Wrote :
    (r : Write.Writing) (next : Write.Writer → Write.Writing) (L M : Write.Writer → Type 0)
    (w : Write.Writer) (xs ys : List ℕ)
    → Wrote r L w xs
    → ((v : Write.Writer) → Writes w v xs → L v → Wrote (next v) M v ys)
    → Wrote (Write.and_then r next) M w (xs ++ ys)
unfolding Write.and_then
and_then-Wrote r next L M w xs ys (u, e, a, p) then_ =
    let (v, e', b, q) = then_ u a p in
    (v, ap (λ t. Write.and_then t next) e ∙ e', Writes-trans a b, q)

-- The calls of `send` are good for all that is buffered and `bytes` more.
pub record CanWrite (m : Write.Watermarks) (w : Write.Writer) (bytes : List ℕ) : Type 0 where
  pub calm : IsCalm m w.instance_
  pub capacity : length w.instance_.pending + length bytes ≤ turns w.sends

pub CanWrite-rest :
    (m : Write.Watermarks) (w v : Write.Writer) (xs ys : List ℕ)
    → Writes w v xs
    → CanWrite m w (xs ++ ys)
    → CanWrite m v ys
CanWrite-rest m w v xs ys a c = record {
  calm = record {
    few = subst (λ n. n < 2) (sym a.responses) c.calm.few;
    below = subst (λ n. n < m.io_msg_watermark) (sym a.responses) c.calm.below;
  };
  capacity = omega (arith, a.served, c.capacity, length-append xs ys);
}

pub io_flush-Wrote :
    (m : Write.Watermarks) (w : Write.Writer)
    → CanWrite m w []
    → Wrote (Write.io_flush m w) IsEmpty w []
unfolding Write.io_flush
io_flush-Wrote m w c =
    let (v, e, f) =
      flush_loop-Flushes m w.instance_.pending w w.sends c.calm (omega (arith, c.capacity)) in
    (
      v,
      ap (λ b. if b then Write.flush_loop m w.instance_.pending w w.sends else none)
            (IsCalm-nothing m w.instance_ c.calm)
          ∙ e,
      record {
        order =
            ap₂ ◌++◌ f.order f.empty
            ∙ append-nil (w.sent ++ w.instance_.pending)
            ∙ sym (append-nil _);
        responses = f.responses;
        served = omega (arith, f.served, ap length f.empty);
      },
      f.empty,
    )

pub Writes-refl : (w : Write.Writer) → Writes w w []
Writes-refl w = record { order = sym (append-nil _); responses = refl; served = omega arith }

pub flush_if_full-Wrote :
    (m : Write.Watermarks) (w : Write.Writer) (full : Bool)
    → (length w.instance_.pending == Write.max_buffer) ≡ full
    → CanWrite m w []
    → length w.instance_.pending ≤ Write.max_buffer
    → Wrote (Write.flush_if_full m w) HasRoom w []
unfolding Write.flush_if_full
flush_if_full-Wrote m w true e c h =
    let (v, e', a, p) = io_flush-Wrote m w c in
    (
      v,
      ap (λ b. if b then Write.io_flush m w else some (true, w)) e ∙ e',
      a,
      omega (arith, ap length p),
    )
flush_if_full-Wrote m w false e c h =
    (w, ap (λ b. if b then Write.io_flush m w else some (true, w)) e, Writes-refl w, ground arith)
