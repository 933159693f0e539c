-- ===== src/Io/Stream/Round.antt =====
-- libmemcached/io.cc: one round of the loop of `memcached_io_readline`.
use libmemcached.Prelude.{
  ℕ, suc, ◌+◌, ◌≤◌, ◌<◌, ◌≡◌, ◌≢◌, refl, sym, ap, ap₂, subst, ◌∙◌, Bool, true, false, List, [], ◌∷◌,
  ◌++◌, some, append-nil, append_assoc, take, drop, length, All, arith, length-append,
}
use libmemcached.Return.{success}
use libmemcached.Io.{Instance}
use libmemcached.Io.Read.{copy_line, first_byte, rest_of_round}
use libmemcached.Io.Stream.{stream, coming, io_read-Reads}

abbrev pub line_feed : ℕ
line_feed = 10

abbrev pub IsPlain : ℕ → Type 0
IsPlain b = b ≢ line_feed

-- What the inner loop makes of the bytes `bs`, when `l`, a line feed and `rest` are to come, the
-- last of them as `s` behind `bs`.
pub data Copied (got bs s l rest : List ℕ) : List ℕ × (Bool × List ℕ) → Type 0 where
  complete :
      (left : List ℕ)
      → left ++ s ≡ rest
      → Copied got bs s l rest (got ++ (l ++ line_feed ∷ []), (true, left))
  partly :
      (l1 l2 : List ℕ)
      → l1 ++ l2 ≡ l
      → s ≡ l2 ++ line_feed ∷ rest
      → length l1 ≡ length bs
      → Copied got bs s l rest (got ++ l1, (false, []))

∷-parts : {b x : ℕ} {bs xs : List ℕ} → b ∷ bs ≡ x ∷ xs → (b ≡ x) × (bs ≡ xs)
∷-parts e = (cc, cc)

copy_last :
    (size : ℕ) (got bs : List ℕ) (b : ℕ)
    → b ≡ line_feed
    → length got < size
    → copy_line size got (b ∷ bs) ≡ (got ++ line_feed ∷ [], (true, bs))
unfolding copy_line
copy_last size got bs b e h = ground arith

copy_one :
    (size : ℕ) (got bs : List ℕ) (b : ℕ)
    → b ≢ line_feed
    → length got < size
    → copy_line size got (b ∷ bs) ≡ copy_line size (got ++ b ∷ []) bs
unfolding copy_line
copy_one size got bs b e h = ground arith

Copied-step :
    (got bs s l rest : List ℕ) (b x : ℕ) {r : List ℕ × (Bool × List ℕ)}
    → b ≡ x
    → Copied (got ++ b ∷ []) bs s l rest r
    → Copied got (b ∷ bs) s (x ∷ l) rest r
Copied-step got bs s l rest b x e (complete left q) =
    subst (λ line. Copied got (b ∷ bs) s (x ∷ l) rest (line, (true, left)))
      (ap (λ y. got ++ y ∷ (l ++ line_feed ∷ [])) (sym e) ∙ sym (append_assoc got (b ∷ []) _))
      (complete left q)
Copied-step got bs s l rest b x e (partly l1 l2 q r n) =
    subst (λ line. Copied got (b ∷ bs) s (x ∷ l) rest (line, (false, [])))
      (sym (append_assoc got (b ∷ []) l1)) (partly (b ∷ l1) l2 (ap₂ ◌∷◌ e q) r (ap suc n))

copy_line-Copied :
    (size : ℕ) (got bs s l rest : List ℕ)
    → bs ++ s ≡ l ++ line_feed ∷ rest
    → All IsPlain l
    → length got + length l < size
    → Copied got bs s l rest (copy_line size got bs)
unfolding copy_line
copy_line-Copied size got [] s l rest e p h =
    subst (λ g. Copied got [] s l rest (g, (false, []))) (append-nil got) (partly [] l refl e refl)
copy_line-Copied size got (b ∷ bs) s [] rest e p h =
    let same = ∷-parts e in
    subst (Copied got (b ∷ bs) s [] rest) (sym (copy_last size got bs b same.0 (omega arith)))
      (complete bs same.1)
copy_line-Copied size got (b ∷ bs) s (x ∷ l) rest e p h =
    let same = ∷-parts e in
    subst (Copied got (b ∷ bs) s (x ∷ l) rest)
      (sym (copy_one size got bs b (λ f. p.0 (sym same.0 ∙ f)) (omega arith)))
      (Copied-step got bs s l rest b x same.0 (
        copy_line-Copied size (got ++ b ∷ []) bs s l rest same.1 p.1
          (omega (arith, length-append got (b ∷ [])))))

-- The first half of a round and what the whole round copies, at least one byte.
pub record Round (size : ℕ) (got l rest : List ℕ) (i : Instance) : Type 0 where
  pub one : List ℕ
  pub over : Instance
  pub bs : List ℕ
  pub first : first_byte i.readable i ≡ some (success, one, over)
  pub copied : Copied got bs (stream over.arrivals) l rest (rest_of_round size got one over)
  pub progress : 0 < length bs
  pub socket : over.has_socket ≡ i.has_socket
  pub responses : over.cursor_active ≡ i.cursor_active

rest_of_round-last :
    (size : ℕ) (got : List ℕ) (x : ℕ) (j : Instance)
    → x ≡ line_feed
    → rest_of_round size got (x ∷ []) j ≡ (got ++ line_feed ∷ [], (true, j.readable))
unfolding rest_of_round
rest_of_round-last size got x j e = ground arith

rest_of_round-one :
    (size : ℕ) (got : List ℕ) (x : ℕ) (j : Instance)
    → x ≢ line_feed
    → rest_of_round size got (x ∷ []) j ≡ copy_line size (got ++ x ∷ []) j.readable
unfolding rest_of_round
rest_of_round-one size got x j e = ground arith

rest_of_round-Copied :
    (size : ℕ) (got l rest : List ℕ) (x : ℕ) (j : Instance)
    → x ∷ coming j ≡ l ++ line_feed ∷ rest
    → All IsPlain l
    → length got + length l < size
    → Copied got (x ∷ j.readable) (stream j.arrivals) l rest (rest_of_round size got (x ∷ []) j)
rest_of_round-Copied size got [] rest x j e p h =
    let same = ∷-parts e in
    subst (Copied got (x ∷ j.readable) (stream j.arrivals) [] rest)
      (sym (rest_of_round-last size got x j same.0)) (complete j.readable same.1)
rest_of_round-Copied size got (y ∷ l) rest x j e p h =
    let same = ∷-parts e in
    subst (Copied got (x ∷ j.readable) (stream j.arrivals) (y ∷ l) rest)
      (sym (rest_of_round-one size got x j (λ f. p.0 (sym same.0 ∙ f))))
      (Copied-step got j.readable (stream j.arrivals) l rest x y same.0 (
        copy_line-Copied size (got ++ x ∷ []) j.readable _ l rest same.1 p.1
          (omega (arith, length-append got (x ∷ [])))))

first_of : (l rest : List ℕ) → (x : ℕ) × ((xs : List ℕ) × (l ++ line_feed ∷ rest ≡ x ∷ xs))
first_of [] rest = (line_feed, (rest, refl))
first_of (x ∷ l) rest = (x, (l ++ line_feed ∷ rest, refl))

pub first_byte-Round :
    (bs : List ℕ) (size : ℕ) (got l rest : List ℕ) (i : Instance)
    → i.readable ≡ bs
    → i.has_socket ≡ true
    → coming i ≡ l ++ line_feed ∷ rest
    → All IsPlain l
    → length got + length l < size
    → Round size got l rest i
unfolding first_byte rest_of_round copy_line
first_byte-Round [] size got l rest i r o e p h =
    let (x, (xs, u)) = first_of l rest in
    let (j, f, leaves) =
      io_read-Reads i 1 o (subst (λ c. 1 ≤ length c) (sym (e ∙ u)) (omega arith)) in
    record {
      one = x ∷ [];
      over = j;
      bs = x ∷ j.readable;
      first = ap (λ c. first_byte c i) r ∙ f ∙ ap (λ c. some (success, take 1 c, j)) (e ∙ u);
      copied =
          rest_of_round-Copied size got l rest x j
            (ap (◌∷◌ x) (leaves.bytes ∙ ap (drop 1) (e ∙ u)) ∙ sym u) p h;
      progress = omega arith;
      socket = leaves.socket;
      responses = leaves.responses;
    }
first_byte-Round (b ∷ bs) size got l rest i r o e p h = record {
  one = [];
  over = i;
  bs = i.readable;
  first = ap (λ xs. first_byte xs i) r;
  copied =
      subst (λ g. Copied got i.readable (stream i.arrivals) l rest (copy_line size g i.readable))
        (sym (append-nil got)) (copy_line-Copied size got i.readable _ l rest e p h);
  progress = subst (λ xs. 0 < length xs) (sym r) (omega arith);
  socket = refl;
  responses = refl;
}
