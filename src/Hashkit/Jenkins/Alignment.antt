-- ===== src/Hashkit/Jenkins/Alignment.antt =====
-- libhashkit/jenkins.cc: the three ways to read the key agree.
use Prim.Native.Nat.{bit_and}
use libmemcached.Prelude.{
  ℕ, ◌%◌, ◌≡◌, refl, sym, ◌∙◌, inl, inr, Bool-cases, ◌==◌, List, [], ◌∷◌, take, drop, IsByte, Bytes,
  All-take, All-drop, arith,
}
use libmemcached.Prelude.Bits.{bit_and-mask}
use libmemcached.Hashkit.Jenkins.{
  Mix, Reader, read_word, lane32, lane16, lane8, reader32, reader16, reader8, last_block,
  jenkins_loop, reader_at, jenkins,
}

-- Two readers that agree on bytes.
record Agree (r r' : Reader) : Type 0 where
  block :
      (x b0 b1 b2 b3 : ℕ)
      → IsByte b0
      → IsByte b1
      → IsByte b2
      → IsByte b3
      → r.block x b0 b1 b2 b3 ≡ r'.block x b0 b1 b2 b3
  lane : (x : ℕ) (bs : List ℕ) → Bytes bs → r.lane x bs ≡ r'.lane x bs

masks :
    (x : ℕ)
    → (bit_and x 0xff ≡ x % 256)
      × (bit_and x 0xffff ≡ x % 65536)
      × (bit_and x 0xffffff ≡ x % 16777216)
masks x = (bit_and-mask 8 x, bit_and-mask 16 x, bit_and-mask 24 x)

lane32-eq-lane8 :
    (beyond : List ℕ) (x : ℕ) (bs : List ℕ) → Bytes bs → lane32 beyond x bs ≡ lane8 x bs
unfolding lane32 lane8 read_word
lane32-eq-lane8 beyond x [] h = refl
lane32-eq-lane8 beyond x (b0 ∷ []) h = omega (arith, (masks (read_word (take 4 (b0 ∷ beyond)))).0)
lane32-eq-lane8 beyond x (b0 ∷ b1 ∷ []) h =
    omega (arith, (masks (read_word (take 4 (b0 ∷ b1 ∷ beyond)))).1)
lane32-eq-lane8 beyond x (b0 ∷ b1 ∷ b2 ∷ []) h =
    omega (arith, (masks (read_word (take 4 (b0 ∷ b1 ∷ b2 ∷ beyond)))).2)
lane32-eq-lane8 beyond x (b0 ∷ b1 ∷ b2 ∷ b3 ∷ rest) h = omega arith

lane16-eq-lane8 : (x : ℕ) (bs : List ℕ) → Bytes bs → lane16 x bs ≡ lane8 x bs
unfolding lane16 lane8
lane16-eq-lane8 x [] h = refl
lane16-eq-lane8 x (b0 ∷ []) h = refl
lane16-eq-lane8 x (b0 ∷ b1 ∷ []) h = omega arith
lane16-eq-lane8 x (b0 ∷ b1 ∷ b2 ∷ []) h = omega arith
lane16-eq-lane8 x (b0 ∷ b1 ∷ b2 ∷ b3 ∷ rest) h = omega arith

reader32-Agree : (beyond : List ℕ) → Agree (reader32 beyond) reader8
reader32-Agree beyond = record {
  block = λ x b0 b1 b2 b3 h0 h1 h2 h3. omega arith;
  lane = lane32-eq-lane8 beyond;
}

reader16-Agree : Agree reader16 reader8
reader16-Agree = record { block = λ x b0 b1 b2 b3 h0 h1 h2 h3. omega arith; lane = lane16-eq-lane8 }

reader8-Agree : Agree reader8 reader8
reader8-Agree = record { block = λ x b0 b1 b2 b3 h0 h1 h2 h3. refl; lane = λ x bs h. refl }

module _ {r r' : Reader} (agree : Agree r r') where
  last_block-eq : (s : Mix) (bs : List ℕ) → Bytes bs → last_block r s bs ≡ last_block r' s bs
  unfolding last_block
  last_block-eq s [] h = refl
  last_block-eq s (b ∷ bs) h = rw (
    agree.lane s.a (take 4 (b ∷ bs)) (All-take IsByte 4 (b ∷ bs) h),
    agree.lane s.b (take 4 (drop 4 (b ∷ bs))) (All-take IsByte 4 _ (All-drop IsByte 4 (b ∷ bs) h)),
    agree.lane s.c (take 4 (drop 8 (b ∷ bs))) (All-take IsByte 4 _ (All-drop IsByte 8 (b ∷ bs) h)),
  )

  jenkins_loop-eq : (bs : List ℕ) (s : Mix) → Bytes bs → jenkins_loop r s bs ≡ jenkins_loop r' s bs
  unfolding jenkins_loop
  jenkins_loop-eq (b0 ∷ b1 ∷ b2 ∷ b3 ∷ b4 ∷ b5 ∷ b6 ∷ b7 ∷ b8 ∷ b9 ∷ b10 ∷ b11 ∷ b12 ∷ rest) s h =
      let h4 = h.1.1.1.1 in
      let h8 = h4.1.1.1.1 in
      rw
        (
          agree.block s.a b0 b1 b2 b3 h.0 h.1.0 h.1.1.0 h.1.1.1.0,
          agree.block s.b b4 b5 b6 b7 h4.0 h4.1.0 h4.1.1.0 h4.1.1.1.0,
          agree.block s.c b8 b9 b10 b11 h8.0 h8.1.0 h8.1.1.0 h8.1.1.1.0,
        )
        (jenkins_loop-eq (b12 ∷ rest) _ h8.1.1.1.1)
  jenkins_loop-eq rest s h = last_block-eq s rest h

reader_at-eq :
    (address : ℕ) (beyond : List ℕ) (bs : List ℕ) (s : Mix)
    → Bytes bs
    → jenkins_loop (reader_at address beyond) s bs ≡ jenkins_loop reader8 s bs
reader_at-eq address beyond bs s h = elim (Bool-cases (address % 4 == 0)) [
  | inl e ↦ rw e (jenkins_loop-eq (reader32-Agree beyond) bs s h)
  | inr e ↦ rw e (elim (Bool-cases (address % 2 == 0)) [
    | inl e2 ↦ rw e2 (jenkins_loop-eq reader16-Agree bs s h)
    | inr e2 ↦ rw e2
  ])
]

-- The Jenkins hash of a key of bytes depends neither on the address of the key nor on the memory
-- behind it.
pub jenkins-address :
    (address address' : ℕ) (beyond beyond' key : List ℕ)
    → Bytes key
    → jenkins address beyond key ≡ jenkins address' beyond' key
unfolding jenkins
jenkins-address address address' beyond beyond' key h =
    reader_at-eq address beyond key _ h ∙ sym (reader_at-eq address' beyond' key _ h)
