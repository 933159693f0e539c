-- ===== src/Distribution/Ring.antt =====
-- The abstract ring that the continuum of libmemcached/hosts.cc stands for: points in no order. A
-- hash belongs to the least point at or after it, or to the least point of all when none is.
use libmemcached.Prelude.{
  All-get_or, sym, subst, ℕ, zero, suc, ◌≤◌, ◌<◌, ◌≡◌, refl, ap, ◌⊎◌, inl, inr, List, [], ◌∷◌, ◌++◌,
  arith, length, get_or, get_elem?, some, All, Bool-cases, ltb, ltb→lt, ltb→le, ◌==◌, ==_iff,
}
use libmemcached.Distribution.State.{Point}
use libmemcached.Distribution.Sort.{continuum_item_cmp, qsort}
use libmemcached.Distribution.Continuum.{blank}
use libmemcached.Distribution.Dispatch.{search, successor}
use libmemcached.Distribution.Search.{value_at, Ascending, IsLowerBound, search-IsLowerBound}
use libmemcached.Distribution.Order.{
  ◌≼◌, ≼_antisymm, All-qsort, All-of_qsort, length-qsort, qsort-Sorted, Sorted-get_or,
  All-of_get_or,
}

-- `p` is one of the points.
abbrev pub Has : Point → List Point → Type 0
Has p [] = ⊥
Has p (q ∷ qs) = (p ≡ q) ⊎ Has p qs

pub record IsSuccessor (ps : List Point) (hash : ℕ) (p : Point) : Type 0 where
  pub member : Has p ps
  pub least :
      ((hash ≤ p.value) × All (λ q. hash ≤ q.value → p ≼ q) ps)
      ⊎ (All (λ q. q.value < hash) ps × All (λ q. p ≼ q) ps)

pub All-Has {ℓ} : (P : Point → Type ℓ) (ps : List Point) {p : Point} → All P ps → Has p ps → P p
All-Has P [] h m = absurd m
All-Has P (q ∷ ps) h (inl e) = subst P (sym e) h.0
All-Has P (q ∷ ps) h (inr m) = All-Has P ps h.1 m

All-left {ℓ} : (P : Point → Type ℓ) (ps qs : List Point) → All P (ps ++ qs) → All P ps
All-left P [] qs h = tt
All-left P (p ∷ ps) qs h = (h.0, All-left P ps qs h.1)

pub Has-append : (p : Point) (ps qs : List Point) → Has p (ps ++ qs) → Has p ps ⊎ Has p qs
Has-append p [] qs m = inr m
Has-append p (q ∷ ps) qs (inl e) = inl (inl e)
Has-append p (q ∷ ps) qs (inr m) = elim (Has-append p ps qs m) [
  | inl a ↦ inl (inr a)
  | inr b ↦ inr b
]

pub Has-self : (qs ps : List Point) → ((p : Point) → Has p ps → Has p qs) → All (λ p. Has p qs) ps
Has-self qs [] h = tt
Has-self qs (p ∷ ps) h = (h p (inl refl), Has-self qs ps (λ q m. h q (inr m)))

-- A hash has one successor.
pub IsSuccessor-unique :
    (ps : List Point) (hash : ℕ) {p q : Point}
    → IsSuccessor ps hash p
    → IsSuccessor ps hash q
    → p ≡ q
IsSuccessor-unique ps hash {p} {q} s t = go s.least t.least
  where
    go :
        ((hash ≤ p.value) × All (λ r. hash ≤ r.value → p ≼ r) ps)
          ⊎ (All (λ r. r.value < hash) ps × All (λ r. p ≼ r) ps)
        → ((hash ≤ q.value) × All (λ r. hash ≤ r.value → q ≼ r) ps)
          ⊎ (All (λ r. r.value < hash) ps × All (λ r. q ≼ r) ps)
        → p ≡ q
    go (inl (a, f)) (inl (b, g)) =
        ≼_antisymm (All-Has (λ r. hash ≤ r.value → p ≼ r) ps f t.member b)
          (All-Has (λ r. hash ≤ r.value → q ≼ r) ps g s.member a)
    go (inr (a, f)) (inr (b, g)) =
        ≼_antisymm (All-Has (λ r. p ≼ r) ps f t.member) (All-Has (λ r. q ≼ r) ps g s.member)
    go (inl (a, f)) (inr (b, g)) =
        absurd (omega (arith, All-Has (λ r. r.value < hash) ps b s.member))
    go (inr (a, f)) (inl (b, g)) =
        absurd (omega (arith, All-Has (λ r. r.value < hash) ps a t.member))

-- More points move a hash to one of them, or leave it where it was.
pub IsSuccessor-append :
    (ps qs : List Point) (hash : ℕ) {p : Point}
    → IsSuccessor (ps ++ qs) hash p
    → IsSuccessor ps hash p ⊎ Has p qs
IsSuccessor-append ps qs hash {p} s = elim (Has-append p ps qs s.member) [
  | inr m ↦ inr m
  | inl m ↦ inl (record {
    member = m;
    least = elim (s.least) [
      | inl (a, f) ↦ inl (a, All-left (λ q. hash ≤ q.value → p ≼ q) ps qs f)
      | inr (a, f) ↦ inr (All-left (λ q. q.value < hash) ps qs a, All-left (λ q. p ≼ q) ps qs f)
    ];
  })
]

value_of_le : {p q : Point} → p ≼ q → p.value ≤ q.value
value_of_le h = ground arith

get_or_append :
    (ps qs : List Point) (i : ℕ) (d : Point) → i < length ps → get_or (ps ++ qs) i d ≡ get_or ps i d
get_or_append [] qs i d h = absurd (omega arith)
get_or_append (p ∷ ps) qs zero d h = refl
get_or_append (p ∷ ps) qs (suc i) d h = get_or_append ps qs i d (omega arith)

pub get_elem?-get_or :
    (ps : List Point) (i : ℕ) (d : Point) → i < length ps → get_elem? ps i ≡ some (get_or ps i d)
get_elem?-get_or [] i d h = absurd (omega arith)
get_elem?-get_or (p ∷ ps) zero d h = refl
get_elem?-get_or (p ∷ ps) (suc i) d h = get_elem?-get_or ps i d (omega arith)

module _ (ps junk : List Point) (hash : ℕ) (some_points : 0 < length ps) where
  abbrev sorted : List Point
  sorted = qsort continuum_item_cmp ps

  at : (i : ℕ) → i < length ps → get_or (sorted ++ junk) i blank ≡ get_or sorted i blank
  at i h = get_or_append sorted junk i blank (omega (arith, length-qsort ps))

  rising : (i j : ℕ) → i ≤ j → j < length ps → get_or sorted i blank ≼ get_or sorted j blank
  rising i j le lt = Sorted-get_or sorted i j (qsort-Sorted ps) le (omega (arith, length-qsort ps))

  value-at : (i : ℕ) → i < length ps → value_at (sorted ++ junk) i ≡ value_at sorted i
  value-at i h = ap (λ p. p.value) (at i h)

  ascending : Ascending (sorted ++ junk) (length ps)
  ascending i j le lt = omega (
    arith,
    value-at i (omega arith),
    value-at j lt,
    value_of_le {p = get_or sorted i blank} {q = get_or sorted j blank} (rising i j le lt),
  )

  All-at : (P : Point → Type 0) → ((i : ℕ) → i < length ps → P (get_or sorted i blank)) → All P ps
  All-at P h =
      All-of_qsort P ps (All-of_get_or P sorted (λ i lt. h i (omega (arith, length-qsort ps))))

  chosen :
      (r : ℕ)
      → r < length ps
      → ((hash ≤ value_at sorted r) × ((i : ℕ) → i < r → value_at sorted i < hash))
        ⊎ ((r ≡ 0) × ((i : ℕ) → i < length ps → value_at sorted i < hash))
      → IsSuccessor ps hash (get_or sorted r blank)
  chosen r lt c = record {
    member =
        All-get_or (λ p. Has p ps) sorted r blank (omega (arith, length-qsort ps))
          (All-qsort (λ p. Has p ps) ps (Has-self ps ps (λ p m. m)));
    least = elim c [
      | inl (reach, below) ↦ inl (
        reach,
        All-at (λ q. hash ≤ q.value → get_or sorted r blank ≼ q)
            (λ i h k. elim (Bool-cases (ltb i r)) [
              | inl e ↦ absurd (omega (arith, below i (ltb→lt i r e)))
              | inr e ↦ rising r i (ltb→le i r e) h
            ]),
      )
      | inr (e, below) ↦ inr (
        All-at (λ q. q.value < hash) below,
        All-at (λ q. get_or sorted r blank ≼ q) (λ i h. rising r i (omega arith) h),
      )
    ];
  }

  found :
      (r : ℕ)
      → r < length ps
      → IsSuccessor ps hash (get_or sorted r blank)
      → IsSuccessor ps hash (get_or (sorted ++ junk) r blank)
  found r lt s = subst (IsSuccessor ps hash) (sym (at r lt)) s

  -- For one or more points, sorted, with any others behind them: the search comes out at a cell
  -- among the sorted ones, and it holds the successor of the hash.
  pub successor-IsSuccessor :
      (successor (sorted ++ junk) (length ps) hash < length ps)
      × IsSuccessor ps hash
          (get_or (sorted ++ junk) (successor (sorted ++ junk) (length ps) hash) blank)
  unfolding successor
  successor-IsSuccessor =
      let r = search (suc (length ps)) (sorted ++ junk) hash 0 (length ps) in
      let bound : IsLowerBound (sorted ++ junk) (length ps) hash r =
        search-IsLowerBound (sorted ++ junk) (length ps) hash ascending in
      elim (Bool-cases (r == length ps)) [
        | inl e ↦
            let end : r ≡ length ps = (==_iff r (length ps)).0 e in
            rw e (
              some_points,
              found 0 some_points (
                  chosen 0 some_points
                    (inr (refl, λ i h. omega (arith, value-at i h, bound.before i (omega arith))))),
            )
        | inr e ↦
            let inside : r < length ps = ground (arith, bound.within) in
            rw e (
              inside,
              found r inside (
                  chosen r inside (
                    inl (
                      omega (arith, value-at r inside, bound.after r (omega arith) inside),
                      λ i h. omega (arith, value-at i (omega arith), bound.before i h),
                    ))),
            )
      ]
