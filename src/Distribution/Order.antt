-- ===== src/Distribution/Order.antt =====
-- libmemcached/hosts.cc: the order of `continuum_item_cmp`, and what sorting by it does.
use libmemcached.Prelude.{
  All-get_or, sym, subst, ◌∙◌, ℕ, zero, suc, ◌≤◌, ◌<◌, ◌≡◌, refl, ap, ◌⊎◌, inl, inr, List, [], ◌∷◌,
  arith, length, get_or, All,
}
use libmemcached.Distribution.State.{Point}
use libmemcached.Distribution.Sort.{continuum_item_cmp, insert, qsort}
use libmemcached.Distribution.Continuum.{blank}

-- By value, then by index.
infix 50 ◌≼◌
abbrev pub ◌≼◌ : Point → Point → Type 0
p ≼ q = (p.value < q.value) ⊎ ((p.value ≡ q.value) × (p.index ≤ q.index))

pub ≼_refl : (p : Point) → p ≼ p
≼_refl p = ground arith

pub ≼_trans : {p q r : Point} → p ≼ q → q ≼ r → p ≼ r
≼_trans h k = ground arith

pub ≼_antisymm : {p q : Point} → p ≼ q → q ≼ p → p ≡ q
≼_antisymm h k = ground arith

-- How `insert` goes at a point: on past it, or in front of it.
insert_cases :
    (x p : Point) (ps : List Point)
    → ((insert continuum_item_cmp x (p ∷ ps) ≡ p ∷ insert continuum_item_cmp x ps) × (p ≼ x))
      ⊎ ((insert continuum_item_cmp x (p ∷ ps) ≡ x ∷ p ∷ ps) × (x ≼ p))
unfolding insert continuum_item_cmp
insert_cases x p ps = ground arith

-- Every point is at most every later one.
abbrev pub Sorted : List Point → Type 0
Sorted [] = Unit
Sorted (p ∷ ps) = All (λ q. p ≼ q) ps × Sorted ps

module _ {ℓ} (P : Point → Type ℓ) where
  All-insert :
      (x : Point) (ps : List Point) → P x → All P ps → All P (insert continuum_item_cmp x ps)
  unfolding insert
  All-insert x [] h k = (h, tt)
  All-insert x (p ∷ ps) h k = elim (insert_cases x p ps) [
    | inl (e, le) ↦ subst (All P) (sym e) (k.0, All-insert x ps h k.1)
    | inr (e, le) ↦ subst (All P) (sym e) (h, k)
  ]

  pub All-qsort : (ps : List Point) → All P ps → All P (qsort continuum_item_cmp ps)
  unfolding qsort
  All-qsort [] h = tt
  All-qsort (p ∷ ps) h = All-insert p _ h.0 (All-qsort ps h.1)

  All-of_insert :
      (x : Point) (ps : List Point) → All P (insert continuum_item_cmp x ps) → P x × All P ps
  unfolding insert
  All-of_insert x [] h = h
  All-of_insert x (p ∷ ps) h = elim (insert_cases x p ps) [
    | inl (e, le) ↦
        let h' = subst (All P) e h in let rest = All-of_insert x ps h'.1 in (rest.0, (h'.0, rest.1))
    | inr (e, le) ↦ subst (All P) e h
  ]

  pub All-of_qsort : (ps : List Point) → All P (qsort continuum_item_cmp ps) → All P ps
  unfolding qsort
  All-of_qsort [] h = tt
  All-of_qsort (p ∷ ps) h =
      let parts = All-of_insert p (qsort continuum_item_cmp ps) h in
      (parts.0, All-of_qsort ps parts.1)

length-insert :
    (x : Point) (ps : List Point) → length (insert continuum_item_cmp x ps) ≡ suc (length ps)
unfolding insert
length-insert x [] = refl
length-insert x (p ∷ ps) = elim (insert_cases x p ps) [
  | inl (e, le) ↦ ap length e ∙ ap suc (length-insert x ps)
  | inr (e, le) ↦ ap length e
]

pub length-qsort : (ps : List Point) → length (qsort continuum_item_cmp ps) ≡ length ps
unfolding qsort
length-qsort [] = refl
length-qsort (p ∷ ps) =
    omega (arith, length-insert p (qsort continuum_item_cmp ps), length-qsort ps)

weaken : {p q : Point} (ps : List Point) → p ≼ q → All (λ r. q ≼ r) ps → All (λ r. p ≼ r) ps
weaken [] h k = tt
weaken {p} {q} (r ∷ ps) h k =
    (≼_trans {p = p} {q = q} {r = r} h k.0, weaken {p = p} {q = q} ps h k.1)

insert-Sorted : (x : Point) (ps : List Point) → Sorted ps → Sorted (insert continuum_item_cmp x ps)
unfolding insert
insert-Sorted x [] h = (tt, tt)
insert-Sorted x (p ∷ ps) h = elim (insert_cases x p ps) [
  | inl (e, le) ↦ subst Sorted (sym e) (All-insert (λ q. p ≼ q) x ps le h.0, insert-Sorted x ps h.1)
  | inr (e, le) ↦ subst Sorted (sym e) ((le, weaken {p = x} {q = p} ps le h.0), h)
]

pub qsort-Sorted : (ps : List Point) → Sorted (qsort continuum_item_cmp ps)
unfolding qsort
qsort-Sorted [] = tt
qsort-Sorted (p ∷ ps) = insert-Sorted p _ (qsort-Sorted ps)

-- In a sorted list the points rise with their places.
pub Sorted-get_or :
    (ps : List Point) (i j : ℕ)
    → Sorted ps
    → i ≤ j
    → j < length ps
    → get_or ps i blank ≼ get_or ps j blank
Sorted-get_or [] i j h le lt = absurd (omega arith)
Sorted-get_or (p ∷ ps) zero zero h le lt = ≼_refl p
Sorted-get_or (p ∷ ps) zero (suc j) h le lt = All-get_or (λ q. p ≼ q) ps j blank (omega arith) h.0
Sorted-get_or (p ∷ ps) (suc i) zero h le lt = absurd (omega arith)
Sorted-get_or (p ∷ ps) (suc i) (suc j) h le lt =
    Sorted-get_or ps i j h.1 (omega arith) (omega arith)

-- What holds at every place holds of all.
pub All-of_get_or {ℓ} :
    (P : Point → Type ℓ) (ps : List Point)
    → ((i : ℕ) → i < length ps → P (get_or ps i blank))
    → All P ps
All-of_get_or P [] h = tt
All-of_get_or P (p ∷ ps) h =
    (h 0 (omega arith), All-of_get_or P ps (λ i lt. h (suc i) (omega arith)))
