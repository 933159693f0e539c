-- ===== src/Distribution/Sort.antt =====
-- `qsort` with the comparison functions of libmemcached/hosts.cc. C leaves the order of equal items
-- open; points that compare equal are equal, so for them the result is the only one there is. Hosts
-- that compare equal keep their order here.
use Prim.Native.Nat.{compare, Ordering}
use libmemcached.Prelude.{ℕ, List, [], ◌∷◌}
use libmemcached.Distribution.State.{Point, Server}

-- `continuum_item_cmp`: by value, then by index.
unfoldable pub continuum_item_cmp : Point → Point → Ordering
continuum_item_cmp p q = elim (compare p.value q.value) [
  | Ordering.eq ↦ compare p.index q.index
  | Ordering.lt ↦ Ordering.lt
  | Ordering.gt ↦ Ordering.gt
]

-- `strcmp`, of bytes without a zero.
unfoldable pub strcmp : List ℕ → List ℕ → Ordering
strcmp [] [] = Ordering.eq
strcmp [] (y ∷ ys) = Ordering.lt
strcmp (x ∷ xs) [] = Ordering.gt
strcmp (x ∷ xs) (y ∷ ys) =
    let rest = strcmp xs ys in
    elim (compare x y) [
      | Ordering.eq ↦ rest
      | Ordering.lt ↦ Ordering.lt
      | Ordering.gt ↦ Ordering.gt
    ]

-- `compare_servers`: by host name, then by port.
unfoldable pub compare_servers : Server → Server → Ordering
unfolding strcmp
compare_servers a b = elim (strcmp a.hostname b.hostname) [
  | Ordering.eq ↦ compare a.port b.port
  | Ordering.lt ↦ Ordering.lt
  | Ordering.gt ↦ Ordering.gt
]

module _ {ℓ} {A : Type ℓ} (cmp : A → A → Ordering) where
  unfoldable pub insert : A → List A → List A
  insert x [] = x ∷ []
  insert x (y ∷ ys) =
      let rest = insert x ys in elim (cmp x y) [ Ordering.gt ↦ y ∷ rest | _ ↦ x ∷ y ∷ ys ]

  unfoldable pub qsort : List A → List A
  unfolding insert
  qsort [] = []
  qsort (x ∷ xs) = insert x (qsort xs)
