-- ===== src/Distribution/Search.antt =====
-- libmemcached/hash.cc: the binary search of `dispatch_host` finds the lower bound.
use libmemcached.Prelude.{
  ℕ, zero, suc, ◌+◌, ◌-◌, ◌/◌, ◌≤◌, ◌<◌, List, Bool-cases, inl, inr, arith, get_or, ltb, ltb→lt,
  ltb→le,
}
use libmemcached.Distribution.State.{Point}
use libmemcached.Distribution.Continuum.{blank}
use libmemcached.Distribution.Dispatch.{search}

abbrev pub value_at : List Point → ℕ → ℕ
value_at points i = (get_or points i blank).value

-- The first `n` values do not fall.
abbrev pub Ascending : List Point → ℕ → Type 0
Ascending points n = (i j : ℕ) → i ≤ j → j < n → value_at points i ≤ value_at points j

-- `r` splits the first `n` points: smaller values before it, and from it on no smaller one.
pub record IsLowerBound (points : List Point) (n hash r : ℕ) : Type 0 where
  pub within : r ≤ n
  pub before : (i : ℕ) → i < r → value_at points i < hash
  pub after : (i : ℕ) → r ≤ i → i < n → hash ≤ value_at points i

module _ (points : List Point) (n hash : ℕ) (ascending : Ascending points n) where
  search_from :
      (fuel left right : ℕ)
      → left ≤ right
      → right ≤ n
      → right - left ≤ fuel
      → ((i : ℕ) → i < left → value_at points i < hash)
      → ((i : ℕ) → right ≤ i → i < n → hash ≤ value_at points i)
      → IsLowerBound points n hash (search fuel points hash left right)
  unfolding search
  search_from zero left right le bound enough before after = record {
    within = bound;
    before = λ i h. before i (omega arith);
    after = after;
  }
  search_from (suc fuel) left right le bound enough before after =
      elim (Bool-cases (ltb left right)) [
        | inr stop ↦
            let done = ltb→le left right stop in
            rw (stop, search)
              (record { within = bound; before = λ i h. before i (omega arith); after = after })
        | inl go ↦
            let open_range = ltb→lt left right go in
            let middle = left + (right - left) / 2 in
            elim (Bool-cases (ltb (value_at points middle) hash)) [
              | inl small ↦
                  let less = ltb→lt (value_at points middle) hash small in
                  rw (go, small, search)
                    (search_from fuel (middle + 1) right (omega arith) bound (omega arith)
                      (λ i h. omega (arith, ascending i middle (omega arith) (omega arith))) after)
              | inr large ↦
                  let above = ltb→le (value_at points middle) hash large in
                  rw (go, large, search)
                    (search_from fuel left middle (omega arith) (omega arith) (omega arith) before
                      (λ i h k. omega (arith, ascending middle i h k)))
            ]
      ]

  -- On values that do not fall, the search of `n` points ends at their lower bound.
  pub search-IsLowerBound : IsLowerBound points n hash (search (suc n) points hash 0 n)
  search-IsLowerBound =
      search_from (suc n) 0 n (omega arith) (omega arith) (omega arith)
        (λ i h. absurd (omega arith)) (λ i h k. absurd (omega arith))
