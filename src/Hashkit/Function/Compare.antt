-- ===== src/Hashkit/Function/Compare.antt =====
-- libhashkit/hashkit.cc: `hashkit_clone` and `hashkit_compare`.
use mathlib.Core.Option.{some-injective, none-ne-some}
use libmemcached.Prelude.{
  ap₂, ℕ, ◌+◌, ◌≡◌, ◌↔◌, refl, sym, ap, ◌∙◌, Bool, true, false, ◌&&◌, ◌==◌, ==_iff, Option, none,
  some, arith,
}
use libmemcached.Hashkit.Function.{
  HashFunction, to_one_at_a_time, to_md5, to_crc32, to_fnv1_64, to_fnv1a_64, to_fnv1_32,
  to_fnv1a_32, to_hsieh, to_murmur, to_murmur3, to_jenkins, to_custom, Slot, Hashkit,
  hashkit_create,
}

-- The address that stands for a function.
abbrev pub function_address : HashFunction → ℕ
function_address to_one_at_a_time = 0
function_address to_md5 = 1
function_address to_crc32 = 2
function_address to_fnv1_64 = 3
function_address to_fnv1a_64 = 4
function_address to_fnv1_32 = 5
function_address to_fnv1a_32 = 6
function_address to_hsieh = 7
function_address to_murmur = 8
function_address to_murmur3 = 9
function_address to_jenkins = 10
function_address (to_custom f) = 11 + f

abbrev pub same_pointer : Option ℕ → Option ℕ → Bool
same_pointer none none = true
same_pointer (some a) (some b) = a == b
same_pointer none (some b) = false
same_pointer (some a) none = false

abbrev pub same_bit : Bool → Bool → Bool
same_bit true b = b
same_bit false true = false
same_bit false false = true

abbrev pub same_slot : Slot → Slot → Bool
same_slot a b =
    (function_address a.function == function_address b.function) && same_pointer a.context b.context

-- `hashkit_compare`; `none` is NULL.
unfoldable pub hashkit_compare : Option Hashkit → Option Hashkit → Bool
hashkit_compare none second = false
hashkit_compare (some first) none = false
hashkit_compare (some first) (some second) =
    same_slot first.base_hash second.base_hash
    && (same_slot first.distribution_hash second.distribution_hash
        && same_bit first.is_base_same_distributed second.is_base_same_distributed)

-- `hashkit_clone`, when memory can be had.
unfoldable pub hashkit_clone : Option Hashkit → Hashkit
hashkit_clone none = hashkit_create
hashkit_clone (some source) = record {
  base_hash = source.base_hash;
  distribution_hash = source.distribution_hash;
  is_base_same_distributed = source.is_base_same_distributed;
}

address_injective : (f g : HashFunction) → function_address f ≡ function_address g → f ≡ g
address_injective (to_custom a) (to_custom b) e = ap to_custom (omega (arith, e))
address_injective f g e = ground (arith, e)

pointer_iff : (a b : Option ℕ) → (same_pointer a b ≡ true) ↔ (a ≡ b)
pointer_iff none none = (λ e. refl, λ e. refl)
pointer_iff (some a) (some b) =
    (λ e. ap some ((==_iff a b).0 e), λ e. (==_iff a b).1 (some-injective a b e))
pointer_iff none (some b) = (λ e. ground (arith, e), λ e. absurd (none-ne-some b e))
pointer_iff (some a) none = (λ e. ground (arith, e), λ e. absurd (none-ne-some a (sym e)))

bit_iff : (a b : Bool) → (same_bit a b ≡ true) ↔ (a ≡ b)
bit_iff true b = (λ e. sym e, λ e. sym e)
bit_iff false true = (λ e. ground (arith, e), λ e. ground (arith, e))
bit_iff false false = (λ e. refl, λ e. refl)

both_iff : (a b : Bool) → (a && b) ≡ true → (a ≡ true) × (b ≡ true)
both_iff true b e = (refl, e)
both_iff false b e = absurd (ground (arith, e))

both : (a b : Bool) → a ≡ true → b ≡ true → (a && b) ≡ true
both a b e f = ground (arith, e, f)

slot_iff : (a b : Slot) → (same_slot a b ≡ true) ↔ (a ≡ b)
slot_iff a b = (
  λ e.
      let parts =
        both_iff (function_address a.function == function_address b.function)
          (same_pointer a.context b.context) e in
      let f =
        address_injective a.function b.function
          ((==_iff (function_address a.function) (function_address b.function)).0 parts.0) in
      let c = (pointer_iff a.context b.context).0 parts.1 in
      ap₂ (λ (f : HashFunction) (c : Option ℕ). record a { function = f; context = c }) f c,
  λ e.
      both (function_address a.function == function_address b.function)
        (same_pointer a.context b.context)
        ((==_iff (function_address a.function) (function_address b.function)).1
          (ap (λ (s : Slot). function_address s.function) e))
        ((pointer_iff a.context b.context).1 (ap (λ (s : Slot). s.context) e)),
)

-- `hashkit_compare` of two hash kits tells whether they have the same functions, contexts and flag.
hashkit_compare_iff :
    (first second : Hashkit)
    → (hashkit_compare (some first) (some second) ≡ true) ↔ (first ≡ second)
unfolding hashkit_compare
hashkit_compare_iff first second = (
  λ e.
      let outer =
        both_iff (same_slot first.base_hash second.base_hash)
          (same_slot first.distribution_hash second.distribution_hash
            && same_bit first.is_base_same_distributed second.is_base_same_distributed)
          e in
      let inner =
        both_iff (same_slot first.distribution_hash second.distribution_hash)
          (same_bit first.is_base_same_distributed second.is_base_same_distributed) outer.1 in
      let b = (slot_iff first.base_hash second.base_hash).0 outer.0 in
      let d = (slot_iff first.distribution_hash second.distribution_hash).0 inner.0 in
      let s = (bit_iff first.is_base_same_distributed second.is_base_same_distributed).0 inner.1 in
      ap₂ (λ (b d : Slot). record first { base_hash = b; distribution_hash = d }) b d
      ∙ ap (λ (s : Bool). record second { is_base_same_distributed = s }) s,
  λ e.
      both (same_slot first.base_hash second.base_hash)
        (same_slot first.distribution_hash second.distribution_hash
          && same_bit first.is_base_same_distributed second.is_base_same_distributed)
        ((slot_iff first.base_hash second.base_hash).1 (ap (λ (h : Hashkit). h.base_hash) e))
        (both (same_slot first.distribution_hash second.distribution_hash)
          (same_bit first.is_base_same_distributed second.is_base_same_distributed)
          ((slot_iff first.distribution_hash second.distribution_hash).1
            (ap (λ (h : Hashkit). h.distribution_hash) e))
          ((bit_iff first.is_base_same_distributed second.is_base_same_distributed).1
            (ap (λ (h : Hashkit). h.is_base_same_distributed) e))),
)
