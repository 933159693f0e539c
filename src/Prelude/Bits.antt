-- ===== src/Prelude/Bits.antt =====
-- Facts about the operations on binary digits, at every width.
use Prim.Native.Nat.{
  ℕ, zero, suc, ◌+◌, ◌-◌, ◌*◌, ◌/◌, ◌%◌, ◌^◌, ◌≤◌, ◌<◌, min, max, bit_and, bit_or, bit_xor, digits,
  differ, bit_and-bitwise, bit_or-bitwise, bit_xor-bitwise,
}
use native.Mathlib.Nat.{
  le_refl, pow-suc, one-le-pow, mul_comm, mod-lt, mod-one, mod-eq_of_lt, div-add-mod,
  mul-add-mod_self_left,
}
use mathlib.Core.Path.{◌≡◌, refl, ap, ◌∙◌}
use native.Mathlib.Omega.{arith}

-- A bitwise operation whose digit function keeps digits below 2 keeps the width of its operands.
module _ (z : ℕ → ℕ) (f : ℕ → ℕ → ℕ) (z_le : (b : ℕ) → z b ≤ b)
    (f_lt : (x y : ℕ) → x < 2 → y < 2 → f x y < 2) where
  digits-lt : (n k a b : ℕ) → a ≤ n → a < 2 ^ k → b < 2 ^ k → digits z f n a b < 2 ^ k
  digits-lt zero k a b p q r = omega (arith, z_le b)
  digits-lt (suc n) k zero b p q r = omega (arith, z_le b)
  digits-lt (suc n) zero (suc a) b p q r = absurd (omega arith)
  digits-lt (suc n) (suc k) (suc a) b p q r = omega (
    arith,
    pow-suc 2 k,
    f_lt (suc a % 2) (b % 2) (omega arith) (omega arith),
    digits-lt n k (suc a / 2) (b / 2) (omega arith) (omega (arith, pow-suc 2 k))
        (omega (arith, pow-suc 2 k)),
  )

differ-lt : (x y : ℕ) → x < 2 → y < 2 → differ x y < 2
differ-lt zero y h k = k
differ-lt (suc zero) zero h k = omega arith
differ-lt (suc zero) (suc y) h k = omega arith
differ-lt (suc (suc x)) y h k = absurd (omega arith)

pub bit_xor-lt : (k a b : ℕ) → a < 2 ^ k → b < 2 ^ k → bit_xor a b < 2 ^ k
bit_xor-lt k a b p q =
    rw bit_xor-bitwise
      (digits-lt (λ b. b) differ (λ b. le_refl b) differ-lt a k a b (le_refl a) p q)

pub bit_or-lt : (k a b : ℕ) → a < 2 ^ k → b < 2 ^ k → bit_or a b < 2 ^ k
bit_or-lt k a b p q =
    rw bit_or-bitwise
      (digits-lt (λ b. b) max (λ b. le_refl b) (λ x y h j. omega arith) a k a b (le_refl a) p q)

digits-le : (n a b : ℕ) → digits (λ b. zero) min n a b ≤ b
digits-le zero a b = omega arith
digits-le (suc n) zero b = omega arith
digits-le (suc n) (suc a) b = omega (arith, digits-le n (suc a / 2) (b / 2))

-- A masked value is at most the mask.
pub bit_and-le : (a b : ℕ) → bit_and a b ≤ b
bit_and-le a b = rw bit_and-bitwise (digits-le a a b)

plus_suc : (n k : ℕ) → n + suc k ≡ suc (n + k)
plus_suc n k = omega arith

-- Fuel beyond the first operand changes nothing.
module _ (z : ℕ → ℕ) (f : ℕ → ℕ → ℕ) where
  digits-spare : (n x y : ℕ) → x ≤ n → digits z f (suc n) x y ≡ digits z f n x y
  digits-spare zero zero y h = refl
  digits-spare (suc n) zero y h = refl
  digits-spare zero (suc x) y h = absurd (omega arith)
  digits-spare (suc n) (suc x) y h = rw (digits-spare n (suc x / 2) (y / 2) (omega arith))

  digits-surplus : (extra n x y : ℕ) → x ≤ n → digits z f (n + extra) x y ≡ digits z f n x y
  digits-surplus zero n x y h = ap (λ m. digits z f m x y) (omega arith)
  digits-surplus (suc extra) n x y h =
      ap (λ m. digits z f m x y) (plus_suc n extra)
      ∙ digits-spare (n + extra) x y (omega arith)
      ∙ digits-surplus extra n x y h

  -- The recursion below the lowest digit of `x + 1`, on the fuel that its operand asks for.
  digits-half : (x y : ℕ) → digits z f x (suc x / 2) y ≡ digits z f (suc x / 2) (suc x / 2) y
  digits-half x y =
      ap (λ m. digits z f m (suc x / 2) y) (omega arith)
      ∙ digits-surplus (x - suc x / 2) (suc x / 2) (suc x / 2) y (le_refl _)

pub bit_and_step : (x y : ℕ) → bit_and x y ≡ min (x % 2) (y % 2) + 2 * bit_and (x / 2) (y / 2)
bit_and_step zero y = simp bit_and-bitwise (omega arith)
bit_and_step (suc x) y = simp bit_and-bitwise (omega (arith, digits-half (λ d. zero) min x (y / 2)))

pub bit_xor_step : (x y : ℕ) → bit_xor x y ≡ differ (x % 2) (y % 2) + 2 * bit_xor (x / 2) (y / 2)
bit_xor_step zero y = simp bit_xor-bitwise (omega arith)
bit_xor_step (suc x) y = simp bit_xor-bitwise (omega (arith, digits-half (λ d. d) differ x (y / 2)))

pub bit_and-zero_below : (n a : ℕ) → a ≤ n → bit_and a 0 ≡ 0
bit_and-zero_below n zero h = refl
bit_and-zero_below zero (suc a) h = absurd (omega arith)
bit_and-zero_below (suc n) (suc a) h =
    omega (arith, bit_and_step (suc a) 0, bit_and-zero_below n (suc a / 2) (omega arith))

mod-double : (a n : ℕ) → 0 < n → a % (2 * n) ≡ a / 2 % n * 2 + a % 2
mod-double a n h =
    ap (λ t. t % (2 * n)) parts
    ∙ mul-add-mod_self_left (2 * n) (a / 2 / n) _
    ∙ mod-eq_of_lt (omega (arith, mod-lt (a / 2) h))
  where
    parts : a ≡ 2 * n * (a / 2 / n) + (a / 2 % n * 2 + a % 2)
    parts = omega (arith, div-add-mod (a / 2) n)

mod-pow-suc : (a k : ℕ) → a % 2 ^ suc k ≡ a / 2 % 2 ^ k * 2 + a % 2
mod-pow-suc a k =
    rw (pow-suc 2 k, mul_comm (2 ^ k) 2) (mod-double a (2 ^ k) (one-le-pow k 2 (omega arith)))

-- A mask of `k` ones is the remainder by `2 ^ k`.
pub bit_and-mask : (k a : ℕ) → bit_and a (2 ^ k - 1) ≡ a % 2 ^ k
bit_and-mask zero a = omega (arith, bit_and-zero_below a a (le_refl a))
bit_and-mask (suc k) a = ground (
  arith,
  bit_and_step a (2 ^ suc k - 1),
  bit_and-mask k (a / 2),
  pow-suc 2 k,
  one-le-pow k 2,
  mod-pow-suc a k,
)

-- Truncation commutes with exclusive or.
pub bit_xor-mod : (k a b : ℕ) → bit_xor a b % 2 ^ k ≡ bit_xor (a % 2 ^ k) (b % 2 ^ k)
bit_xor-mod zero a b = simp mod-one
bit_xor-mod (suc k) a b = ground (
  arith,
  mod-pow-suc (bit_xor a b) k,
  mod-pow-suc a k,
  mod-pow-suc b k,
  bit_xor_step a b,
  bit_xor_step (a % 2 ^ suc k) (b % 2 ^ suc k),
  bit_xor-mod k (a / 2) (b / 2),
  differ-lt (a % 2) (b % 2),
)
