-- ===== src/Protocol/Numbers.antt =====
-- Numbers in the text protocol: what the client uses of `snprintf` and of `strtoul`.
use libmemcached.Prelude.{
  ℕ, zero, suc, ◌+◌, ◌-◌, ◌*◌, ◌/◌, ◌%◌, ◌^◌, ◌≤◌, ◌<◌, ◌≡◌, refl, ap, ◌∙◌, Bool, true, false, ◌&&◌,
  ◌||◌, List, [], ◌∷◌, ◌++◌, append_assoc, length, length-append, All, All-append, ◌≢◌, Bool-cases,
  ltb→lt, ltb→le, inl, inr, ltb, leb, ◌==◌, if◌then◌else◌, arith,
}
use native.Mathlib.Numerals.{unary_clauses}

-- `%u`, `%llu`: the decimal digits of a number below `10 ^ width`.
unfoldable pub digits : ℕ → ℕ → List ℕ
digits zero n = []
digits (suc width) n =
    let before = digits width (n / 10) in
    if ltb n 10 then (b'0' + n) ∷ [] else before ++ (b'0' + n % 10) ∷ []

-- No 64-bit number has more than 20 digits.
unfoldable pub print : ℕ → List ℕ
unfolding digits
print = digits 20

abbrev pub isdigit : ℕ → Bool
isdigit c = leb b'0' c && leb c b'9'

-- `isspace` of the C locale: the space, and tab to carriage return.
abbrev pub isspace : ℕ → Bool
isspace c = c == b' ' || (leb 9 c && leb c 13)

-- `iscntrl` of the C locale.
abbrev pub iscntrl : ℕ → Bool
iscntrl c = ltb c 32 || c == 127

-- The digits at the head, behind those that make `n`, and what follows them.
unfoldable pub read_digits : ℕ → List ℕ → ℕ × List ℕ
read_digits n [] = (n, [])
read_digits n (c ∷ cs) =
    let more = read_digits (n * 10 + (c - b'0')) cs in if isdigit c then more else (n, c ∷ cs)

unfoldable pub skip_spaces : List ℕ → List ℕ
skip_spaces [] = []
skip_spaces (c ∷ cs) = let more = skip_spaces cs in if isspace c then more else c ∷ cs

abbrev pub starts_digit : List ℕ → Bool
starts_digit [] = false
starts_digit (c ∷ cs) = isdigit c

-- What a conversion gives: the value, `errno`, and the text at `endptr`.
pub record Converted : Type 0 where
  pub value : ℕ
  pub out_of_range : Bool
  pub endptr : List ℕ

-- `-n`, and `ULONG_MAX` with `ERANGE` for a number that is too large; `max` is `2 ^ 64`.
abbrev in_range : ℕ → Bool → ℕ × List ℕ → Converted
in_range max negative (n, rest) =
    if leb max n then record { value = max - 1; out_of_range = true; endptr = rest } else record {
      value = if negative then (max - n) % max else n;
      out_of_range = false;
      endptr = rest;
    }

-- The same of `strtol`, a negative number by its 64 bits.
abbrev in_long_range : Bool → ℕ × List ℕ → Converted
in_long_range negative (n, rest) =
    if leb (2 ^ 63) (if negative then n - 1 else n)
    then record {
      value = if negative then 2 ^ 63 else 2 ^ 63 - 1;
      out_of_range = true;
      endptr = rest;
    }
    else record {
      value = if negative then (2 ^ 64 - n) % 2 ^ 64 else n;
      out_of_range = false;
      endptr = rest;
    }

-- Behind the sign. Without a digit nothing is converted, and `endptr` is the whole text.
unfoldable unsigned : (Bool → ℕ × List ℕ → Converted) → Bool → List ℕ → List ℕ → Converted
unfolding read_digits
unsigned convert negative text cs =
    if starts_digit cs
    then convert negative (read_digits 0 cs)
    else record { value = 0; out_of_range = false; endptr = text }

unfoldable signed : (Bool → ℕ × List ℕ → Converted) → List ℕ → List ℕ → Converted
unfolding unsigned
signed convert text [] = unsigned convert false text []
signed convert text (c ∷ cs) =
    if c == b'-'
    then unsigned convert true text cs
    else if c == b'+'
    then unsigned convert false text cs
    else unsigned convert false text (c ∷ cs)

-- `strtoul`, `strtoull` to the base 10, of 64 bits both.
unfoldable pub strtoul : List ℕ → Converted
unfolding signed skip_spaces
strtoul text = signed (in_range (2 ^ 64)) text (skip_spaces text)

-- `strtol`
unfoldable pub strtol : List ℕ → Converted
unfolding signed skip_spaces
strtol text = signed in_long_range text (skip_spaces text)

-- A text that no digit starts.
abbrev pub Ends : List ℕ → Type 0
Ends rest = starts_digit rest ≡ false

read_digits-end : (n : ℕ) (rest : List ℕ) → Ends rest → read_digits n rest ≡ (n, rest)
unfolding read_digits
read_digits-end n [] h = refl
read_digits-end n (c ∷ cs) h = ground arith

isdigit-digit : (d : ℕ) → d < 10 → isdigit (b'0' + d) ≡ true
isdigit-digit d h = ground arith

digit_value : (d : ℕ) → b'0' + d - b'0' ≡ d
digit_value d = omega arith

read_digits-digit :
    (n d : ℕ) (rest : List ℕ)
    → d < 10
    → read_digits n ((b'0' + d) ∷ rest) ≡ read_digits (n * 10 + d) rest
unfolding read_digits
read_digits-digit n d rest h = rw (isdigit-digit d h, digit_value d)

pow_ten : (width : ℕ) → 10 ^ suc width ≡ 10 ^ width * 10
pow_ten width = simp unary_clauses refl

read_digits-digits :
    (width n : ℕ) (rest : List ℕ)
    → n < 10 ^ width
    → read_digits 0 (digits width n ++ rest) ≡ read_digits n rest
unfolding digits
read_digits-digits zero n rest h = ap (λ m. read_digits m rest) (omega (arith, pow_ten 0))
read_digits-digits (suc width) n rest h = elim (Bool-cases (ltb n 10)) [
  | inl e ↦
      rw e (read_digits-digit 0 n rest (ltb→lt n 10 e) ∙ ap (λ m. read_digits m rest) (omega arith))
  | inr e ↦
      rw (e, append_assoc)
        (read_digits-digits width (n / 10) ((b'0' + n % 10) ∷ rest) (omega (arith, pow_ten width))
          ∙ read_digits-digit (n / 10) (n % 10) rest (omega arith)
          ∙ ap (λ m. read_digits m rest) (omega arith))
]

starts_digit-more :
    (width n : ℕ) (rest : List ℕ)
    → 10 ≤ n
    → n < 10 ^ suc width
    → starts_digit (digits width (n / 10) ++ rest) ≡ true
unfolding digits
starts_digit-more zero n rest g h = absurd (omega (arith, pow_ten 0))
starts_digit-more (suc width) n rest g h = elim (Bool-cases (ltb (n / 10) 10)) [
  | inl e ↦ rw e (isdigit-digit (n / 10) (ltb→lt (n / 10) 10 e))
  | inr e ↦
      rw (e, append_assoc)
        (starts_digit-more width (n / 10) _ (ltb→le (n / 10) 10 e)
          (omega (arith, pow_ten (suc width))))
]

starts_digit-digits :
    (width n : ℕ) (rest : List ℕ)
    → n < 10 ^ suc width
    → starts_digit (digits (suc width) n ++ rest) ≡ true
unfolding digits
starts_digit-digits width n rest h = elim (Bool-cases (ltb n 10)) [
  | inl e ↦ rw e (isdigit-digit n (ltb→lt n 10 e))
  | inr e ↦ rw (e, append_assoc) (starts_digit-more width n _ (ltb→le n 10 e) h)
]

length-digits : (width n : ℕ) → length (digits width n) ≤ width
unfolding digits
length-digits zero n = omega arith
length-digits (suc width) n = elim (Bool-cases (ltb n 10)) [
  | inl e ↦ rw (e) (omega arith)
  | inr e ↦ rw (e) (
      omega (
        arith,
        length-digits width (n / 10),
        length-append (digits width (n / 10)) ((b'0' + n % 10) ∷ []),
      ))
]

skip_spaces-digit : (xs : List ℕ) → starts_digit xs ≡ true → skip_spaces xs ≡ xs
unfolding skip_spaces
skip_spaces-digit [] h = refl
skip_spaces-digit (c ∷ cs) h = ground arith

signed-digit :
    (convert : Bool → ℕ × List ℕ → Converted) (text xs : List ℕ)
    → starts_digit xs ≡ true
    → signed convert text xs ≡ convert false (read_digits 0 xs)
unfolding signed unsigned
signed-digit convert text [] h = cc h
signed-digit convert text (c ∷ cs) h = ground arith

in_range-small :
    (max n : ℕ) (rest : List ℕ)
    → n < max
    → in_range max false (n, rest) ≡ record { value = n; out_of_range = false; endptr = rest }
in_range-small max n rest h = ground arith

-- `strtoul` reads back every 64-bit number that `snprintf` writes, and stops where it ends.
pub strtoul-print :
    (n : ℕ) (rest : List ℕ)
    → n < 2 ^ 64
    → Ends rest
    → strtoul (print n ++ rest) ≡ record { value = n; out_of_range = false; endptr = rest }
unfolding strtoul print
strtoul-print n rest h e =
    let text = digits 20 n ++ rest in
    let starts = starts_digit-digits 19 n rest (omega arith) in
    ap (signed (in_range (2 ^ 64)) text) (skip_spaces-digit text starts)
    ∙ signed-digit (in_range (2 ^ 64)) text text starts
    ∙ ap (in_range (2 ^ 64) false)
        (read_digits-digits 20 n rest (omega arith) ∙ read_digits-end n rest e)
    ∙ in_range-small (2 ^ 64) n rest h

pub length-print : (n : ℕ) → length (print n) ≤ 20
unfolding print
length-print n = length-digits 20 n

-- Digits are no blanks.
digits-NotSpace : (width n : ℕ) → All (λ c. isspace c ≡ false) (digits width n)
unfolding digits
digits-NotSpace zero n = tt
digits-NotSpace (suc width) n = elim (Bool-cases (ltb n 10)) [
  | inl e ↦ rw e (digit-NotSpace n, tt)
  | inr e ↦ rw e (
      All-append (λ c. isspace c ≡ false) (digits width (n / 10)) _ (digits-NotSpace width (n / 10))
        (digit-NotSpace (n % 10), tt))
]
  where
    digit-NotSpace : (d : ℕ) → isspace (b'0' + d) ≡ false
    digit-NotSpace d = ground arith

pub print-NotSpace : (n : ℕ) → All (λ c. isspace c ≡ false) (print n)
unfolding print
print-NotSpace n = digits-NotSpace 20 n

-- Nor line feeds.
pub print-plain : (n : ℕ) → All (λ c. c ≢ 10) (print n)
print-plain n = plain (print n) (print-NotSpace n)
  where
    not_space : (c : ℕ) → isspace c ≡ false → c ≢ 10
    not_space c h e = ground arith

    plain : (cs : List ℕ) → All (λ c. isspace c ≡ false) cs → All (λ c. c ≢ 10) cs
    plain [] h = tt
    plain (c ∷ cs) h = (not_space c h.0, plain cs h.1)

pub print-starts_digit :
    (n : ℕ) (rest : List ℕ) → n < 2 ^ 64 → starts_digit (print n ++ rest) ≡ true
unfolding print
print-starts_digit n rest h = starts_digit-digits 19 n rest (omega arith)

length-digits_small : (width k n : ℕ) → n < 10 ^ suc k → length (digits width n) ≤ suc k
unfolding digits
length-digits_small zero k n h = omega arith
length-digits_small (suc width) zero n h = elim (Bool-cases (ltb n 10)) [
  | inl e ↦ rw e (omega arith)
  | inr e ↦ absurd (omega (arith, ltb→le n 10 e, pow_ten 0, h))
]
length-digits_small (suc width) (suc k) n h = elim (Bool-cases (ltb n 10)) [
  | inl e ↦ rw e (omega arith)
  | inr e ↦ rw e (
      omega (
        arith,
        length-append (digits width (n / 10)) ((b'0' + n % 10) ∷ []),
        length-digits_small width k (n / 10) (omega (arith, pow_ten (suc k), h)),
      ))
]

pub length-print_small : (n : ℕ) → n < 10 ^ 19 → length (print n) ≤ 19
unfolding print
length-print_small n h = length-digits_small 20 18 n (omega (arith, h))
