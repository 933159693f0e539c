-- ===== src/Protocol/Value/RoundTrip.antt =====
-- libmemcached/response.cc: the line in front of a value, as the server writes it, read back.
use libmemcached.Prelude.{
  ℕ, ◌+◌, ◌≤◌, ◌<◌, ◌≡◌, refl, ap, ◌∙◌, false, ◌||◌, List, [], ◌∷◌, ◌++◌, Option, none, some,
  length, le→ltb, All, arith, length-append,
}
use libmemcached.Prelude.Words.{u32_mod, u64_mod}
use libmemcached.Protocol.Numbers.{print, isspace, iscntrl, strtoul-print, length-print, Ends}
use libmemcached.Protocol.Value.{
  Result, result_reset, command_size, behind, at_end, load_key, Header, loaded, load_cas,
  load_length, load_flags, load_header,
}
use libmemcached.Protocol.Words

-- A byte that ends no key.
abbrev pub IsName : ℕ → Type 0
IsName c = (iscntrl c || isspace c) ≡ false

-- What the server writes for the cas value, if it was asked for it, up to the carriage return.
abbrev pub cas_text : Option ℕ → List ℕ → List ℕ
cas_text none rest = b'\r' ∷ rest
cas_text (some cas) rest = b' ' ∷ (print cas ++ b'\r' ∷ rest)

-- The line in front of a value: the key with its namespace, the flags, the length and the cas value.
abbrev pub value_text : List ℕ → List ℕ → ℕ → ℕ → Option ℕ → List ℕ → List ℕ
value_text ns key flags len cas rest =
    Words.word_value_space
    ++ (ns ++ (key ++ b' ' ∷ (print flags ++ b' ' ∷ (print len ++ cas_text cas rest))))

abbrev pub cas_or_zero : Option ℕ → ℕ
cas_or_zero none = 0
cas_or_zero (some cas) = cas

abbrev pub IsCas : Option ℕ → Type 0
IsCas cas = cas_or_zero cas < u64_mod

load_key-key :
    (key rest : List ℕ) → All IsName key → load_key 0 (key ++ b' ' ∷ rest) ≡ (key, b' ' ∷ rest)
unfolding load_key
load_key-key [] rest h = refl
load_key-key (c ∷ key) rest h = rw (h.0, load_key-key key rest h.1)

load_key-prefix :
    (ns key rest : List ℕ)
    → All IsName ns
    → All IsName key
    → load_key (length ns) (ns ++ (key ++ b' ' ∷ rest)) ≡ (key, b' ' ∷ rest)
unfolding load_key
load_key-prefix [] key rest h k = load_key-key key rest k
load_key-prefix (c ∷ ns) key rest h k = rw (h.0) (load_key-prefix ns key rest h.1 k)

-- The text is not at the end of the buffer, if it begins in front of it.
at_end-inside :
    (buffer text : List ℕ) → behind buffer text < command_size → at_end buffer text ≡ false
at_end-inside buffer text h = ground arith

load_flags-print :
    (buffer : List ℕ) (r : Result) (flags : ℕ) (rest : List ℕ)
    → flags < u32_mod
    → behind buffer (print flags ++ b' ' ∷ rest) < command_size
    → behind buffer (b' ' ∷ rest) < command_size
    → load_flags buffer r (print flags ++ b' ' ∷ rest)
      ≡ load_length buffer (record r { item_flags = flags }) rest
unfolding load_flags
load_flags-print buffer r flags rest h k l =
    rw
      (
        strtoul-print flags (b' ' ∷ rest) (omega arith) refl,
        at_end-inside buffer (print flags ++ b' ' ∷ rest) k,
        at_end-inside buffer (b' ' ∷ rest) l,
      )
      (ap (λ f. load_length buffer (record r { item_flags = f }) rest) (omega arith))

load_cas-none :
    (buffer : List ℕ) (h : Header) (rest : List ℕ)
    → behind buffer (b'\r' ∷ rest) + 2 ≤ command_size
    → load_cas buffer h (b'\r' ∷ rest) ≡ loaded h
unfolding load_cas
load_cas-none buffer h rest k = ground arith

load_cas-some :
    (buffer : List ℕ) (h : Header) (cas : ℕ) (rest : List ℕ)
    → cas < u64_mod
    → behind buffer (b'\r' ∷ rest) ≤ command_size
    → load_cas buffer h (b' ' ∷ (print cas ++ b'\r' ∷ rest))
      ≡ loaded (record h { result = record h.result { item_cas = cas } })
unfolding load_cas
load_cas-some buffer h cas rest k l =
    rw (
      strtoul-print cas (b'\r' ∷ rest) k refl,
      le→ltb command_size (behind buffer (b'\r' ∷ rest)) l,
    )

-- What the line says of the value.
abbrev pub told : List ℕ → ℕ → ℕ → Option ℕ → Header
told key flags len cas = record {
  result = record result_reset { item_key = key; item_flags = flags; item_cas = cas_or_zero cas };
  value_length = len;
}

load_cas-cas_text :
    (buffer key : List ℕ) (flags len : ℕ) (cas : Option ℕ) (rest : List ℕ)
    → IsCas cas
    → behind buffer (b'\r' ∷ rest) + 2 ≤ command_size
    → load_cas buffer (told key flags len none) (cas_text cas rest)
      ≡ loaded (told key flags len cas)
load_cas-cas_text buffer key flags len none rest k l = load_cas-none buffer _ rest l
load_cas-cas_text buffer key flags len (some cas) rest k l =
    load_cas-some buffer _ cas rest k (omega arith)

cas_text-Ends : (cas : Option ℕ) (rest : List ℕ) → Ends (cas_text cas rest)
cas_text-Ends none rest = refl
cas_text-Ends (some cas) rest = refl

load_length-print :
    (buffer : List ℕ) (r : Result) (len : ℕ) (cas : Option ℕ) (rest : List ℕ)
    → len < u64_mod
    → behind buffer (print len ++ cas_text cas rest) < command_size
    → behind buffer (cas_text cas rest) < command_size
    → load_length buffer r (print len ++ cas_text cas rest)
      ≡ load_cas buffer (record { result = r; value_length = len }) (cas_text cas rest)
unfolding load_length
load_length-print buffer r len cas rest h k l = rw (
  strtoul-print len (cas_text cas rest) h (cas_text-Ends cas rest),
  at_end-inside buffer (print len ++ cas_text cas rest) k,
  at_end-inside buffer (cas_text cas rest) l,
)

pub length-cas_text :
    (cas : Option ℕ) (rest : List ℕ) → length (cas_text cas rest) ≤ length rest + 22
length-cas_text none rest = omega arith
length-cas_text (some cas) rest =
    omega (arith, length-append (print cas) (b'\r' ∷ rest), length-print cas)

length-cas_text_pos : (cas : Option ℕ) (rest : List ℕ) → length rest < length (cas_text cas rest)
length-cas_text_pos none rest = omega arith
length-cas_text_pos (some cas) rest = omega (arith, length-append (print cas) (b'\r' ∷ rest))

-- The line in front of a value is read back, whatever the key, the flags, the length and the cas value,
-- if the key and the namespace have at most 250 characters.
pub load_header-value_text :
    (ns key : List ℕ) (flags len : ℕ) (cas : Option ℕ) (rest : List ℕ)
    → All IsName ns
    → All IsName key
    → length ns + length key ≤ 250
    → flags < u32_mod
    → len < u64_mod
    → IsCas cas
    → 0 < length rest
    → load_header (length ns) (value_text ns key flags len cas rest)
      ≡ loaded (told key flags len cas)
unfolding load_header
load_header-value_text ns key flags len cas rest hn hk h hf hl hc hr =
    let t3 = cas_text cas rest in
    let t2 = print len ++ t3 in
    let t1 = print flags ++ b' ' ∷ t2 in
    let buffer = value_text ns key flags len cas rest in
    let d0 = length-append ns (key ++ b' ' ∷ t1) in
    let d1 = length-append key (b' ' ∷ t1) in
    let d2 = length-append (print flags) (b' ' ∷ t2) in
    let d3 = length-append (print len) t3 in
    let d4 = length-cas_text cas rest in
    let d5 = length-print flags in
    let d6 = length-print len in
    let d7 = length-cas_text_pos cas rest in
    rw (load_key-prefix ns key t1 hn hk, at_end-inside buffer (b' ' ∷ t1) (omega (arith, d0, d1)))
      (load_flags-print buffer (record result_reset { item_key = key }) flags t2 hf
          (omega (arith, d0, d1)) (omega (arith, d0, d1, d2, d5))
        ∙ load_length-print buffer _ len cas rest hl (omega (arith, d0, d1, d2, d5))
            (omega (arith, d0, d1, d2, d3, d5, d6))
        ∙ load_cas-cas_text buffer key flags len cas rest hc
            (omega (arith, d0, d1, d2, d3, d4, d5, d6, d7, hr)))
