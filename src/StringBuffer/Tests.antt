-- ===== src/StringBuffer/Tests.antt =====
-- Short buffers, and an allocator that has a megabyte to give.
use libmemcached.Prelude.{
  ℕ, ◌≡◌, ◌⊎◌, ◌<◌, ◌^◌, refl, List, [], ◌∷◌, Bool, true, false, some, ltb, ltb→lt, take, get_elem?,
  arith,
}
use libmemcached.Return.{success, memory_allocation_failure, is_success}
use libmemcached.StringBuffer.{
  StringBuffer, init_string, string_check, string_append, append_null, string_set, take_value,
  memcpy,
}
use libmemcached.StringBuffer.Growth.{IsSound, HasRoom, string_check-HasRoom}
use libmemcached.StringBuffer.Content.{
  Contains, string_append-Contains, string_set-Contains, take_value-content,
}

abbrev megabyte : ℕ → Bool
megabyte n = ltb n 1048576

megabyte-limit : (n : ℕ) → megabyte n ≡ true → n < 2 ^ 63
megabyte-limit n h = omega (arith, ltb→lt n 1048576 h)

abbrev short : StringBuffer
short = record { cells = 71 ∷ 69 ∷ 84 ∷ 0 ∷ []; end_offset = 3; current_size = 4 }

abbrev get : List ℕ
get = 71 ∷ 69 ∷ 84 ∷ []

abbrev get_zero : List ℕ
get_zero = 71 ∷ 69 ∷ 84 ∷ 0 ∷ []

short-IsSound : IsSound short
short-IsSound = record { cells_size = refl; end_le = omega arith; small = omega arith }

short-Contains : Contains short (71 ∷ 69 ∷ 84 ∷ [])
short-Contains = record { sound = short-IsSound; bytes_are = refl }

one_fits : (string_append megabyte short (33 ∷ [])).1.cells ≡ 71 ∷ 69 ∷ 84 ∷ 33 ∷ []
unfolding string_append string_check memcpy is_success
one_fits = refl

two_grow : (string_append megabyte short (33 ∷ 34 ∷ [])).1.current_size ≡ 1028
unfolding string_append string_check is_success
two_grow = refl

wraps_around : (string_check megabyte short 18446744073709551615).0 ≡ memory_allocation_failure
unfolding string_check
wraps_around = refl

string_check-HasRoom_example :
    (((string_check megabyte short 2).0 ≡ success)
      × HasRoom short 2 (string_check megabyte short 2).1)
    ⊎ (((string_check megabyte short 2).0 ≡ memory_allocation_failure)
        × ((string_check megabyte short 2).1 ≡ short))
string_check-HasRoom_example =
    string_check-HasRoom megabyte short 2 megabyte-limit short-IsSound (omega arith)

string_append-Contains_example :
    (((string_append megabyte short (33 ∷ [])).0 ≡ success)
      × Contains (string_append megabyte short (33 ∷ [])).1 (71 ∷ 69 ∷ 84 ∷ 33 ∷ []))
    ⊎ (((string_append megabyte short (33 ∷ [])).0 ≡ memory_allocation_failure)
        × Contains (string_append megabyte short (33 ∷ [])).1 (71 ∷ 69 ∷ 84 ∷ []))
string_append-Contains_example =
    string_append-Contains megabyte megabyte-limit short (71 ∷ 69 ∷ 84 ∷ []) (33 ∷ [])
      short-Contains (omega arith)

string_set-Contains_example :
    (((string_set megabyte short (33 ∷ [])).0 ≡ true)
      × Contains (string_set megabyte short (33 ∷ [])).1 (33 ∷ []))
    ⊎ (((string_set megabyte short (33 ∷ [])).0 ≡ false)
        × Contains (string_set megabyte short (33 ∷ [])).1 [])
string_set-Contains_example =
    string_set-Contains megabyte megabyte-limit short (71 ∷ 69 ∷ 84 ∷ []) (33 ∷ []) short-Contains
      (omega arith)

taken : (take_value megabyte short).0 ≡ some (71 ∷ 69 ∷ 84 ∷ 0 ∷ [])
unfolding take_value append_null string_check is_success
taken = refl

take_value-content_example :
    (take 3 get_zero ≡ get)
    × (get_elem? get_zero 3 ≡ some 0)
    × ((take_value megabyte short).1 ≡ init_string)
take_value-content_example =
    take_value-content megabyte megabyte-limit short get get_zero short-Contains taken
