-- ===== src/StringBuffer.antt =====
-- libmemcached/string.cc: the growing buffer, and its array of bytes.
pub mod Growth
pub mod Content
mod Tests
use libmemcached.Prelude.{
  ℕ, zero, suc, ◌+◌, ◌-◌, ◌*◌, ◌/◌, ◌%◌, List, [], ◌∷◌, ◌++◌, Bool, true, false, not, ◌&&◌, Option,
  none, some, length, set, take, replicate, ltb, ◌==◌, if◌then◌else◌,
}
use libmemcached.Prelude.Words.{u64_mod}
use libmemcached.Return.{Return, success, memory_allocation_failure, is_success}

-- MEMCACHED_BLOCK_SIZE
abbrev pub block_size : ℕ
block_size = 1024

-- `memcached_string_st`: the bytes that are allocated, `current_size` of them by its own count, and
-- `end` as an offset. No bytes is a null pointer.
pub record StringBuffer : Type 0 where
  pub cells : List ℕ
  pub end_offset : ℕ
  pub current_size : ℕ

-- `_init_string`
abbrev pub init_string : StringBuffer
init_string = record { cells = []; end_offset = 0; current_size = 0 }

-- `memcached_string_length`
abbrev pub string_length : StringBuffer → ℕ
string_length s = s.end_offset

-- The bytes before `end`: `memcached_string_value`, of `memcached_string_length`.
abbrev pub content : StringBuffer → List ℕ
content s = take s.end_offset s.cells

-- What is free behind `end`, as a `size_t`.
abbrev pub spare : StringBuffer → ℕ
spare s = (u64_mod + s.current_size - s.end_offset) % u64_mod

-- The number of blocks by which the buffer grows.
abbrev pub adjust : StringBuffer → ℕ → ℕ
adjust s need = (need - spare s) / block_size + 1

abbrev pub new_size : StringBuffer → ℕ → ℕ
new_size s need = (adjust s need * block_size + s.current_size) % u64_mod

-- `realloc` to `size` bytes, the new ones taken to be zero.
abbrev pub resized : StringBuffer → ℕ → StringBuffer
resized s size = record s {
  cells = take size s.cells ++ replicate (size - length s.cells) 0;
  current_size = size;
}

-- `_string_check`; `realloc` tells whether so many bytes can be had.
unfoldable pub string_check : (ℕ → Bool) → StringBuffer → ℕ → Return × StringBuffer
string_check realloc s need =
    if not (need == 0) && ltb (spare s) need
    then (if ltb (new_size s need) need
        then (memory_allocation_failure, s)
        else if realloc (new_size s need)
        then (success, resized s (new_size s need))
        else (memory_allocation_failure, s))
    else (success, s)

-- `memcpy` to the bytes from offset `i` on.
unfoldable pub memcpy : List ℕ → ℕ → List ℕ → List ℕ
memcpy cells i [] = cells
memcpy cells i (v ∷ vs) = memcpy (set cells i v) (suc i) vs

-- `memcached_string_create` in place.
unfoldable pub string_create : (ℕ → Bool) → ℕ → Option StringBuffer
unfolding string_check
string_create realloc initial_size =
    let checked = string_check realloc init_string initial_size in
    if is_success checked.0 then some checked.1 else none

-- `memcached_string_append_null`
unfoldable pub append_null : (ℕ → Bool) → StringBuffer → Return × StringBuffer
unfolding string_check
append_null realloc s =
    let checked = string_check realloc s 1 in
    let t = checked.1 in
    if is_success checked.0
    then (success, record t { cells = set t.cells t.end_offset 0 })
    else (memory_allocation_failure, t)

-- `memcached_string_append`
unfoldable pub string_append : (ℕ → Bool) → StringBuffer → List ℕ → Return × StringBuffer
unfolding string_check memcpy
string_append realloc s value =
    let checked = string_check realloc s (length value) in
    let t = checked.1 in
    if is_success checked.0
    then (
      success,
      record t {
        cells = memcpy t.cells t.end_offset value;
        end_offset = t.end_offset + length value;
      },
    )
    else (memory_allocation_failure, t)

-- `memcached_string_append_character`
unfoldable pub append_character : (ℕ → Bool) → StringBuffer → ℕ → Return × StringBuffer
unfolding string_check
append_character realloc s character =
    let checked = string_check realloc s 1 in
    let t = checked.1 in
    if is_success checked.0
    then (
      success,
      record t { cells = set t.cells t.end_offset character; end_offset = suc t.end_offset },
    )
    else (memory_allocation_failure, t)

-- `memcached_string_reset`
abbrev pub string_reset : StringBuffer → StringBuffer
string_reset s = record s { end_offset = 0 }

-- `memcached_string_set`; the final zero is not asked about.
unfoldable pub string_set : (ℕ → Bool) → StringBuffer → List ℕ → Bool × StringBuffer
unfolding string_append append_null
string_set realloc s value =
    let appended = string_append realloc (string_reset s) value in
    if is_success appended.0
    then (true, (append_null realloc appended.1).1)
    else (false, appended.1)

-- `memcached_string_take_value`: the array, and what stays; `none` for a null pointer.
unfoldable pub take_value : (ℕ → Bool) → StringBuffer → Option (List ℕ) × StringBuffer
unfolding append_null
take_value realloc s =
    if string_length s == 0
    then (none, s)
    else let ended = append_null realloc s in
      (if is_success ended.0 then (some ended.1.cells, init_string) else (none, ended.1))
