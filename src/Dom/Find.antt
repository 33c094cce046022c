-- ===== src/Dom/Find.antt =====
-- src/obj/src/find.cpp.
pub mod Entries
use cyng.Base.{
  ℕ, zero, suc, ◌+◌, ◌%◌, ◌^◌, Bool, true, false, ◌&&◌, List, [], ◌∷◌, Option, none, some, ◌==◌,
  if◌then◌else◌,
}
use cyng.Store.Meta.{Text, text_eq}
use cyng.Binary.Number.{from_bytes}
use cyng.Dom.{
  attr, param, prop, Key, index, name, code, Object, sequence, map_of, pair, plain, Objects, nil,
  cons, Pairs, end, entry,
}

-- `make_object()`
abbrev pub null : Object
null = plain 0 []

-- The tests of the searches, TC_UINT32, TC_UINT64, TC_STRING and TC_OBIS being 8, 9, 14 and 31.
abbrev pub has_index : ℕ → Object → Bool
has_index idx (pair (index i) o) = i == idx
has_index idx (plain n bytes) =
    if n == 8
    then from_bytes 0 bytes == idx % 2 ^ 32
    else if n == 9
    then from_bytes 0 bytes == idx
    else false
has_index idx _ = false

abbrev pub has_name : Text → Object → Bool
has_name s (pair (name t) o) = text_eq t s
has_name s (plain n bytes) = if n == 14 then text_eq bytes s else false
has_name s _ = false

abbrev pub has_code : Text → Object → Bool
has_code c (pair (code d) o) = text_eq d c
has_code c (plain n bytes) = if n == 31 then text_eq bytes c else false
has_code c _ = false

-- `std::find_if`
unfoldable pub search : (Object → Bool) → Objects → Option Object
search test nil = none
search test (cons o os) = if test o then some o else search test os

abbrev pub extract : Object → Object
extract (pair k o) = o
extract o = o

-- `p->at(idx)`, within the size.
unfoldable pub nth : ℕ → Objects → Option Object
nth i nil = none
nth zero (cons o os) = some o
nth (suc i) (cons o os) = nth i os

-- `find` of a map, by a test of the key.
unfoldable pub find_key : (Key → Bool) → Pairs → Object
find_key test end = null
find_key test (entry k o ps) = if test k then o else find_key test ps

abbrev pub is_index : ℕ → Key → Bool
is_index idx (index i) = i == idx
is_index idx _ = false

abbrev pub is_name : Text → Key → Bool
is_name s (name t) = text_eq t s
is_name s _ = false

abbrev pub is_code : Text → Key → Bool
is_code c (code d) = text_eq d c
is_code c _ = false

unfoldable pub find_at : Objects → ℕ → Object
unfolding search nth
find_at os idx = elim (search (has_index idx) os) [
  | some o ↦ extract o
  | none ↦ elim (nth idx os) [ some o ↦ o | none ↦ null ]
]

unfoldable pub find_by : (Object → Bool) → Objects → Object
unfolding search
find_by test os = elim (search test os) [ some o ↦ extract o | none ↦ null ]

-- An object that is no container of the kind is given back.
unfoldable pub find_index : Object → ℕ → Object
unfolding find_at find_key
find_index (sequence s os) idx = find_at os idx
find_index (map_of attr ps) idx = find_key (is_index idx) ps
find_index (pair (index i) o) idx = if i == idx then o else null
find_index obj idx = obj

unfoldable pub find_name : Object → Text → Object
unfolding find_by find_key
find_name (sequence s os) n = find_by (has_name n) os
find_name (map_of param ps) n = find_key (is_name n) ps
find_name (pair (name t) o) n = if text_eq t n then o else null
find_name obj n = obj

unfoldable pub find_code : Object → Text → Object
unfolding find_by find_key
find_code (sequence s os) c = find_by (has_code c) os
find_code (map_of prop ps) c = find_key (is_code c) ps
find_code (pair (code d) o) c = if text_eq d c then o else null
find_code obj c = obj
