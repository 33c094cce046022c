-- ===== src/Dom/Rename.antt =====
-- `rename` of src/obj/src/dom_transform.cpp, on maps of parameters.
pub mod Lookup
use cyng.Base.{List, [], ◌∷◌, Option, none, some, if◌then◌else◌}
use cyng.Store.Meta.{Text, text_eq}
use cyng.Json.Value.{text_lt}
use cyng.Dom.{Kind, param, Key, name, Object, sequence, map_of, pair, plain, Pairs, end, entry}

-- `std::map::find`; a map of parameters has no other keys.
unfoldable pub find : Text → Pairs → Option Object
unfolding text_eq
find n end = none
find n (entry (name m) o ps) = if text_eq m n then some o else find n ps
find n (entry _ o ps) = find n ps

-- `std::map::erase`
unfoldable pub erase : Text → Pairs → Pairs
unfolding text_eq
erase n end = end
erase n (entry (name m) o ps) = if text_eq m n then ps else entry (name m) o (erase n ps)
erase n (entry k o ps) = entry k o (erase n ps)

-- `std::map::insert`, which keeps what is there.
unfoldable pub emplace : Text → Object → Pairs → Pairs
unfolding text_lt
emplace n o end = entry (name n) o end
emplace n o (entry (name m) q ps) =
    let rest = emplace n o ps in
    if text_lt n m
    then entry (name n) o (entry (name m) q ps)
    else if text_lt m n
    then entry (name m) q rest
    else entry (name m) q ps
emplace n o (entry k q ps) = entry k q (emplace n o ps)

-- The object of a name that is there is changed in its place.
unfoldable pub change : Text → Object → Pairs → Pairs
unfolding text_eq
change n o end = end
change n o (entry (name m) q ps) =
    let rest = change n o ps in if text_eq m n then entry (name m) o ps else entry (name m) q rest
change n o (entry k q ps) = entry k q (change n o ps)

-- `object_cast<param_map_t>`
abbrev pub as_map : Object → Option Pairs
as_map (map_of param ps) = some ps
as_map _ = none

unfoldable pub insert_from : Pairs → List Text → Text × Object → Pairs
unfolding find emplace change
insert_from ps [] (n, o) = emplace n o ps
insert_from ps (n ∷ path) p = elim (find n ps) [
  | none ↦ emplace n (map_of param (insert_from end path p)) ps
  | some q ↦ elim (as_map q) [
    | none ↦ ps
    | some qs ↦ change n (map_of param (insert_from qs path p)) ps
  ]
]

unfoldable pub insert : Pairs → List Text → Text × Object → Pairs
unfolding insert_from
insert ps [] p = ps
insert ps (n ∷ path) p = insert_from ps (n ∷ path) p

-- The map behind it, and the parameter that is taken out.
unfoldable pub extract : Pairs → List Text → Pairs × Option (Text × Object)
unfolding find erase change
extract ps [] = (ps, none)
extract ps (n ∷ []) = elim (find n ps) [ none ↦ (ps, none) | some o ↦ (erase n ps, some (n, o)) ]
extract ps (n ∷ m ∷ path) = elim (find n ps) [
  | none ↦ (ps, none)
  | some o ↦ elim (as_map o) [
    | none ↦ (ps, none)
    | some qs ↦ let (qs', p) = extract qs (m ∷ path) in (change n (map_of param qs') ps, p)
  ]
]

unfoldable pub rename : Pairs → List Text → List Text → Pairs
unfolding extract insert
rename ps path rep =
    let (ps', r) = extract ps path in elim r [ none ↦ ps' | some p ↦ insert ps' rep p ]
