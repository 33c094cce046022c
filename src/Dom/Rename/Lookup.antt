-- ===== src/Dom/Rename/Lookup.antt =====
-- A parameter that is renamed is found under its new path.
use cyng.Base.{
  ◌≡◌, refl, Bool, true, false, Option-cases, inl, inr, List, [], ◌∷◌, ◌++◌, Option, none, some,
  arith,
}
use cyng.Store.Meta.{Text, text_eq}
use cyng.Store.Database.Access.{text_eq_refl}
use cyng.Json.Value.{text_lt}
use cyng.Dom.{param, index, name, code, Object, map_of, Pairs, end, entry}
use cyng.Dom.Rename.{find, emplace, change, as_map, insert_from, insert, extract, rename}

-- What stands under the names, from an object on.
unfoldable pub below : Object → List Text → Option Object
unfolding find
below o [] = some o
below o (n ∷ path) = elim (as_map o) [
  | none ↦ none
  | some ps ↦ elim (find n ps) [ none ↦ none | some q ↦ below q path ]
]

abbrev pub at : Pairs → List Text → Option Object
at ps path = below (map_of param ps) path

abbrev pub last_of : Text → List Text → Text
last_of n [] = n
last_of n (m ∷ path) = last_of m path

-- There is no such name behind the path, and what stands on the path is a map.
unfoldable pub is_free : Pairs → List Text → Text → Bool
unfolding find
is_free ps [] n = elim (find n ps) [ none ↦ true | some o ↦ false ]
is_free ps (m ∷ rep) n = elim (find m ps) [
  | none ↦ true
  | some q ↦ elim (as_map q) [ none ↦ false | some qs ↦ is_free qs rep n ]
]

pub text_lt_total : (s t : Text) → text_lt s t ≡ false → text_lt t s ≡ false → text_eq s t ≡ true
unfolding text_lt text_eq
text_lt_total [] [] h k = refl
text_lt_total [] (d ∷ t) h k = ground arith
text_lt_total (c ∷ s) [] h k = ground arith
text_lt_total (c ∷ s) (d ∷ t) h k = ground (arith, text_lt_total s t)

pub find-emplace :
    (n : Text) (o : Object) (ps : Pairs) → find n ps ≡ none → find n (emplace n o ps) ≡ some o
unfolding find emplace
find-emplace n o end h = rw (text_eq_refl n) refl
find-emplace n o (entry (name m) q ps) h =
    ground (arith, text_eq_refl n, text_lt_total m n, find-emplace n o ps, h)
find-emplace n o (entry (index i) q ps) h = find-emplace n o ps h
find-emplace n o (entry (code i) q ps) h = find-emplace n o ps h

pub find-change :
    (n : Text) (o q : Object) (ps : Pairs) → find n ps ≡ some q → find n (change n o ps) ≡ some o
unfolding find change
find-change n o r end h = ground arith
find-change n o r (entry (name m) q ps) h = ground (arith, find-change n o r ps, h)
find-change n o r (entry (index i) q ps) h = find-change n o r ps h
find-change n o r (entry (code i) q ps) h = find-change n o r ps h

extract-at :
    (ps : Pairs) (n : Text) (path : List Text) (o : Object)
    → at ps (n ∷ path) ≡ some o
    → (extract ps (n ∷ path)).1 ≡ some (last_of n path, o)
unfolding extract below
extract-at ps n [] o h = elim (Option-cases (find n ps)) [
  | inl absent ↦ ground (arith, absent, h)
  | inr (q, there) ↦ let same : some q ≡ some o = rw (below, there) at h in rw (extract, there) cc
]
extract-at ps n (m ∷ path) o h = elim (Option-cases (find n ps)) [
  | inl absent ↦ ground (arith, absent, h)
  | inr (q, there) ↦ elim (Option-cases (as_map q)) [
    | inl other ↦ let no : none ≡ some o = rw (below, there, other) at h in cc
    | inr (qs, is) ↦ rw (extract, there, is) (extract-at qs m path o (rw (below, there, is) at h))
  ]
]

free_end : (rep : List Text) (n : Text) → is_free end rep n ≡ true
unfolding is_free find
free_end [] n = refl
free_end (m ∷ rep) n = refl

insert_from-at :
    (ps : Pairs) (rep : List Text) (n : Text) (o : Object)
    → is_free ps rep n ≡ true
    → at (insert_from ps rep (n, o)) (rep ++ n ∷ []) ≡ some o
unfolding insert_from below is_free
insert_from-at ps [] n o h = elim (Option-cases (find n ps)) [
  | inl absent ↦ rw (below, insert_from, find-emplace n o ps absent) refl
  | inr (q, there) ↦ let no : false ≡ true = rw (is_free, there) at h in cc
]
insert_from-at ps (m ∷ rep) n o h = elim (Option-cases (find m ps)) [
  | inl absent ↦
      rw
        (
          below,
          insert_from,
          absent,
          find-emplace m (map_of param (insert_from end rep (n, o))) ps absent,
        )
        (insert_from-at end rep n o (free_end rep n))
  | inr (q, there) ↦ elim (Option-cases (as_map q)) [
    | inl other ↦ let no : false ≡ true = rw (is_free, there, other) at h in cc
    | inr (qs, is) ↦
        rw
          (
            below,
            insert_from,
            there,
            is,
            find-change m (map_of param (insert_from qs rep (n, o))) q ps there,
          )
          (insert_from-at qs rep n o (rw (is_free, there, is) at h))
  ]
]

-- A parameter that stands under a path stands behind `rename` under the new path, with its own name as
-- the last: where the new path is not empty, what stands on it is a map, and the name is free there,
-- in the map without the parameter.
pub rename-at :
    (ps : Pairs) (n m : Text) (path rep : List Text) (o : Object)
    → at ps (n ∷ path) ≡ some o
    → is_free (extract ps (n ∷ path)).0 (m ∷ rep) (last_of n path) ≡ true
    → at (rename ps (n ∷ path) (m ∷ rep)) (m ∷ rep ++ last_of n path ∷ []) ≡ some o
unfolding rename insert
rename-at ps n m path rep o h k =
    rw (rename, extract-at ps n path o h)
      (insert_from-at (extract ps (n ∷ path)).0 (m ∷ rep) (last_of n path) o k)
