-- ===== src/Dom/Merge/Lookup.antt =====
-- A value that `merge` of src/obj/src/merge.cpp puts into a map is found under its path, and what stands
-- elsewhere is kept.
use cyng.Base.{
  ◌≡◌, refl, ap, Bool, true, false, Bool-cases, Option-cases, inl, inr, List, [], ◌∷◌, Option, none,
  some, arith, if◌then◌else◌, sym, ◌∙◌,
}
use cyng.Base.Result.{ok}
use cyng.Store.Meta.{Text, text_eq}
use cyng.Store.Database.Access.{text_eq_eq}
use cyng.Dom.{param, name, index, code, Object, map_of, Pairs, end, entry}
use cyng.Dom.Rename.{find, emplace, change, as_map}
use cyng.Dom.Rename.Lookup.{below, at, find-emplace, find-change}
use cyng.Dom.Merge.{assign, merge}

-- What stands on the path, before its last name, is a map.
unfoldable pub is_open : Pairs → List Text → Bool
unfolding find
is_open ps [] = false
is_open ps (n ∷ []) = true
is_open ps (n ∷ m ∷ path) = elim (find n ps) [
  | none ↦ true
  | some o ↦ elim (as_map o) [ none ↦ false | some qs ↦ is_open qs (m ∷ path) ]
]

find-emplace_other :
    (n k : Text) (o : Object) (ps : Pairs)
    → text_eq n k ≡ false
    → find k (emplace n o ps) ≡ find k ps
unfolding find emplace
find-emplace_other n k o end h = rw h refl
find-emplace_other n k o (entry (name m) q ps) h = ground (arith, h, find-emplace_other n k o ps)
find-emplace_other n k o (entry (index i) q ps) h = find-emplace_other n k o ps h
find-emplace_other n k o (entry (code c) q ps) h = find-emplace_other n k o ps h

find-change_other :
    (n k : Text) (o : Object) (ps : Pairs)
    → text_eq n k ≡ false
    → find k (change n o ps) ≡ find k ps
unfolding find change
find-change_other n k o end h = refl
find-change_other n k o (entry (name m) q ps) h = elim (Bool-cases (text_eq m n)) [
  | inl same ↦ ground (arith, h, same, ap (λ t. text_eq t k) (text_eq_eq m n same))
  | inr other ↦ ground (arith, h, other, find-change_other n k o ps)
]
find-change_other n k o (entry (index i) q ps) h = find-change_other n k o ps h
find-change_other n k o (entry (code c) q ps) h = find-change_other n k o ps h

-- Behind an assignment the name stands for the object, and no other name changes.
abbrev Assigned : Text → Object → Pairs → Pairs → Type 0
Assigned n o ps ps' =
    (find n ps' ≡ some o) × ((k : Text) → text_eq n k ≡ false → find k ps' ≡ find k ps)

assign-Assigned : (n : Text) (o : Object) (ps : Pairs) → Assigned n o ps (assign n o ps)
unfolding assign
assign-Assigned n o ps = elim (Option-cases (find n ps)) [
  | inl absent ↦
      rw (assign, absent) (find-emplace n o ps absent, λ k h. find-emplace_other n k o ps h)
  | inr (q, there) ↦
      rw (assign, there) (find-change n o q ps there, λ k h. find-change_other n k o ps h)
]

open_end : (n : Text) (path : List Text) → is_open end (n ∷ path) ≡ true
unfolding is_open find
open_end n [] = refl
open_end n (m ∷ path) = refl

-- The paths differ in a name before one of them ends.
unfoldable pub diverges : List Text → List Text → Bool
diverges [] path = false
diverges (n ∷ rest) [] = false
diverges (n ∷ rest) (k ∷ path) = if text_eq n k then diverges rest path else true

-- What stood on every path that diverges from this one still stands there.
abbrev Keeps : Pairs → Pairs → List Text → Type 0
Keeps ps ps' path = (other : List Text) → diverges path other ≡ true → at ps' other ≡ at ps other

-- What stands under the names in the map of this name, if there is one.
abbrev within : Pairs → Text → List Text → Option Object
within ps n path = elim (find n ps) [ none ↦ none | some o ↦ below o path ]

-- A name is assigned an object in which every path that diverges from the rest was kept.
assign-Keeps :
    (n : Text) (path : List Text) (o : Object) (ps : Pairs)
    → ((rest : List Text) → diverges path rest ≡ true → below o rest ≡ within ps n rest)
    → Keeps ps (assign n o ps) (n ∷ path)
unfolding diverges below
assign-Keeps n path o ps deep [] h = ground arith
assign-Keeps n path o ps deep (k ∷ rest) h =
    let (found, others) = assign-Assigned n o ps in
    elim (Bool-cases (text_eq n k)) [
      | inl same ↦
          let is : n ≡ k = text_eq_eq n k same in
          rw (sym is) (rw (below, found) (deep rest (rw (diverges, same) at h)))
      | inr other ↦ rw (below, others k other) refl
    ]

-- In a map that was changed under a path, and in a new one, every other path was kept.
map-within :
    (n m : Text) (path : List Text) (o : Object) (ps qs qs' : Pairs)
    → find n ps ≡ some o
    → as_map o ≡ some qs
    → Keeps qs qs' (m ∷ path)
    → (rest : List Text) → diverges (m ∷ path) rest ≡ true
    → below (map_of param qs') rest ≡ within ps n rest
unfolding diverges below
map-within n m path o ps qs qs' is map keeps [] h = ground arith
map-within n m path o ps qs qs' is map keeps (k ∷ rest) h =
    keeps (k ∷ rest) h ∙ rw (within, below, is, map) refl

new-within :
    (n m : Text) (path : List Text) (ps qs : Pairs)
    → find n ps ≡ none
    → Keeps end qs (m ∷ path)
    → (rest : List Text) → diverges (m ∷ path) rest ≡ true
    → below (map_of param qs) rest ≡ within ps n rest
unfolding diverges below find
new-within n m path ps qs absent keeps [] h = ground arith
new-within n m path ps qs absent keeps (k ∷ rest) h = keeps (k ∷ rest) h ∙ rw (within, absent) refl

-- A map in which the value was merged is assigned to the first name.
assign-at :
    (n : Text) (path : List Text) (val o : Object) (ps : Pairs)
    → below o path ≡ some val
    → at (assign n o ps) (n ∷ path) ≡ some val
unfolding below
assign-at n path val o ps h = rw (below, (assign-Assigned n o ps).0) h

-- Where what stands on the path, before its last name, is a map, `merge` goes well: the value is found
-- under the path, whether a part of it was there or not, and what stands on any other path, at any
-- depth, is as it was, if the two paths differ in a name before one of them ends.
pub merge-at :
    (checked : Bool) (ps : Pairs) (n : Text) (path : List Text) (val : Object)
    → is_open ps (n ∷ path) ≡ true
    → (ps' : Pairs) × (merge checked ps (n ∷ path) val ≡ ok ps')
      × (at ps' (n ∷ path) ≡ some val)
      × ((other : List Text) → diverges (n ∷ path) other ≡ true → at ps' other ≡ at ps other)
unfolding merge diverges is_open
merge-at checked ps n [] val h = (
  assign n val ps,
  refl,
  assign-at n [] val val ps (unfold below in refl),
  assign-Keeps n [] val ps (λ rest k. ground arith),
)
merge-at checked ps n (m ∷ path) val h = elim (Option-cases (find n ps)) [
  | inl absent ↦
      let (qs, e, there, keeps) = merge-at checked end m path val (open_end m path) in
      (
        assign n (map_of param qs) ps,
        rw (merge, absent, e) refl,
        assign-at n (m ∷ path) val (map_of param qs) ps there,
        assign-Keeps n (m ∷ path) (map_of param qs) ps (new-within n m path ps qs absent keeps),
      )
  | inr (o, is) ↦ elim (Option-cases (as_map o)) [
    | inl other ↦ let no : false ≡ true = rw (is_open, is, other) at h in cc
    | inr (qs, map) ↦
        let (qs', e, there, keeps) = merge-at checked qs m path val (rw (is_open, is, map) at h) in
        (
          assign n (map_of param qs') ps,
          rw (merge, is, map, e) refl,
          assign-at n (m ∷ path) val (map_of param qs') ps there,
          assign-Keeps n (m ∷ path) (map_of param qs') ps
              (map-within n m path o ps qs qs' is map keeps),
        )
  ]
]
