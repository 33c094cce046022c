-- ===== src/Dom/Merge.antt =====
-- src/obj/src/merge.cpp, on maps of parameters.
pub mod Lookup
use cyng.Base.{Bool, List, [], ◌∷◌, Option, none, some, if◌then◌else◌}
use cyng.Base.Result.{Result, ok, err, assertion, ◌>>=◌}
use cyng.Store.Meta.{Text}
use cyng.Dom.{param, Object, map_of, Pairs, end}
use cyng.Dom.Rename.{find, emplace, change, as_map}

-- `operator[]` and an assignment.
unfoldable pub assign : Text → Object → Pairs → Pairs
unfolding find emplace change
assign n o ps = elim (find n ps) [ none ↦ emplace n o ps | some q ↦ change n o ps ]

-- The loop, from a map on. Without assertions, it ends where a name stands for another type.
unfoldable pub merge : Bool → Pairs → List Text → Object → Result Pairs
unfolding find assign
merge checked ps [] val = ok ps
merge checked ps (n ∷ []) val = ok (assign n val ps)
merge checked ps (n ∷ m ∷ path) val = elim (find n ps) [
  | none ↦ do qs ← merge checked end (m ∷ path) val; ok (assign n (map_of param qs) ps)
  | some o ↦ elim (as_map o) [
    | none ↦ if checked then err assertion else ok ps
    | some qs ↦ do qs' ← merge checked qs (m ∷ path) val; ok (assign n (map_of param qs') ps)
  ]
]
