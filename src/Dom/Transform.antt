-- ===== src/Dom/Transform.antt =====
-- `transform` of src/obj/src/dom_transform.cpp, by depth and type and by the path of names.
pub mod Agree
pub mod Remove
use cyng.Base.{ℕ, ◌+◌, Bool, true, false, List, [], ◌∷◌, ◌++◌, if◌then◌else◌}
use cyng.Store.Meta.{Text}
use cyng.Dom.{
  Sequence, Kind, Key, kind_of, Tag, sequence_tag, map_tag, plain_tag, Object, sequence, map_of,
  pair, plain, Objects, nil, cons, Pairs, end, entry,
}

pub data Action : Type 0 where
  none replace remove : Action

-- What the callback gave, the object behind a walk through its parts, and the object before: the new
-- object, and whether it is to be erased.
abbrev pub decide : Object × Action → Object → Object → Object × Bool
decide (r, none) walked obj = (walked, false)
decide (r, replace) walked obj = (r, false)
decide (r, remove) walked obj = (obj, true)

module _ (f : Object → ℕ → Tag → Object × Action) where
  unfoldable mutual
    pub transform : Object → ℕ → Object × Bool
    transform (sequence s os) depth =
        decide (f (sequence s os) depth (sequence_tag s)) (sequence s (transform_all os depth))
          (sequence s os)
    transform (map_of k ps) depth =
        decide (f (map_of k ps) depth (map_tag k)) (map_of k (transform_pairs ps depth))
          (map_of k ps)
    transform (pair k o) depth = (pair k (transform o depth).0, false)
    transform (plain n bytes) depth =
        decide (f (plain n bytes) depth (plain_tag n)) (plain n bytes) (plain n bytes)

    pub transform_all : Objects → ℕ → Objects
    transform_all nil depth = nil
    transform_all (cons o os) depth =
        let rest = transform_all os depth in
        let (r, erased) = transform o (depth + 1) in if erased then rest else cons r rest

    pub transform_pairs : Pairs → ℕ → Pairs
    transform_pairs end depth = end
    transform_pairs (entry k o ps) depth =
        let rest = transform_pairs ps depth in
        let (r, erased) = transform o (depth + 1) in if erased then rest else entry k r rest

  -- The call from outside.
  unfoldable pub transform_object : Object → Object
  unfolding transform
  transform_object o = (transform o 0).0

-- `label` is the text of a key: the name itself, or `to_string`.
module _ (label : Key → Text) (f : Object → List Text → Object × Action) where
  unfoldable mutual
    pub transform_at : Object → List Text → Object × Bool
    transform_at (sequence s os) path =
        decide (f (sequence s os) path) (sequence s (transform_all_at os path)) (sequence s os)
    transform_at (map_of k ps) path =
        decide (f (map_of k ps) path) (map_of k (transform_pairs_at ps path)) (map_of k ps)
    transform_at (pair k o) path = (pair k (transform_at o (path ++ label k ∷ [])).0, false)
    transform_at (plain n bytes) path =
        decide (f (plain n bytes) path) (plain n bytes) (plain n bytes)

    pub transform_all_at : Objects → List Text → Objects
    transform_all_at nil path = nil
    transform_all_at (cons o os) path =
        let rest = transform_all_at os path in
        let (r, erased) = transform_at o path in if erased then rest else cons r rest

    pub transform_pairs_at : Pairs → List Text → Pairs
    transform_pairs_at end path = end
    transform_pairs_at (entry k o ps) path =
        let rest = transform_pairs_at ps path in
        let (r, erased) = transform_at o (path ++ label k ∷ []) in
        if erased then rest else entry k r rest

  -- The call from outside, for a map of parameters.
  unfoldable pub transform_map : Pairs → Pairs
  unfolding transform_at
  transform_map ps = transform_pairs_at ps []
