-- ===== src/Dom/Walker.antt =====
-- src/obj/src/dom_walker.cpp. What the walker is called for is the list of its calls.
pub mod Reader
pub mod Rebuild
use cyng.Base.{ℕ, ◌+◌, Bool, List, [], ◌∷◌, ◌++◌, ◌==◌, if◌then◌else◌}
use cyng.Dom.{
  Sequence, tuple, vector, deque, Kind, param, prop, Key, kind_of, Tag, sequence_tag, map_tag,
  pair_tag, plain_tag, Object, sequence, map_of, pair, plain, Objects, nil, cons, Pairs, end, entry,
  tag, is_container,
}

pub data WalkerState : Type 0 where
  first last indeterminate : WalkerState

-- A call of the walker: `pair` is the call that names what stands inside an opened pair.
pub data Event : Type 0 where
  visit : Object → Tag → ℕ → WalkerState → Event
  open_ : Tag → ℕ → ℕ → Event
  close : Tag → ℕ → WalkerState → Tag → Event
  named : Key → ℕ → Event
  simple : Key → Object → ℕ → WalkerState → Event

abbrev pub get_state : ℕ → ℕ → WalkerState
get_state idx size = if idx == size then last else if idx == 1 then first else indeterminate

unfoldable pub count : Objects → ℕ
count nil = 0
count (cons o os) = count os + 1

unfoldable pub count_pairs : Pairs → ℕ
count_pairs end = 0
count_pairs (entry k o ps) = count_pairs ps + 1

-- The tag with which `traverse` of a map calls `close`.
abbrev pub closing : Kind → Tag
closing prop = map_tag param
closing k = map_tag k

-- A deque is cast to a vector, which it is not, and gives an empty one.
unfoldable mutual
  unfolding count count_pairs

  pub traverse : Object → ℕ → WalkerState → Tag → List Event
  traverse (sequence tuple os) depth state parent =
      open_ (sequence_tag tuple) depth (count os)
      ∷ (traverse_all os (depth + 1) 1 (count os) (sequence_tag tuple)
          ++ close (sequence_tag tuple) depth state parent ∷ [])
  traverse (sequence vector os) depth state parent =
      open_ (sequence_tag vector) depth (count os)
      ∷ (traverse_all os (depth + 1) 1 (count os) (sequence_tag vector)
          ++ close (sequence_tag vector) depth state parent ∷ [])
  traverse (sequence deque os) depth state parent =
      open_ (sequence_tag vector) depth 0 ∷ close (sequence_tag vector) depth state parent ∷ []
  traverse (map_of k ps) depth state parent =
      open_ (map_tag k) depth (count_pairs ps)
      ∷ (traverse_pairs ps (depth + 1) 1 (count_pairs ps) (map_tag k)
          ++ close (closing k) depth state parent ∷ [])
  traverse (pair k o) depth state parent =
      if is_container (tag o)
      then open_ (pair_tag (kind_of k)) depth 1
        ∷ named k depth
        ∷ (traverse o depth state (pair_tag (kind_of k))
            ++ close (pair_tag (kind_of k)) depth state parent ∷ [])
      else simple k o depth state ∷ []
  traverse (plain n bytes) depth state parent = visit (plain n bytes) (plain_tag n) depth state ∷ []

  pub traverse_all : Objects → ℕ → ℕ → ℕ → Tag → List Event
  traverse_all nil depth idx size parent = []
  traverse_all (cons o os) depth idx size parent =
      traverse o depth (get_state idx size) parent ++ traverse_all os depth (idx + 1) size parent

  pub traverse_pairs : Pairs → ℕ → ℕ → ℕ → Tag → List Event
  traverse_pairs end depth idx size parent = []
  traverse_pairs (entry k o ps) depth idx size parent =
      (if is_container (tag o)
        then open_ (pair_tag (kind_of k)) depth 1
          ∷ named k depth
          ∷ (traverse o depth (get_state idx size) (pair_tag (kind_of k))
              ++ close (pair_tag (kind_of k)) depth (get_state idx size) parent ∷ [])
        else simple k o depth (get_state idx size) ∷ [])
      ++ traverse_pairs ps depth (idx + 1) size parent

-- The call from outside.
unfoldable pub walk : Object → List Event
unfolding traverse
walk o = traverse o 0 last (tag o)
