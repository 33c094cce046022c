-- ===== src/Dom/Walker/Reader.antt =====
-- The calls of the walker as a description of the object, which a reader builds again.
use cyng.Base.{ℕ, List, [], ◌∷◌, ◌++◌, Option, none, some, ◌>>=◌, ◌==◌, if◌then◌else◌, length}
use cyng.Dom.{
  tuple, vector, deque, Key, Tag, sequence_tag, map_tag, pair_tag, plain_tag, Object, sequence,
  map_of, pair, plain, Objects, nil, cons, Pairs, end, entry,
}
use cyng.Dom.Walker.{Event, visit, open_, close, named, simple}

-- The object with an empty vector in place of each deque.
abbrev mutual
  pub seen : Object → Object
  seen (sequence tuple os) = sequence tuple (seen_all os)
  seen (sequence vector os) = sequence vector (seen_all os)
  seen (sequence deque os) = sequence vector nil
  seen (map_of k ps) = map_of k (seen_pairs ps)
  seen (pair k o) = pair k (seen o)
  seen (plain n bytes) = plain n bytes

  pub seen_all : Objects → Objects
  seen_all nil = nil
  seen_all (cons o os) = cons (seen o) (seen_all os)

  pub seen_pairs : Pairs → Pairs
  seen_pairs end = end
  seen_pairs (entry k o ps) = entry k (seen o) (seen_pairs ps)

-- What was opened: its tag and size, the key that was named, and what it contains so far.
pub record Frame : Type 0 where
  pub opened : Tag
  pub size : ℕ
  pub key : Option Key
  pub children : List Object

abbrev pub objects_of : List Object → Objects
objects_of [] = nil
objects_of (o ∷ os) = cons o (objects_of os)

abbrev pub pairs_of : List Object → Option Pairs
pairs_of [] = some end
pairs_of (pair k o ∷ os) = pairs_of os >>= λ ps. some (entry k o ps)
pairs_of (_ ∷ os) = none

abbrev pub pair_of : Option Key → List Object → Option Object
pair_of (some k) (o ∷ []) = some (pair k o)
pair_of _ _ = none

-- The object that is closed, with as many parts as were announced.
abbrev pub built : Tag → Option Key → List Object → Option Object
built (sequence_tag s) key os = some (sequence s (objects_of os))
built (map_tag k) key os = pairs_of os >>= λ ps. some (map_of k ps)
built (pair_tag k) key os = pair_of key os
built (plain_tag n) key os = none

abbrev pub add : Object → Frame → Frame
add o f = record f { children = f.children ++ o ∷ [] }

abbrev pub finished : Frame → Option Object
finished f = if length f.children == f.size then built f.opened f.key f.children else none

abbrev pub next : Event → Frame → List Frame → Option (Frame × List Frame)
next (visit o t d s) f fs = some (add o f, fs)
next (simple k o d s) f fs = some (add (pair k o) f, fs)
next (named k d) f fs = some (record f { key = some k }, fs)
next (open_ t d n) f fs = some (record { opened = t; size = n; key = none; children = [] }, f ∷ fs)
next (close t d s p) f [] = none
next (close t d s p) f (g ∷ fs) = finished f >>= λ o. some (add o g, fs)

unfoldable pub run : List Event → Frame → List Frame → Option (Frame × List Frame)
run [] f fs = some (f, fs)
run (e ∷ es) f fs = next e f fs >>= λ r. run es r.0 r.1

-- Nothing is left open, and there is one object.
abbrev pub only : List Object → List Frame → Option Object
only (o ∷ []) [] = some o
only _ _ = none

-- The object that the calls describe.
unfoldable pub rebuild : List Event → Option Object
unfolding run
rebuild es =
    run es (record { opened = plain_tag 0; size = 1; key = none; children = [] }) [] >>= λ r.
    only r.0.children r.1
