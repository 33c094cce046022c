-- ===== src/Dom/Walker/Rebuild.antt =====
-- What the walker is told is the whole object.
use cyng.Base.{
  ℕ, ◌+◌, ◌≡◌, refl, sym, ap, ◌∙◌, true, false, Bool-cases, inl, inr, List, [], ◌∷◌, ◌++◌,
  append_assoc, append-nil, Option, none, some, ◌>>=◌, ◌==◌, arith, length,
}
use cyng.Dom.{
  tuple, vector, deque, Key, kind_of, Tag, sequence_tag, map_tag, pair_tag, plain_tag, Object,
  sequence, map_of, pair, plain, Objects, nil, cons, Pairs, end, entry, tag, is_container,
}
use cyng.Dom.Walker.{
  WalkerState, last, Event, visit, open_, close, get_state, count, count_pairs, closing, traverse,
  traverse_all, traverse_pairs, walk,
}
use cyng.Dom.Walker.Reader.{
  seen, seen_all, seen_pairs, Frame, objects_of, pairs_of, built, run, only, rebuild,
}

abbrev parts : Objects → List Object
parts nil = []
parts (cons o os) = o ∷ parts os

abbrev pair_parts : Pairs → List Object
pair_parts end = []
pair_parts (entry k o ps) = pair k o ∷ pair_parts ps

abbrev adds : List Object → Frame → Frame
adds os f = record f { children = f.children ++ os }

objects_of-parts : (os : Objects) → objects_of (parts os) ≡ os
objects_of-parts nil = refl
objects_of-parts (cons o os) = ap (cons o) (objects_of-parts os)

pairs_of-parts : (ps : Pairs) → pairs_of (pair_parts ps) ≡ some ps
pairs_of-parts end = refl
pairs_of-parts (entry k o ps) = rw (pairs_of-parts ps) refl

length-parts : (os : Objects) → length (parts (seen_all os)) ≡ count os
unfolding count
length-parts nil = refl
length-parts (cons o os) = omega (arith, length-parts os)

length-pair_parts : (ps : Pairs) → length (pair_parts (seen_pairs ps)) ≡ count_pairs ps
unfolding count_pairs
length-pair_parts end = refl
length-pair_parts (entry k o ps) = omega (arith, length-pair_parts ps)

seen_plain : (o : Object) → is_container (tag o) ≡ false → seen o ≡ o
seen_plain (sequence s os) h = cc
seen_plain (map_of k ps) h = cc
seen_plain (pair k o) h = cc
seen_plain (plain n bytes) h = refl

-- The calls for an object, before any others, add it to what is open.
abbrev Adds : List Event → List Object → Type 0
Adds es os =
    (rest : List Event) (f : Frame) (fs : List Frame)
    → run (es ++ rest) f fs ≡ run rest (adds os f) fs

-- What stands inside of a frame, and the call that closes it, add what was built to the next frame.
closed-Adds :
    (t parent : Tag) (depth : ℕ) (state : WalkerState) (es : List Event) (os : List Object)
    (o : Object) (opened : Tag) (key : Option Key) (n : ℕ)
    → length os ≡ n
    → Adds es os
    → built opened key os ≡ some o
    → (rest : List Event) (f : Frame) (fs : List Frame)
    → run
        ((es ++ close t depth state parent ∷ []) ++ rest)
        (record { opened = opened; size = n; key = key; children = [] })
        (f ∷ fs)
      ≡ run rest (adds (o ∷ []) f) fs
unfolding run
closed-Adds t parent depth state es os o opened key n l h b rest f fs =
    let same : (length os == n) ≡ true = ground (arith, l) in
    ap (λ l. run l (record { opened = opened; size = n; key = key; children = [] }) (f ∷ fs))
      (append_assoc es (close t depth state parent ∷ []) rest)
    ∙ h (close t depth state parent ∷ rest) _ (f ∷ fs)
    ∙ rw (same, b) refl

enclosed-Adds :
    (t closed parent : Tag) (depth n : ℕ) (state : WalkerState) (es : List Event) (os : List Object)
    (o : Object)
    → length os ≡ n
    → Adds es os
    → built t none os ≡ some o
    → Adds (open_ t depth n ∷ (es ++ close closed depth state parent ∷ [])) (o ∷ [])
unfolding run
enclosed-Adds t closed parent depth n state es os o l h b rest f fs =
    closed-Adds closed parent depth state es os o t none n l h b rest f fs

pair-Adds :
    (k : Key) (o : Object) (depth : ℕ) (state : WalkerState) (parent : Tag)
    → ((parent : Tag) → Adds (traverse o depth state parent) (seen o ∷ []))
    → Adds (traverse (pair k o) depth state parent) (pair k (seen o) ∷ [])
unfolding traverse run
pair-Adds k o depth state parent ih rest f fs = elim (Bool-cases (is_container (tag o))) [
  | inl contains ↦ rw contains (
      closed-Adds (pair_tag (kind_of k)) parent depth state
        (traverse o depth state (pair_tag (kind_of k))) (seen o ∷ []) (pair k (seen o))
        (pair_tag (kind_of k)) (some k) 1 refl (ih (pair_tag (kind_of k))) refl rest f fs)
  | inr simple_ ↦ rw (simple_, seen_plain o simple_) refl
]

append-Adds :
    (es es' : List Event) (os os' : List Object)
    → Adds es os
    → Adds es' os'
    → Adds (es ++ es') (os ++ os')
append-Adds es es' os os' h h' rest f fs =
    ap (λ l. run l f fs) (append_assoc es es' rest)
    ∙ h (es' ++ rest) f fs
    ∙ h' rest (adds os f) fs
    ∙ ap (λ l. run rest (record f { children = l }) fs) (append_assoc f.children os os')

nothing-Adds : Adds [] []
nothing-Adds rest f fs =
    ap (λ l. run rest (record f { children = l }) fs) (sym (append-nil f.children))

plain-Adds :
    (n : ℕ) (bytes : List ℕ) (depth : ℕ) (state : WalkerState)
    → Adds (visit (plain n bytes) (plain_tag n) depth state ∷ []) (plain n bytes ∷ [])
unfolding run
plain-Adds n bytes depth state rest f fs = refl

mutual
  unfolding traverse count count_pairs

  traverse-Adds :
      (o : Object) (depth : ℕ) (state : WalkerState) (parent : Tag)
      → Adds (traverse o depth state parent) (seen o ∷ [])
  traverse-Adds (sequence tuple os) depth state parent =
      enclosed-Adds (sequence_tag tuple) (sequence_tag tuple) parent depth (count os) state
        (traverse_all os (depth + 1) 1 (count os) (sequence_tag tuple)) (parts (seen_all os))
        (sequence tuple (seen_all os)) (length-parts os)
        (traverse_all-Adds os (depth + 1) 1 (count os) (sequence_tag tuple))
        (ap (λ l. some (sequence tuple l)) (objects_of-parts (seen_all os)))
  traverse-Adds (sequence vector os) depth state parent =
      enclosed-Adds (sequence_tag vector) (sequence_tag vector) parent depth (count os) state
        (traverse_all os (depth + 1) 1 (count os) (sequence_tag vector)) (parts (seen_all os))
        (sequence vector (seen_all os)) (length-parts os)
        (traverse_all-Adds os (depth + 1) 1 (count os) (sequence_tag vector))
        (ap (λ l. some (sequence vector l)) (objects_of-parts (seen_all os)))
  traverse-Adds (sequence deque os) depth state parent =
      enclosed-Adds (sequence_tag vector) (sequence_tag vector) parent depth 0 state [] []
        (sequence vector nil) refl nothing-Adds refl
  traverse-Adds (map_of k ps) depth state parent =
      enclosed-Adds (map_tag k) (closing k) parent depth (count_pairs ps) state
        (traverse_pairs ps (depth + 1) 1 (count_pairs ps) (map_tag k)) (pair_parts (seen_pairs ps))
        (map_of k (seen_pairs ps)) (length-pair_parts ps)
        (traverse_pairs-Adds ps (depth + 1) 1 (count_pairs ps) (map_tag k))
        (rw (pairs_of-parts (seen_pairs ps)) refl)
  traverse-Adds (pair k o) depth state parent =
      pair-Adds k o depth state parent (traverse-Adds o depth state)
  traverse-Adds (plain n bytes) depth state parent = plain-Adds n bytes depth state

  traverse_all-Adds :
      (os : Objects) (depth idx size : ℕ) (parent : Tag)
      → Adds (traverse_all os depth idx size parent) (parts (seen_all os))
  traverse_all-Adds nil depth idx size parent = nothing-Adds
  traverse_all-Adds (cons o os) depth idx size parent =
      append-Adds (traverse o depth (get_state idx size) parent) _ (seen o ∷ []) _
        (traverse-Adds o depth (get_state idx size) parent)
        (traverse_all-Adds os depth (idx + 1) size parent)

  traverse_pairs-Adds :
      (ps : Pairs) (depth idx size : ℕ) (parent : Tag)
      → Adds (traverse_pairs ps depth idx size parent) (pair_parts (seen_pairs ps))
  traverse_pairs-Adds end depth idx size parent = nothing-Adds
  traverse_pairs-Adds (entry k o ps) depth idx size parent =
      append-Adds (traverse (pair k o) depth (get_state idx size) parent) _ (pair k (seen o) ∷ []) _
        (pair-Adds k o depth (get_state idx size) parent
          (traverse-Adds o depth (get_state idx size)))
        (traverse_pairs-Adds ps depth (idx + 1) size parent)

-- From the calls of a walker, with the tags and the sizes that it is told, the object can be built
-- again, but for the deques: each is shown as an empty vector, whatever it contains.
pub rebuild-walk : (o : Object) → rebuild (walk o) ≡ some (seen o)
unfolding rebuild walk run
rebuild-walk o =
    let start : Frame = record { opened = plain_tag 0; size = 1; key = none; children = [] } in
    ap (λ r. r >>= λ r. only r.0.children r.1)
      (ap (λ l. run l start []) (sym (append-nil (traverse o 0 last (tag o))))
        ∙ traverse-Adds o 0 last (tag o) [] start [])
