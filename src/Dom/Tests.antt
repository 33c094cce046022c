-- ===== src/Dom/Tests.antt =====
-- A small tree: a tuple of a number, a map of parameters with a map inside, and a deque.
use cyng.Base.{List, ℕ, true, ◌≡◌, refl, Bool, [], ◌∷◌, some, false, ◌==◌, if◌then◌else◌}
use cyng.Base.Result.{ok}
use cyng.Store.Meta.{Text, text_eq}
use cyng.Dom.{
  prop, attr, tuple, deque, param, Key, name, index, code, Tag, plain_tag, Object, sequence, map_of,
  pair, plain, nil, cons, Pairs, end, entry,
}
use cyng.Dom.Walker.{walk}
use cyng.Dom.Walker.Reader.{rebuild, seen}
use cyng.Dom.Walker.Rebuild.{rebuild-walk}
use cyng.Dom.Transform.{Action, transform_object, transform_map}
use cyng.Dom.Transform.Agree.{transform_object-transform_map}
use cyng.Dom.Transform.Remove.{removing, Without, transform_object-Without}
use cyng.Dom.Merge.Lookup.{is_open, diverges, merge-at}
use cyng.Dom.Merge.{merge}
use cyng.Dom.Find.{is_index, find_index, find_name, find_code}
use cyng.Dom.Find.Entries.{entries, contains, find-entries}
use cyng.Dom.Rename.{find, erase, change, extract, rename}
use cyng.Dom.Rename.Lookup.{at, below, is_free, rename-at}

abbrev text : Text → Object
text s = plain 14 s

abbrev config : Pairs
config =
    entry (name (b'd' ∷ [])) (map_of param (entry (name (b'h' ∷ [])) (text (b'x' ∷ [])) end))
      (entry (name (b'n' ∷ [])) (plain 0 []) end)

abbrev tree : Object
tree = sequence tuple (
    cons (plain 9 (7 ∷ [])) (
      cons (map_of param config)
        (cons (pair (index 3) (plain 0 [])) (cons (sequence deque (cons (text []) nil)) nil))))

rebuild-walk_example : rebuild (walk tree) ≡ some (seen tree)
rebuild-walk_example = rebuild-walk tree

-- The type of null objects.
abbrev is_null : Tag → Bool
is_null (plain_tag n) = n == 0
is_null _ = false

transform_object-Without_example :
    Without is_null (transform_object (removing is_null) tree)
    × (Without is_null tree → transform_object (removing is_null) tree ≡ tree)
transform_object-Without_example = transform_object-Without is_null tree refl

abbrev label : Key → Text
label (name s) = s
label (index n) = n ∷ []
label (code o) = o

-- Null objects become empty texts.
abbrev mend : Object → Object × Action
mend (plain n bytes) = if n == 0 then (text [], Action.replace) else (plain n bytes, Action.none)
mend o = (o, Action.none)

transform_object-transform_map_example :
    transform_object (λ o d t. mend o) (map_of param config)
    ≡ map_of param (transform_map label (λ o p. mend o) config)
transform_object-transform_map_example = transform_object-transform_map label mend config refl

rename-at_example :
    at
      (rename config ((b'd' ∷ []) ∷ (b'h' ∷ []) ∷ []) ((b'm' ∷ []) ∷ []))
      ((b'm' ∷ []) ∷ (b'h' ∷ []) ∷ [])
    ≡ some (text (b'x' ∷ []))
unfolding below find text_eq is_free extract change erase
rename-at_example =
    rename-at config (b'd' ∷ []) (b'm' ∷ []) ((b'h' ∷ []) ∷ []) [] (text (b'x' ∷ [])) refl refl

merge-at_example :
    (ps' : Pairs) × (merge true config ((b'd' ∷ []) ∷ (b'p' ∷ []) ∷ (b'q' ∷ []) ∷ []) (text [])
      ≡ ok ps')
    × (at ps' ((b'd' ∷ []) ∷ (b'p' ∷ []) ∷ (b'q' ∷ []) ∷ []) ≡ some (text []))
    × ((other : List Text)
        → diverges ((b'd' ∷ []) ∷ (b'p' ∷ []) ∷ (b'q' ∷ []) ∷ []) other ≡ true
        → at ps' other ≡ at config other)
unfolding is_open find text_eq
merge-at_example = merge-at true config (b'd' ∷ []) ((b'p' ∷ []) ∷ (b'q' ∷ []) ∷ []) (text []) refl

find-entries_example :
    ((n : Text) → find_name (sequence tuple (entries config)) n ≡ find_name (map_of param config) n)
    × ((c : Text)
        → find_code (sequence tuple (entries config)) c ≡ find_code (map_of prop config) c)
    × ((idx : ℕ)
        → contains (is_index idx) config ≡ true
        → find_index (sequence tuple (entries config)) idx ≡ find_index (map_of attr config) idx)
find-entries_example = find-entries tuple config
