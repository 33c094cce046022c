-- ===== src/Dom/Find/Entries.antt =====
-- A map and the sequence of its pairs are searched with the same result.
use cyng.Base.{some, ℕ, ◌≡◌, refl, Bool, true, false, Bool-cases, inl, inr, if◌then◌else◌}
use cyng.Store.Meta.{Text}
use cyng.Dom.{
  Sequence, attr, param, prop, Key, index, name, code, Object, sequence, map_of, pair, Objects, nil,
  cons, Pairs, end, entry,
}
use cyng.Dom.Find.{
  has_index, has_name, has_code, is_index, is_name, is_code, search, find_key, find_at, find_by,
  find_index, find_name, find_code,
}

abbrev pub entries : Pairs → Objects
entries end = nil
entries (entry k o ps) = cons (pair k o) (entries ps)

-- Some key passes the test.
abbrev pub contains : (Key → Bool) → Pairs → Bool
contains test end = false
contains test (entry k o ps) = if test k then true else contains test ps

module _ (test : Object → Bool) (of_key : Key → Bool)
    (same : (k : Key) (o : Object) → test (pair k o) ≡ of_key k) where
  find_by-entries : (ps : Pairs) → find_by test (entries ps) ≡ find_key of_key ps
  unfolding find_by find_key search
  find_by-entries end = refl
  find_by-entries (entry k o ps) = elim (Bool-cases (of_key k)) [
    | inl here ↦ rw (find_by, search, same k o, here) refl
    | inr further ↦ rw (find_by, search, same k o, further) (find_by-entries ps)
  ]

has_index-pair : (idx : ℕ) (k : Key) (o : Object) → has_index idx (pair k o) ≡ is_index idx k
has_index-pair idx (index i) o = refl
has_index-pair idx (name s) o = refl
has_index-pair idx (code c) o = refl

has_name-pair : (n : Text) (k : Key) (o : Object) → has_name n (pair k o) ≡ is_name n k
has_name-pair n (index i) o = refl
has_name-pair n (name s) o = refl
has_name-pair n (code c) o = refl

has_code-pair : (n : Text) (k : Key) (o : Object) → has_code n (pair k o) ≡ is_code n k
has_code-pair n (index i) o = refl
has_code-pair n (name s) o = refl
has_code-pair n (code c) o = refl

search-entries :
    (idx : ℕ) (ps : Pairs)
    → contains (is_index idx) ps ≡ true
    → (o : Object) × (search (has_index idx) (entries ps) ≡ some o)
unfolding search
search-entries idx end h = cc
search-entries idx (entry k o ps) h = elim (Bool-cases (is_index idx k)) [
  | inl here ↦ (pair k o, rw (has_index-pair idx k o, here) refl)
  | inr further ↦
      let (q, e) = search-entries idx ps (rw further at h) in
      (q, rw (has_index-pair idx k o, further) e)
]

-- A name and a code are found in the sequence of the pairs of a map as in the map itself, and so is an
-- index that the map has.
pub find-entries :
    (s : Sequence) (ps : Pairs)
    → ((n : Text) → find_name (sequence s (entries ps)) n ≡ find_name (map_of param ps) n)
      × ((c : Text) → find_code (sequence s (entries ps)) c ≡ find_code (map_of prop ps) c)
      × ((idx : ℕ)
          → contains (is_index idx) ps ≡ true
          → find_index (sequence s (entries ps)) idx ≡ find_index (map_of attr ps) idx)
unfolding find_name find_code find_index find_at find_by
find-entries s ps = (
  λ n. find_by-entries (has_name n) (is_name n) (has_name-pair n) ps,
  λ c. find_by-entries (has_code c) (is_code c) (has_code-pair c) ps,
  λ idx h.
      let (o, e) = search-entries idx ps h in
      let same = find_by-entries (has_index idx) (is_index idx) (has_index-pair idx) ps in
      rw (find_at, e) (rw (find_by, e) at same),
)
