-- ===== src/Store/Tests.antt =====
-- A table with one key column and two others, of numbers that are their own hashes.
use cyng.Base.{
  ℕ, ◌+◌, ◌%◌, ◌^◌, ◌≡◌, refl, Bool, true, false, List, [], ◌∷◌, map, some, leb, arith,
  if◌then◌else◌,
}
use cyng.Base.Result.{ok, ◌>>=◌ as ◌r>>=◌}
use cyng.Store.Meta.{
  Text, loop, Column, MetaStore, to_sql, to_mem, text_eq, gen_name, body_size, check_integrity,
}
use cyng.Store.Meta.Convert.{to_mem-to_sql}
use cyng.Store.Pub.{Pub, forward, modified}
use cyng.Store.Pub.Follow.{received, received-forward}
use cyng.Store.Table.{Env, Row, Table, insert, emplace, merge, find, key_eq}
use cyng.Store.Table.Erase.{erase_if, connect, charge}
use cyng.Store.Table.Merge.{changes, merge_modified}
use cyng.Store.Table.Operation.{call_insert, call_erase_if, perform, IsValid}
use cyng.Store.Table.Operation.Integrity.{perform-IsValid}
use cyng.Store.Table.Operation.Follow.{Mirrors}
use cyng.Store.Table.Operation.Mirror.{perform-Mirrors}
use cyng.Store.Record.{Record, ParamMap, to_tuple, fill, assign_all}
use cyng.Store.Record.Fields.{record_of, named, last_value, or_else, to_tuple_lem}
use cyng.Store.Table.Operation.Connect.{connect-Mirrors}

abbrev first_hash : List ℕ → ℕ
first_hash [] = 0
first_hash (k ∷ key) = k

abbrev env : Env ℕ
env = record { hash = λ x. x; key_hash = first_hash; place = λ rows key. 0; alive = λ s. true }

abbrev column : ℕ → Column
column c = record { name = c ∷ []; type = 9 }

abbrev meta : MetaStore
meta = record { name = b'u' ∷ []; columns = column b'a' ∷ column b'b' ∷ column b'c' ∷ []; pk = 1 }

abbrev row : ℕ → ℕ → ℕ → Row ℕ
row k a b = record { key = k ∷ []; body = a ∷ b ∷ []; generation = 1 }

abbrev quiet : Pub ℕ
quiet = record {
  slots_insert = [];
  slots_modify = [];
  slots_remove = [];
  slots_clear = [];
  sent = [];
}

abbrev two : Table ℕ
two = record { meta = meta; rows = row 1 10 20 ∷ row 2 30 40 ∷ []; pub_ = quiet }

two-IsValid : IsValid env two
unfolding check_integrity body_size find key_eq
two-IsValid = record { fits = (refl, (refl, tt)); distinct = (refl, (refl, tt)) }

-- `insert` refuses a key that is there, and `merge` writes it.
insert_twice : (insert env (1 ∷ []) (5 ∷ 6 ∷ []) 1 0 two).1 ≡ false
unfolding insert emplace find key_eq check_integrity body_size
insert_twice = refl

to_mem-to_sql_example : (to_sql meta (0 ∷ 8 ∷ 16 ∷ []) r>>= to_mem) ≡ ok meta
unfolding text_eq gen_name
to_mem-to_sql_example =
    to_mem-to_sql meta (0 ∷ 8 ∷ 16 ∷ []) b'u' [] refl refl (refl, (refl, (refl, tt))) (omega arith)
      (omega arith)

merge_modified_example :
    (t' : Table ℕ) × (merge env (1 ∷ []) (10 ∷ 21 ∷ []) 7 0 two ≡ ok (t', false))
    × ((r : Row ℕ) × (find env (1 ∷ []) t'.rows ≡ some r)
        × (map env.hash r.body ≡ 10 ∷ 21 ∷ [])
        × (r.generation ≡ (1 + changes env (10 ∷ 20 ∷ []) (10 ∷ 21 ∷ [])) % 2 ^ 64))
unfolding check_integrity body_size find key_eq
merge_modified_example =
    merge_modified env (1 ∷ []) (10 ∷ 21 ∷ []) 7 0 two (row 1 10 20) two-IsValid refl refl
      (omega arith)

connect-Mirrors_example : Mirrors env 4 refl (connect env 4 two)
connect-Mirrors_example = connect-Mirrors env 4 refl two two-IsValid refl refl

-- The rows whose first value is 30 or more.
abbrev large : Row ℕ → Bool
large r = elim r.body [ [] ↦ false | x ∷ xs ↦ leb 30 x ]

perform-IsValid_example : IsValid env (insert env (3 ∷ []) (7 ∷ 8 ∷ []) 1 0 two).0
unfolding perform
perform-IsValid_example =
    perform-IsValid env (call_insert (3 ∷ []) (7 ∷ 8 ∷ []) 1 0) two two-IsValid refl

connected-IsValid : IsValid env (connect env 4 two)
unfolding connect charge
connected-IsValid = record { fits = two-IsValid.fits; distinct = two-IsValid.distinct }

perform-Mirrors_example : Mirrors env 4 refl (erase_if env large 0 (connect env 4 two)).0
unfolding perform
perform-Mirrors_example =
    perform-Mirrors env 4 refl (call_erase_if large 0) (connect env 4 two) connected-IsValid
      (connect-Mirrors env 4 refl two two-IsValid refl refl) refl

-- The slot 5 waits for modifications alone.
abbrev modify_only : Pub ℕ
modify_only = record quiet { slots_insert = 4 ∷ []; slots_modify = 5 ∷ [] }

received-forward_example :
    received 5 (forward env.alive (modified (1 ∷ []) 0 11 (10 ∷ 20 ∷ []) 1 0) modify_only).sent ≡ []
received-forward_example =
    received-forward (key_eq env) env.alive 5 refl (modified (1 ∷ []) 0 11 (10 ∷ 20 ∷ []) 1 0)
      modify_only refl

abbrev triple : Record ℕ
triple =
    record_of (b'u' ∷ []) (column b'a' ∷ []) (column b'b' ∷ column b'c' ∷ []) (1 ∷ [])
      (20 ∷ 30 ∷ []) 7

-- An additional parameter with the name of a column hides the column.
hidden :
    (to_tuple (λ g. g) ((b'c' ∷ [], 40) ∷ []) triple r>>= λ m. ok (m.1 (b'c' ∷ []))) ≡ ok (some 40)
unfolding to_tuple fill loop assign_all text_eq gen_name
hidden = refl

to_tuple_lem_example :
    (k : ParamMap ℕ) × (d : ParamMap ℕ) × (to_tuple (λ g. g) ((b'c' ∷ [], 40) ∷ []) triple
      ≡ ok (k, d))
    × ((n : Text) → k n ≡ last_value n (named (column b'a' ∷ []) (1 ∷ [])))
    × ((n : Text)
        → d n
          ≡ or_else (last_value n ((b'c' ∷ [], 40) ∷ [])) (
              if text_eq n gen_name
              then some 7
              else last_value n (named (column b'b' ∷ column b'c' ∷ []) (20 ∷ 30 ∷ []))))
to_tuple_lem_example =
    to_tuple_lem (λ g. g) ((b'c' ∷ [], 40) ∷ []) (b'u' ∷ []) (column b'a' ∷ [])
      (column b'b' ∷ column b'c' ∷ []) (1 ∷ []) (20 ∷ 30 ∷ []) 7 refl refl
