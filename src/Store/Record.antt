-- ===== src/Store/Record.antt =====
-- src/store/src/record.cpp and src/store/src/auto_table.cpp. A `param_map_t` is the function that looks
-- a name up in it; `number` is `make_object` for the generation.
pub mod Fields
use cyng.Base.{
  ℕ, zero, suc, ◌+◌, ◌-◌, Bool, true, false, not, List, [], ◌∷◌, ◌++◌, Option, none, some, ltb,
  if◌then◌else◌, get_elem?,
}
use cyng.Base.Result.{Result, ok, err, out_of_range, ◌>>=◌}
use cyng.Store.Meta.{
  Text, text_eq, Column, MetaStore, size, is_pk, check_integrity, get_index_by_name, loop, gen_name,
}
use cyng.Store.Table.{Table, Env, insert}

-- `body` is `data_`.
pub record Record (Obj : Type 0) : Type 0 where
  pub meta : MetaStore
  pub key : List Obj
  pub body : List Obj
  pub gen : ℕ

abbrev pub ParamMap : Type 0 → Type 0
ParamMap Obj = Text → Option Obj

-- `map[name] = v`
abbrev pub assign : {Obj : Type 0} → ParamMap Obj → Text → Obj → ParamMap Obj
assign m name v n = if text_eq n name then some v else m n

-- `std::vector::at`
abbrev pub fetch : {Obj : Type 0} → List Obj → ℕ → Result Obj
fetch vs idx = elim (get_elem? vs idx) [ none ↦ err out_of_range | some v ↦ ok v ]

module _ {Obj : Type 0} where
  unfoldable pub is_empty : Record Obj → Bool
  unfolding check_integrity
  is_empty r = not (check_integrity r.meta r.key r.body)

  unfoldable pub get_tuple : Record Obj → List Obj
  get_tuple r = r.key ++ r.body

  -- An index past the end gives the null object, here `none`.
  unfoldable pub get_data : Record Obj → ℕ → Option Obj
  get_data r idx = get_elem? r.body idx

  unfoldable pub at_index : Record Obj → ℕ → Result (Option Obj)
  unfolding get_data is_pk
  at_index r idx =
      if ltb idx (size r.meta)
      then if is_pk r.meta idx
        then (do v ← fetch r.key idx; ok (some v))
        else ok (get_data r (idx - r.meta.pk))
      else ok none

  unfoldable pub at_name : Record Obj → Text → Result (Option Obj)
  unfolding at_index get_index_by_name
  at_name r name = at_index r (get_index_by_name r.meta name)

  -- The callback of `to_tuple` for each column.
  unfoldable pub fill :
      Record Obj
      → List (ℕ × Column × Bool)
      → ParamMap Obj
      → ParamMap Obj
      → Result (ParamMap Obj × ParamMap Obj)
  fill r [] key body = ok (key, body)
  fill r ((idx, col, true) ∷ cols) key body = do
    v ← fetch r.key idx
    fill r cols (assign key col.name v) body
  fill r ((idx, col, false) ∷ cols) key body = do
    v ← fetch r.body idx
    fill r cols key (assign body col.name v)

  unfoldable pub assign_all : List (Text × Obj) → ParamMap Obj → ParamMap Obj
  assign_all [] m = m
  assign_all ((name, v) ∷ pm) m = assign_all pm (assign m name v)

  -- The maps "key" and "data" of the tuple.
  unfoldable pub to_tuple :
      (ℕ → Obj) → List (Text × Obj) → Record Obj → Result (ParamMap Obj × ParamMap Obj)
  unfolding fill loop assign_all gen_name
  to_tuple number pm r = do
    (key, body) ← fill r (loop r.meta.pk 0 r.meta.columns) (λ n. none) (λ n. none)
    ok (key, assign_all pm (assign body gen_name (number r.gen)))

  -- The table, its current key, and what `insert` returns; `next_key` is the function `next_key_`.
  unfoldable pub insert_auto :
      (Table Obj → List Obj → List Obj)
      → Env Obj
      → List Obj
      → ℕ
      → Table Obj
      → List Obj
      → Table Obj × List Obj × Bool
  unfolding insert
  insert_auto next_key env body source t current =
      let key = next_key t current in
      let (t', done) = insert env key body 1 source t in (t', key, done)
