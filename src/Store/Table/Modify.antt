-- ===== src/Store/Table/Modify.antt =====
-- The functions `modify` of src/store/src/table.cpp. An `attr_map_t` is the list of its pairs, by rising
-- index.
use cyng.Base.{
  ℕ, Bool, true, false, not, List, [], ◌∷◌, none, some, ltb, ◌==◌, if◌then◌else◌, get_elem?, set,
}
use cyng.Base.Result.{Result, ok, err, out_of_range, ◌>>=◌, ◌>>◌, assert}
use cyng.Store.Meta.{Text, MetaStore, npos, body_size, get_body_index_by_name}
use cyng.Store.Pub.{modified, forward}
use cyng.Store.Table.{Env, Row, Table, next, find, change}

-- `data_.at(idx)`
abbrev pub at {ℓ} : {A : Type ℓ} → List A → ℕ → Result A
at xs idx = elim (get_elem? xs idx) [ none ↦ err out_of_range | some x ↦ ok x ]

module _ {Obj : Type 0} (env : Env Obj) where
  open env use {hash, alive}

  -- The event carries the record and its generation as they were before.
  unfoldable pub apply_attr : List Obj → ℕ → Row Obj → ℕ → Obj → Table Obj → Table Obj
  unfolding change
  apply_attr key source pos idx value t = record t {
    rows =
        change env key
          (λ r. record r { body = set pos.body idx value; generation = next pos.generation })
          t.rows;
    pub_ = forward alive (modified key idx value pos.body pos.generation source) t.pub_;
  }

  -- `modify` with one attribute.
  unfoldable pub modify : List Obj → ℕ × Obj → ℕ → Table Obj → Result (Table Obj × Bool)
  unfolding find apply_attr
  modify key (idx, value) source t = elim (find env key t.rows) [
    | none ↦ ok (t, false)
    | some pos ↦ do
      old ← at pos.body idx
      ok (elim (hash old == hash value) [
        | false ↦ (apply_attr key source pos idx value t, true)
        | true ↦ (t, false)
      ])
  ]

  -- The loop over an attribute map; the record is looked up again where the code holds an iterator.
  unfoldable pub modify_attrs : List Obj → ℕ → List (ℕ × Obj) → Table Obj → Result (Table Obj)
  unfolding find apply_attr
  modify_attrs key source [] t = ok t
  modify_attrs key source ((idx, value) ∷ am) t = do
    assert (not (idx == npos))
    elim (find env key t.rows) [
      | none ↦ ok t
      | some pos ↦ elim (ltb idx (body_size t.meta)) [
        | false ↦ modify_attrs key source am t
        | true ↦ do
          old ← at pos.body idx
          modify_attrs key source am
              (if not (hash old == hash value) then apply_attr key source pos idx value t else t)
      ]
    ]

  -- `modify` with an attribute map: true if the record is there.
  unfoldable pub modify_map : List Obj → List (ℕ × Obj) → ℕ → Table Obj → Result (Table Obj × Bool)
  unfolding find modify_attrs
  modify_map key am source t = elim (find env key t.rows) [
    | none ↦ ok (t, false)
    | some pos ↦ do t' ← modify_attrs key source am t; ok (t', true)
  ]

  -- `modify` with one parameter.
  unfoldable pub modify_param : List Obj → Text × Obj → ℕ → Table Obj → Result (Table Obj × Bool)
  unfolding modify
  modify_param key (name, value) source t =
      modify key (get_body_index_by_name t.meta name, value) source t

  -- `std::inserter` into the map: an index that is there already is kept.
  unfoldable pub insert_attr : ℕ → Obj → List (ℕ × Obj) → List (ℕ × Obj)
  insert_attr idx value [] = (idx, value) ∷ []
  insert_attr idx value ((i, v) ∷ am) =
      if ltb idx i
      then (idx, value) ∷ (i, v) ∷ am
      else if idx == i
      then (i, v) ∷ am
      else (i, v) ∷ insert_attr idx value am

  unfoldable pub attr_map : MetaStore → List (Text × Obj) → List (ℕ × Obj) → List (ℕ × Obj)
  unfolding insert_attr
  attr_map m [] am = am
  attr_map m ((name, value) ∷ pm) am =
      attr_map m pm (insert_attr (get_body_index_by_name m name) value am)

  -- `modify` with a parameter map.
  unfoldable pub modify_params :
      List Obj → List (Text × Obj) → ℕ → Table Obj → Result (Table Obj × Bool)
  unfolding modify_map attr_map
  modify_params key pm source t = modify_map key (attr_map t.meta pm []) source t
