-- ===== src/Store/Table.antt =====
-- src/store/src/table.cpp and the comparison of keys of src/store/src/key.cpp. An object is
-- known by its hash, which is what `operator==` of src/obj/src/object.cpp compares.
-- The locks are not modelled.
pub mod Modify
pub mod Erase
pub mod Rows
pub mod Integrity
pub mod Operation
pub mod Merge
use cyng.Base.{
  ℕ, zero, suc, ◌+◌, ◌%◌, ◌^◌, Bool, true, false, not, ◌&&◌, List, [], ◌∷◌, ◌++◌, Option, none,
  some, ltb, ◌==◌, if◌then◌else◌, length, get_elem?, set, ◌≡◌,
}
use cyng.Base.Result.{Result, ok, err, out_of_range, ◌>>=◌, ◌>>◌, assert}
use cyng.Store.Meta.{Text, MetaStore, npos, body_size, check_integrity, get_body_index_by_name}
use cyng.Store.Pub
use cyng.Store.Pub.{
  Pub, Event, inserted, modified, removed, cleared, transaction, forward, slot_forward,
  connect_only,
}
use cyng.Store.Pub.Follow.{View}

pub record Row (Obj : Type 0) : Type 0 where
  pub key : List Obj
  pub body : List Obj
  pub generation : ℕ

pub record Table (Obj : Type 0) : Type 0 where
  pub meta : MetaStore
  pub rows : List (Row Obj)
  pub pub_ : Pub Obj

-- `++generation_` of a `std::uint64_t`.
abbrev pub next : ℕ → ℕ
next g = (g + 1) % 2 ^ 64

-- An iterator behind `rows.begin() + n`: a place past the end is the end.
unfoldable pub insert_at {ℓ} : {A : Type ℓ} → ℕ → A → List A → List A
insert_at zero r rows = r ∷ rows
insert_at (suc n) r [] = r ∷ []
insert_at (suc n) r (x ∷ rows) = x ∷ insert_at n r rows

-- What the table does not settle: the hash of an object and of a key, where the container puts a row
-- for a key that is new, and which channels can be locked.
pub record Env (Obj : Type 0) : Type 0 where
  pub hash : Obj → ℕ
  pub key_hash : List Obj → ℕ
  pub place : List (Row Obj) → List Obj → ℕ
  pub alive : ℕ → Bool

module _ {Obj : Type 0} (env : Env Obj) where
  open env use {hash, key_hash, place, alive}

  -- `std::equal_to<key_t>`
  unfoldable pub key_eq : List Obj → List Obj → Bool
  key_eq pk1 pk2 = if length pk1 == length pk2 then key_hash pk1 == key_hash pk2 else false

  unfoldable pub find : List Obj → List (Row Obj) → Option (Row Obj)
  find key [] = none
  find key (r ∷ rows) = if key_eq r.key key then some r else find key rows

  -- The row with the key, changed in its place.
  unfoldable pub change : List Obj → (Row Obj → Row Obj) → List (Row Obj) → List (Row Obj)
  change key f [] = []
  change key f (r ∷ rows) = if key_eq r.key key then f r ∷ rows else r ∷ change key f rows

  unfoldable pub delete : List Obj → List (Row Obj) → List (Row Obj)
  delete key [] = []
  delete key (r ∷ rows) = if key_eq r.key key then rows else r ∷ delete key rows

  -- What `lookup` finds, less the generation.
  abbrev pub view : List (Row Obj) → View Obj
  view rows key = elim (find key rows) [ none ↦ none | some r ↦ some r.body ]

  unfoldable pub exists : List Obj → Table Obj → Bool
  unfolding find
  exists key t = elim (find key t.rows) [ none ↦ false | some r ↦ true ]

  -- The rows and whether a row was inserted.
  unfoldable pub emplace : List Obj → List Obj → ℕ → List (Row Obj) → List (Row Obj) × Bool
  unfolding find insert_at
  emplace key body generation rows = elim (find key rows) [
    | none ↦ (
      insert_at (place rows key) (record { key = key; body = body; generation = generation }) rows,
      true,
    )
    | some r ↦ (rows, false)
  ]

  unfoldable pub insert : List Obj → List Obj → ℕ → ℕ → Table Obj → Table Obj × Bool
  insert key body generation source t =
      if check_integrity t.meta key body
      then (let (rows, done) = emplace key body generation t.rows in
          if done
          then (
            record t {
              rows = rows;
              pub_ = forward alive (inserted key body generation source) t.pub_;
            },
            true,
          )
          else (t, false))
      else (t, false)

  -- The loop of `update`, with the values of the record before `idx` in `done`.
  unfoldable pub update_from :
      List Obj → ℕ → ℕ → List Obj → List Obj → List Obj → ℕ → Pub Obj → List Obj × ℕ × Pub Obj
  update_from key source idx done (old ∷ olds) (new ∷ news) generation p =
      elim (hash old == hash new) [
        | false ↦
            let e = modified key idx new (done ++ new ∷ olds) (next generation) source in
            update_from key source (idx + 1) (done ++ new ∷ []) olds news (next generation)
              (forward alive e p)
        | true ↦ update_from key source (idx + 1) (done ++ old ∷ []) olds news generation p
      ]
  update_from key source idx done olds news generation p = (done ++ olds, generation, p)

  unfoldable pub update : Row Obj → List Obj → List Obj → ℕ → Table Obj → Result (Table Obj)
  unfolding update_from change
  update pos key body source t = do
    assert (length body == length pos.body)
    let (body', generation, p) = update_from key source 0 [] pos.body body pos.generation t.pub_
    ok (record t {
      rows = change key (λ r. record r { body = body'; generation = generation }) t.rows;
      pub_ = p;
    })

  -- True only for an insertion.
  unfoldable pub merge : List Obj → List Obj → ℕ → ℕ → Table Obj → Result (Table Obj × Bool)
  unfolding find insert_at
  merge key body generation source t =
      if check_integrity t.meta key body
      then elim (find key t.rows) [
        | none ↦ ok (
          record t {
            rows =
                insert_at (place t.rows key)
                  (record { key = key; body = body; generation = generation }) t.rows;
            pub_ = forward alive (inserted key body generation source) t.pub_;
          },
          true,
        )
        | some pos ↦ do t' ← update pos key body source t; ok (t', false)
      ]
      else ok (t, false)
