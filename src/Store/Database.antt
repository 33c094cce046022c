-- ===== src/Store/Database.antt =====
-- src/store/src/db.cpp and include/cyng/store/db.h: the tables by their names. The locks are not modelled.
pub mod Access
pub mod Calls
pub mod Entries
pub mod Integrity
pub mod Isolation
mod Tests
use cyng.Base.{ℕ, ◌+◌, Bool, true, false, List, [], ◌∷◌, Option, none, some, if◌then◌else◌, length}
use cyng.Base.Result.{Result, ok, err, assertion, exception, Fault, ◌>>=◌}
use cyng.Store.Meta.{Text, text_eq, MetaStore}
use cyng.Store.Pub
use cyng.Store.Pub.{Pub}
use cyng.Store.Table
use cyng.Store.Table.{Env, Row, Table}
use cyng.Store.Table.Modify
use cyng.Store.Table.Erase
use cyng.Store.Record.{insert_auto}

-- A table, or an `auto_table` with its current key and the function for the next key.
pub record Entry (Obj : Type 0) : Type 0 where
  pub table : Table Obj
  pub auto_key : Option (List Obj × (Table Obj → List Obj → List Obj))

-- The order of the map, by name, has no effect and is not kept.
abbrev pub Tables : Type 0 → Type 0
Tables Obj = List (Text × Entry Obj)

abbrev pub new_table : {Obj : Type 0} → MetaStore → Table Obj
new_table m = record {
  meta = m;
  rows = [];
  pub_ = record {
    slots_insert = [];
    slots_modify = [];
    slots_remove = [];
    slots_clear = [];
    sent = [];
  };
}

module _ {Obj : Type 0} where
  unfoldable pub lookup : Text → Tables Obj → Option (Entry Obj)
  unfolding text_eq
  lookup name [] = none
  lookup name ((n, e) ∷ tables) = if text_eq n name then some e else lookup name tables

  unfoldable pub replace : Text → Entry Obj → Tables Obj → Tables Obj
  unfolding text_eq
  replace name e [] = []
  replace name e ((n, old) ∷ tables) =
      let rest = replace name e tables in
      if text_eq n name then (n, e) ∷ tables else (n, old) ∷ rest

  -- `emplace`
  unfoldable pub create : Entry Obj → Tables Obj → Tables Obj × Bool
  unfolding lookup
  create e tables = elim (lookup e.table.meta.name tables) [
    | none ↦ ((e.table.meta.name, e) ∷ tables, true)
    | some old ↦ (tables, false)
  ]

  unfoldable pub create_table : MetaStore → Tables Obj → Tables Obj × Bool
  unfolding create
  create_table m tables = create (record { table = new_table m; auto_key = none }) tables

  unfoldable pub create_auto_table :
      MetaStore → List Obj → (Table Obj → List Obj → List Obj) → Tables Obj → Tables Obj × Bool
  unfolding create
  create_auto_table m start_key f tables =
      create (record { table = new_table m; auto_key = some (start_key, f) }) tables

  -- `access` to one table. Without assertions, the lock of a missing table has no mutex and throws. The
  -- value of the function is what it writes to captured variables: `access` itself returns nothing.
  unfoldable pub access {ℓ} :
      {R : Type ℓ}
      → Bool
      → Text
      → (Entry Obj → Result (Entry Obj × R))
      → Tables Obj
      → Result (Tables Obj × R)
  unfolding lookup replace
  access checked name f tables = elim (lookup name tables) [
    | none ↦ err (if checked then assertion else exception [])
    | some e ↦ do (e', r) ← f e; ok (replace name e' tables, r)
  ]

  abbrev pub on_table {ℓ} :
      {R : Type ℓ} → (Table Obj → Result (Table Obj × R)) → Entry Obj → Result (Entry Obj × R)
  on_table f e = do (t, r) ← f e.table; ok (record e { table = t }, r)

  unfoldable pub size : Bool → Text → Tables Obj → Result (Tables Obj × ℕ)
  unfolding access
  size checked name = access checked name (λ e. ok (e, length e.table.rows))

  -- A function of the table's subscribers.
  abbrev pub on_pub : (Pub Obj → Pub Obj) → Entry Obj → Result (Entry Obj × Unit {0})
  on_pub f e = ok (record e { table = record e.table { pub_ = f e.table.pub_ } }, tt)

  unfoldable pub connect_only : Bool → Text → ℕ → Tables Obj → Result (Tables Obj × Unit {0})
  unfolding access
  connect_only checked name sp = access checked name (on_pub (Pub.connect_only sp))

  unfoldable pub connect_insert : Bool → Text → ℕ → Tables Obj → Result (Tables Obj × Unit {0})
  unfolding access
  connect_insert checked name sp = access checked name (on_pub (Pub.connect_insert sp))

  unfoldable pub connect_modify : Bool → Text → ℕ → Tables Obj → Result (Tables Obj × Unit {0})
  unfolding access
  connect_modify checked name sp = access checked name (on_pub (Pub.connect_modify sp))

  unfoldable pub connect_remove : Bool → Text → ℕ → Tables Obj → Result (Tables Obj × Unit {0})
  unfolding access
  connect_remove checked name sp = access checked name (on_pub (Pub.connect_remove sp))

  unfoldable pub connect_clear : Bool → Text → ℕ → Tables Obj → Result (Tables Obj × Unit {0})
  unfolding access
  connect_clear checked name sp = access checked name (on_pub (Pub.connect_clear sp))

  unfoldable pub disconnect : Bool → Text → ℕ → Tables Obj → Result (Tables Obj × Unit {0})
  unfolding access
  disconnect checked name sp = access checked name (on_pub (λ p. (Pub.disconnect sp p).0))

  -- From all tables; the number of those that it was connected to.
  unfoldable pub disconnect_all : ℕ → Tables Obj → Tables Obj × ℕ
  disconnect_all sp [] = ([], 0)
  disconnect_all sp ((name, e) ∷ tables) =
      let (rest, counter) = disconnect_all sp tables in
      let (p, done) = Pub.disconnect sp e.table.pub_ in
      (
        (name, record e { table = record e.table { pub_ = p } }) ∷ rest,
        if done then counter + 1 else counter,
      )

  module _ (env : Env Obj) (checked : Bool) (name : Text) where
    unfoldable pub insert : List Obj → List Obj → ℕ → ℕ → Tables Obj → Result (Tables Obj × Bool)
    unfolding access
    insert key body generation source =
        access checked name (on_table (λ t. ok (Table.insert env key body generation source t)))

    unfoldable pub insert_row : List Obj → ℕ → Tables Obj → Result (Tables Obj × Bool)
    unfolding access insert_auto
    insert_row body source = access checked name (λ e. elim e.auto_key [
      | none ↦ ok (e, false)
      | some (current, f) ↦
          let (t, key, done) = insert_auto f env body source e.table current in
          ok (record { table = t; auto_key = some (key, f) }, done)
    ])

    unfoldable pub merge : List Obj → List Obj → ℕ → ℕ → Tables Obj → Result (Tables Obj × Bool)
    unfolding access
    merge key body generation source =
        access checked name (on_table (Table.merge env key body generation source))

    unfoldable pub erase : List Obj → ℕ → Tables Obj → Result (Tables Obj × Bool)
    unfolding access
    erase key source = access checked name (on_table (λ t. ok (Erase.erase env key source t)))

    unfoldable pub erase_if : (Row Obj → Bool) → ℕ → Tables Obj → Result (Tables Obj × ℕ)
    unfolding access
    erase_if f source = access checked name (on_table (λ t. ok (Erase.erase_if env f source t)))

    unfoldable pub modify : List Obj → ℕ × Obj → ℕ → Tables Obj → Result (Tables Obj × Bool)
    unfolding access
    modify key attr source = access checked name (on_table (Modify.modify env key attr source))

    unfoldable pub modify_param :
        List Obj → Text × Obj → ℕ → Tables Obj → Result (Tables Obj × Bool)
    unfolding access
    modify_param key param source =
        access checked name (on_table (Modify.modify_param env key param source))

    unfoldable pub modify_params :
        List Obj → List (Text × Obj) → ℕ → Tables Obj → Result (Tables Obj × Bool)
    unfolding access
    modify_params key pm source =
        access checked name (on_table (Modify.modify_params env key pm source))

    unfoldable pub clear : ℕ → Tables Obj → Result (Tables Obj × Unit {0})
    unfolding access
    clear source = access checked name (on_table (λ t. ok (Erase.clear env source t, tt)))

    unfoldable pub connect : ℕ → Tables Obj → Result (Tables Obj × Unit {0})
    unfolding access
    connect sp = access checked name (on_table (λ t. ok (Erase.connect env sp t, tt)))
