-- ===== src/Store/Table/Operation.antt =====
-- The operations that change a table, as one step each.
pub mod Integrity
pub mod Follow
pub mod Mirror
pub mod Connect
use cyng.Base.{ℕ, ◌≡◌, Bool, true, List, Option, none, some, All}
use cyng.Base.Result.{Result, ok, err, ◌>>=◌}
use cyng.Store.Meta.{Text, check_integrity}
use cyng.Store.Table.{Env, Row, Table, insert, merge}
use cyng.Store.Table.Modify.{modify, modify_map, modify_param, modify_params}
use cyng.Store.Table.Erase.{erase, erase_if, clear, connect}
use cyng.Store.Table.Rows.{Distinct}
use cyng.Store.Table.Integrity.{Fits}

-- A call of a member function, by the names of the overloads.
pub data Operation (Obj : Type 0) : Type 0 where
  call_insert : List Obj → List Obj → ℕ → ℕ → Operation Obj
  call_merge : List Obj → List Obj → ℕ → ℕ → Operation Obj
  call_modify : List Obj → ℕ × Obj → ℕ → Operation Obj
  call_modify_map : List Obj → List (ℕ × Obj) → ℕ → Operation Obj
  call_modify_param : List Obj → Text × Obj → ℕ → Operation Obj
  call_modify_params : List Obj → List (Text × Obj) → ℕ → Operation Obj
  call_erase : List Obj → ℕ → Operation Obj
  call_erase_if : (Row Obj → Bool) → ℕ → Operation Obj
  call_clear : ℕ → Operation Obj

module _ {Obj : Type 0} (env : Env Obj) where
  -- The table behind the call.
  unfoldable pub perform : Operation Obj → Table Obj → Result (Table Obj)
  perform (call_insert key body generation source) t =
      ok (insert env key body generation source t).0
  perform (call_merge key body generation source) t = do
    (t', _) ← merge env key body generation source t
    ok t'
  perform (call_modify key attr source) t = do (t', _) ← modify env key attr source t; ok t'
  perform (call_modify_map key am source) t = do (t', _) ← modify_map env key am source t; ok t'
  perform (call_modify_param key param source) t = do
    (t', _) ← modify_param env key param source t
    ok t'
  perform (call_modify_params key pm source) t = do
    (t', _) ← modify_params env key pm source t
    ok t'
  perform (call_erase key source) t = ok (erase env key source t).0
  perform (call_erase_if f source) t = ok (erase_if env f source t).0
  perform (call_clear source) t = ok (clear env source t)

  -- Each row has a value for each column, and no two rows have the same key.
  pub record IsValid (t : Table Obj) : Type 0 where
    pub fits : All (Fits t.meta) t.rows
    pub distinct : Distinct env t.rows
