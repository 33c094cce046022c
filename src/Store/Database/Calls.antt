-- ===== src/Store/Database/Calls.antt =====
-- Calls of the database, one after the other, and what they keep of its tables.
use cyng.Base.{ℕ, ◌≡◌, Bool, List, [], ◌∷◌, none, All}
use cyng.Base.Result.{Result, ok, ◌>>=◌}
use cyng.Store.Meta.{Text, MetaStore}
use cyng.Store.Table.{Env, Row, Table}
use cyng.Store.Table.Operation.{IsValid}
use cyng.Store.Database.{
  Tables, lookup, create_table, create_auto_table, insert, insert_row, merge, erase, erase_if,
  modify, modify_param, modify_params, clear, connect, connect_only, connect_insert, connect_modify,
  connect_remove, connect_clear, disconnect, disconnect_all,
}

-- A call of a member function; the text is the table's name.
pub data Call (Obj : Type 0) : Type 0 where
  creates : MetaStore → Call Obj
  creates_auto : MetaStore → List Obj → (Table Obj → List Obj → List Obj) → Call Obj
  inserts : Text → List Obj → List Obj → ℕ → ℕ → Call Obj
  inserts_row : Text → List Obj → ℕ → Call Obj
  merges : Text → List Obj → List Obj → ℕ → ℕ → Call Obj
  erases : Text → List Obj → ℕ → Call Obj
  erases_if : Text → (Row Obj → Bool) → ℕ → Call Obj
  modifies : Text → List Obj → ℕ × Obj → ℕ → Call Obj
  modifies_param : Text → List Obj → Text × Obj → ℕ → Call Obj
  modifies_params : Text → List Obj → List (Text × Obj) → ℕ → Call Obj
  clears : Text → ℕ → Call Obj
  connects : Text → ℕ → Call Obj
  connects_only : Text → ℕ → Call Obj
  connects_insert : Text → ℕ → Call Obj
  connects_modify : Text → ℕ → Call Obj
  connects_remove : Text → ℕ → Call Obj
  connects_clear : Text → ℕ → Call Obj
  disconnects : Text → ℕ → Call Obj
  disconnects_all : ℕ → Call Obj

abbrev pub tables_of {ℓ} :
    {Obj : Type 0} {R : Type ℓ} → Result (Tables Obj × R) → Result (Tables Obj)
tables_of m = do (tables, r) ← m; ok tables

module _ {Obj : Type 0} (env : Env Obj) (checked : Bool) where
  unfoldable pub step : Call Obj → Tables Obj → Result (Tables Obj)
  step (creates m) ts = ok (create_table m ts).0
  step (creates_auto m key f) ts = ok (create_auto_table m key f ts).0
  step (inserts n key body g source) ts = tables_of (insert env checked n key body g source ts)
  step (inserts_row n body source) ts = tables_of (insert_row env checked n body source ts)
  step (merges n key body g source) ts = tables_of (merge env checked n key body g source ts)
  step (erases n key source) ts = tables_of (erase env checked n key source ts)
  step (erases_if n f source) ts = tables_of (erase_if env checked n f source ts)
  step (modifies n key attr source) ts = tables_of (modify env checked n key attr source ts)
  step (modifies_param n key param source) ts =
      tables_of (modify_param env checked n key param source ts)
  step (modifies_params n key pm source) ts =
      tables_of (modify_params env checked n key pm source ts)
  step (clears n source) ts = tables_of (clear env checked n source ts)
  step (connects n sp) ts = tables_of (connect env checked n sp ts)
  step (connects_only n sp) ts = tables_of (connect_only checked n sp ts)
  step (connects_insert n sp) ts = tables_of (connect_insert checked n sp ts)
  step (connects_modify n sp) ts = tables_of (connect_modify checked n sp ts)
  step (connects_remove n sp) ts = tables_of (connect_remove checked n sp ts)
  step (connects_clear n sp) ts = tables_of (connect_clear checked n sp ts)
  step (disconnects n sp) ts = tables_of (disconnect checked n sp ts)
  step (disconnects_all sp) ts = ok (disconnect_all sp ts).0

  unfoldable pub play : List (Call Obj) → Tables Obj → Result (Tables Obj)
  unfolding step
  play [] ts = ok ts
  play (call ∷ calls) ts = do ts' ← step call ts; play calls ts'

-- Each table has another name.
abbrev pub Named : {Obj : Type 0} → Tables Obj → Type 0
Named [] = Unit
Named ((n, e) ∷ ts) = (lookup n ts ≡ none) × Named ts

-- The tables have different names, and each is valid.
pub record IsIntact {Obj : Type 0} (env : Env Obj) (ts : Tables Obj) : Type 0 where
  pub named : Named ts
  pub valid : All (λ t. IsValid env t.1.table) ts
