-- ===== src/Store/Database/Integrity.antt =====
-- Every call that returns keeps the tables of the database valid and their names different.
use cyng.Base.{ℕ, ◌≡◌, Bool, Option-cases, inl, inr, List, [], ◌∷◌}
use cyng.Base.Result.{ok, Ensures, Ensures->>=, Ensures_ok}
use cyng.Store.Meta.{Text, MetaStore, get_body_index_by_name}
use cyng.Store.Pub
use cyng.Store.Pub.{Pub, cleared}
use cyng.Store.Table
use cyng.Store.Table.{Env, Row, Table}
use cyng.Store.Table.Modify
use cyng.Store.Table.Erase
use cyng.Store.Table.Operation.{IsValid}
use cyng.Store.Table.Operation.Integrity.{
  insert-IsValid, merge-IsValid, modify-IsValid, modify_map-IsValid, erase-IsValid,
  erase_if-IsValid,
}
use cyng.Store.Record.{insert_auto}
use cyng.Store.Database.{
  Tables, create_table, create_auto_table, insert, insert_row, merge, erase, erase_if, modify,
  modify_param, modify_params, clear, connect, connect_only, connect_insert, connect_modify,
  connect_remove, connect_clear, disconnect,
}
use cyng.Store.Database.Calls.{
  Call, creates, creates_auto, inserts, inserts_row, merges, erases, erases_if, modifies,
  modifies_param, modifies_params, clears, connects, connects_only, connects_insert,
  connects_modify, connects_remove, connects_clear, disconnects, disconnects_all, tables_of, step,
  play, IsIntact,
}
use cyng.Store.Database.Entries.{
  pub_-IsValid, access-IsIntact, on_table-IsIntact, create-IsIntact, disconnect_all-IsIntact,
}

module _ {Obj : Type 0} (env : Env Obj) where
  no_rows-IsValid :
      (m : MetaStore) (p : Pub Obj) → IsValid env (record { meta = m; rows = []; pub_ = p })
  no_rows-IsValid m p = record { fits = tt; distinct = tt }

  insert_row-IsIntact :
      (checked : Bool) (n : Text) (body : List Obj) (source : ℕ) (ts : Tables Obj)
      → IsIntact env ts
      → Ensures (IsIntact env) (tables_of (insert_row env checked n body source ts))
  unfolding insert_row insert_auto
  insert_row-IsIntact checked n body source ts s =
      access-IsIntact env checked n _ ts
        (λ e v. elim (Option-cases e.auto_key) [
          | inl plain ↦ rw plain v
          | inr ((current, f), auto) ↦
              rw auto (insert-IsValid env (f e.table current) body 1 source e.table v)
        ])
        s

  step-IsIntact :
      (checked : Bool) (call : Call Obj) (ts : Tables Obj)
      → IsIntact env ts
      → Ensures (IsIntact env) (step env checked call ts)
  unfolding step create_table create_auto_table insert merge erase erase_if modify modify_param
      modify_params clear connect connect_only connect_insert connect_modify connect_remove
      connect_clear disconnect Modify.modify_param Modify.modify_params Erase.clear Erase.connect
      Erase.charge
  step-IsIntact checked (creates m) ts s = create-IsIntact env _ ts (no_rows-IsValid m _) s
  step-IsIntact checked (creates_auto m key f) ts s =
      create-IsIntact env _ ts (no_rows-IsValid m _) s
  step-IsIntact checked (inserts n key body g source) ts s =
      on_table-IsIntact env checked n (λ t. ok (Table.insert env key body g source t)) ts
        (insert-IsValid env key body g source) s
  step-IsIntact checked (inserts_row n body source) ts s =
      insert_row-IsIntact checked n body source ts s
  step-IsIntact checked (merges n key body g source) ts s =
      on_table-IsIntact env checked n (Table.merge env key body g source) ts
        (merge-IsValid env key body g source) s
  step-IsIntact checked (erases n key source) ts s =
      on_table-IsIntact env checked n (λ t. ok (Erase.erase env key source t)) ts
        (erase-IsValid env key source) s
  step-IsIntact checked (erases_if n f source) ts s =
      on_table-IsIntact env checked n (λ t. ok (Erase.erase_if env f source t)) ts
        (erase_if-IsValid env f source) s
  step-IsIntact checked (modifies n key attr source) ts s =
      on_table-IsIntact env checked n (Modify.modify env key attr source) ts
        (modify-IsValid env key attr source) s
  step-IsIntact checked (modifies_param n key param source) ts s =
      on_table-IsIntact env checked n (Modify.modify_param env key param source) ts
        (λ t. modify-IsValid env key (get_body_index_by_name t.meta param.0, param.1) source t) s
  step-IsIntact checked (modifies_params n key pm source) ts s =
      on_table-IsIntact env checked n (Modify.modify_params env key pm source) ts
        (λ t. modify_map-IsValid env key (Modify.attr_map env t.meta pm []) source t) s
  step-IsIntact checked (clears n source) ts s =
      on_table-IsIntact env checked n (λ t. ok (Erase.clear env source t, tt)) ts
        (λ t v. no_rows-IsValid t.meta (Pub.forward env.alive (cleared source) t.pub_)) s
  step-IsIntact checked (connects n sp) ts s =
      on_table-IsIntact env checked n (λ t. ok (Erase.connect env sp t, tt)) ts
        (λ t. pub_-IsValid env (Erase.connect env sp t).pub_ t) s
  step-IsIntact checked (connects_only n sp) ts s =
      on_table-IsIntact env checked n (λ t. ok (record t { pub_ = Pub.connect_only sp t.pub_ }, tt))
        ts (λ t. pub_-IsValid env (Pub.connect_only sp t.pub_) t) s
  step-IsIntact checked (connects_insert n sp) ts s =
      on_table-IsIntact env checked n
        (λ t. ok (record t { pub_ = Pub.connect_insert sp t.pub_ }, tt)) ts
        (λ t. pub_-IsValid env (Pub.connect_insert sp t.pub_) t) s
  step-IsIntact checked (connects_modify n sp) ts s =
      on_table-IsIntact env checked n
        (λ t. ok (record t { pub_ = Pub.connect_modify sp t.pub_ }, tt)) ts
        (λ t. pub_-IsValid env (Pub.connect_modify sp t.pub_) t) s
  step-IsIntact checked (connects_remove n sp) ts s =
      on_table-IsIntact env checked n
        (λ t. ok (record t { pub_ = Pub.connect_remove sp t.pub_ }, tt)) ts
        (λ t. pub_-IsValid env (Pub.connect_remove sp t.pub_) t) s
  step-IsIntact checked (connects_clear n sp) ts s =
      on_table-IsIntact env checked n
        (λ t. ok (record t { pub_ = Pub.connect_clear sp t.pub_ }, tt)) ts
        (λ t. pub_-IsValid env (Pub.connect_clear sp t.pub_) t) s
  step-IsIntact checked (disconnects n sp) ts s =
      on_table-IsIntact env checked n
        (λ t. ok (record t { pub_ = (Pub.disconnect sp t.pub_).0 }, tt)) ts
        (λ t. pub_-IsValid env (Pub.disconnect sp t.pub_).0 t) s
  step-IsIntact checked (disconnects_all sp) ts s = disconnect_all-IsIntact env sp ts s

  play-Ensures :
      (checked : Bool) (calls : List (Call Obj)) (ts : Tables Obj)
      → IsIntact env ts
      → Ensures (IsIntact env) (play env checked calls ts)
  unfolding play
  play-Ensures checked [] ts s = s
  play-Ensures checked (call ∷ calls) ts s =
      Ensures->>= (IsIntact env) (IsIntact env) (step env checked call ts) (play env checked calls)
        (step-IsIntact checked call ts s) (play-Ensures checked calls)

  -- Behind any calls that return, on a database that starts with no table, the tables have different
  -- names, each row has a value for each column of its table, and no two rows of a table have the
  -- same key.
  pub play-IsIntact :
      (checked : Bool) (calls : List (Call Obj)) {ts : Tables Obj}
      → play env checked calls [] ≡ ok ts
      → IsIntact env ts
  play-IsIntact checked calls {ts} e =
      Ensures_ok (IsIntact env) (play env checked calls []) ts
        (play-Ensures checked calls [] (record { named = tt; valid = tt })) e
