-- ===== src/Store/Database/Isolation/Runs.antt =====
-- A table goes through what the calls make of it that concern it, whatever is done to the others.
use cyng.Base.{
  ℕ, ◌≡◌, refl, ◌∙◌, Bool, true, false, Bool-cases, some, none, inl, inr, List, [], ◌∷◌, arith, sym,
}
use cyng.Base.Result.{Result, ok, Result-cases}
use cyng.Store.Meta.{Text, text_eq}
use cyng.Store.Pub
use cyng.Store.Table
use cyng.Store.Table.{Env, Table}
use cyng.Store.Table.Modify
use cyng.Store.Table.Erase
use cyng.Store.Record.{insert_auto}
use cyng.Store.Database.{
  Entry, create, access, on_table, on_pub, new_table, Tables, lookup, create_table,
  create_auto_table, insert, insert_row, merge, erase, erase_if, modify, modify_param,
  modify_params, clear, connect, connect_only, connect_insert, connect_modify, connect_remove,
  connect_clear, disconnect, disconnect_all,
}
use cyng.Store.Database.Calls.{
  Call, creates, creates_auto, inserts, inserts_row, merges, erases, erases_if, modifies,
  modifies_param, modifies_params, clears, connects, connects_only, connects_insert,
  connects_modify, connects_remove, connects_clear, disconnects, disconnects_all, tables_of, step,
  play,
}
use cyng.Store.Database.Isolation.{
  concerns, only, Follows, Keeps, access-Follows, access-Keeps, create-Follows, create-Keeps,
  lookup-disconnect_all,
}

module _ {Obj : Type 0} (env : Env Obj) (checked : Bool) where
  -- A call creates a table, changes one by `access`, or disconnects a slot from all tables.
  data Form (call : Call Obj) : Type 1 where
    making :
        (e : Entry Obj)
        → ((n : Text) → concerns n call ≡ text_eq e.table.meta.name n)
        → ((ts : Tables Obj) → step env checked call ts ≡ ok (create e ts).0)
        → Form call
    changing :
        {R : Type 0} (name : Text) (f : Entry Obj → Result (Entry Obj × R))
        → ((n : Text) → concerns n call ≡ text_eq name n)
        → ((ts : Tables Obj) → step env checked call ts ≡ tables_of (access checked name f ts))
        → Form call
    leaving :
        (sp : ℕ)
        → ((n : Text) → concerns n call ≡ true)
        → ((ts : Tables Obj) → step env checked call ts ≡ ok (disconnect_all sp ts).0)
        → Form call

  -- The change of an `auto_table`, with the next key.
  abbrev change_row : List Obj → ℕ → Entry Obj → Result (Entry Obj × Bool)
  change_row body source e = elim e.auto_key [
    | none ↦ ok (e, false)
    | some (current, f) ↦
        let (t, key, done) = insert_auto f env body source e.table current in
        ok (record { table = t; auto_key = some (key, f) }, done)
  ]

  form : (call : Call Obj) → Form call
  unfolding step concerns create_table create_auto_table insert insert_row merge erase erase_if
      modify modify_param modify_params clear connect connect_only connect_insert connect_modify
      connect_remove connect_clear disconnect
  form (creates m) =
      making (record { table = new_table m; auto_key = none }) (λ n. refl) (λ ts. refl)
  form (creates_auto m key f) =
      making (record { table = new_table m; auto_key = some (key, f) }) (λ n. refl) (λ ts. refl)
  form (inserts name key body g source) =
      changing name (on_table (λ t. ok (Table.insert env key body g source t))) (λ n. refl)
        (λ ts. refl)
  form (inserts_row name body source) =
      changing name (change_row body source) (λ n. refl) (λ ts. refl)
  form (merges name key body g source) =
      changing name (on_table (Table.merge env key body g source)) (λ n. refl) (λ ts. refl)
  form (erases name key source) =
      changing name (on_table (λ t. ok (Erase.erase env key source t))) (λ n. refl) (λ ts. refl)
  form (erases_if name f source) =
      changing name (on_table (λ t. ok (Erase.erase_if env f source t))) (λ n. refl) (λ ts. refl)
  form (modifies name key attr source) =
      changing name (on_table (Modify.modify env key attr source)) (λ n. refl) (λ ts. refl)
  form (modifies_param name key param source) =
      changing name (on_table (Modify.modify_param env key param source)) (λ n. refl) (λ ts. refl)
  form (modifies_params name key pm source) =
      changing name (on_table (Modify.modify_params env key pm source)) (λ n. refl) (λ ts. refl)
  form (clears name source) =
      changing name (on_table (λ t. ok (Erase.clear env source t, tt))) (λ n. refl) (λ ts. refl)
  form (connects name sp) =
      changing name (on_table (λ t. ok (Erase.connect env sp t, tt))) (λ n. refl) (λ ts. refl)
  form (connects_only name sp) =
      changing name (on_pub (Pub.connect_only sp)) (λ n. refl) (λ ts. refl)
  form (connects_insert name sp) =
      changing name (on_pub (Pub.connect_insert sp)) (λ n. refl) (λ ts. refl)
  form (connects_modify name sp) =
      changing name (on_pub (Pub.connect_modify sp)) (λ n. refl) (λ ts. refl)
  form (connects_remove name sp) =
      changing name (on_pub (Pub.connect_remove sp)) (λ n. refl) (λ ts. refl)
  form (connects_clear name sp) =
      changing name (on_pub (Pub.connect_clear sp)) (λ n. refl) (λ ts. refl)
  form (disconnects name sp) =
      changing name (on_pub (λ p. (Pub.disconnect sp p).0)) (λ n. refl) (λ ts. refl)
  form (disconnects_all sp) = leaving sp (λ n. refl) (λ ts. refl)

  -- A call that concerns the table sees no more of the database than this table.
  step-Follows :
      (n : Text) (call : Call Obj) (ts us : Tables Obj)
      → Form call
      → concerns n call ≡ true
      → lookup n us ≡ lookup n ts
      → Follows n (step env checked call ts) (step env checked call us)
  step-Follows n call ts us (making e c s) h agree =
      rw (s ts, s us) (unfold Follows in (_, refl, create-Follows n e ts us (sym (c n) ∙ h) agree))
  step-Follows n call ts us (changing name f c s) h agree =
      rw (s ts, s us) (access-Follows checked name n f ts us (sym (c n) ∙ h) agree)
  step-Follows n call ts us (leaving sp c s) h agree =
      rw (s ts, s us)
        (unfold Follows in
          (_, refl, rw (lookup-disconnect_all sp n us, lookup-disconnect_all sp n ts, agree) refl))

  step-Keeps :
      (n : Text) (call : Call Obj) (ts : Tables Obj)
      → Form call
      → concerns n call ≡ false
      → Keeps n ts (step env checked call ts)
  step-Keeps n call ts (making e c s) h =
      rw (s ts) (unfold Keeps in create-Keeps n e ts (sym (c n) ∙ h))
  step-Keeps n call ts (changing name f c s) h =
      rw (s ts) (access-Keeps checked name n f ts (sym (c n) ∙ h))
  step-Keeps n call ts (leaving sp c s) h = ground (arith, c n, h)

  -- Let a run of calls return, on a database of any tables, and take the calls alone that concern a
  -- table: those that create it or name it, and those that disconnect a slot from all tables. On a
  -- database in which the name stands for the same table or for none in both, they return too, and
  -- then the name stands for the same as behind the whole run.
  pub play-only :
      (n : Text) (calls : List (Call Obj)) (ts us ts' : Tables Obj)
      → lookup n us ≡ lookup n ts
      → play env checked calls ts ≡ ok ts'
      → (us' : Tables Obj) × (play env checked (only n calls) us ≡ ok us')
        × (lookup n us' ≡ lookup n ts')
  unfolding play only Follows Keeps
  play-only n [] ts us ts' agree e = (us, refl, agree ∙ ground (arith, e))
  play-only n (call ∷ calls) ts us ts' agree e = elim (Result-cases (step env checked call ts)) [
    | inr (fault, failed) ↦ ground (arith, failed, e)
    | inl (ts1, done) ↦
        let more = rw done at e in
        elim (Bool-cases (concerns n call)) [
          | inl named ↦
              let (us1, done', agree1) =
                rw done at (step-Follows n call ts us (form call) named agree) in
              let (us', f, same) = play-only n calls ts1 us1 ts' agree1 more in
              (us', rw (named, done') f, same)
          | inr other ↦
              let kept = rw done at (step-Keeps n call ts (form call) other) in
              let (us', f, same) = play-only n calls ts1 us ts' (agree ∙ sym kept) more in
              (us', rw other f, same)
        ]
  ]
