-- ===== src/Store/Table/Erase.antt =====
-- `erase`, `erase_if`, `clear`, `charge`, `connect` and `loop` of src/store/src/table.cpp.
use cyng.Base.{ℕ, ◌+◌, Bool, true, false, List, [], ◌∷◌, none, some, if◌then◌else◌}
use cyng.Store.Pub.{
  Event, Pub, inserted, removed, cleared, transaction, forward, slot_forward, connect_only,
}
use cyng.Store.Table.{Env, Row, Table, find, delete}

module _ {Obj : Type 0} (env : Env Obj) where
  open env use {alive}

  unfoldable pub erase : List Obj → ℕ → Table Obj → Table Obj × Bool
  unfolding find delete
  erase key source t = elim (find env key t.rows) [
    | none ↦ (t, false)
    | some pos ↦ (
      record t {
        rows = delete env key t.rows;
        pub_ = forward alive (removed key pos.body source) t.pub_;
      },
      true,
    )
  ]

  -- The loop of `erase_if` over the rows: those that stay, the subscribers, and the counter.
  unfoldable pub erase_rows :
      (Row Obj → Bool) → ℕ → List (Row Obj) → Pub Obj → ℕ → List (Row Obj) × Pub Obj × ℕ
  erase_rows f source [] p counter = ([], p, counter)
  erase_rows f source (r ∷ rows) p counter =
      let out = f r in
      let (left, p', counter') =
        erase_rows f source rows (if out then forward alive (removed r.key r.body source) p else p)
          (if out then counter + 1 else counter) in
      (if out then left else r ∷ left, p', counter')

  unfoldable pub erase_if : (Row Obj → Bool) → ℕ → Table Obj → Table Obj × ℕ
  unfolding erase_rows
  erase_if f source t =
      let (rows, p, counter) = erase_rows f source t.rows t.pub_ 0 in
      (record t { rows = rows; pub_ = p }, counter)

  unfoldable pub clear : ℕ → Table Obj → Table Obj
  clear source t = record t { rows = []; pub_ = forward alive (cleared source) t.pub_ }

  -- Each row is sent to the one slot, as an insertion by the nil tag 0.
  unfoldable pub charge_rows : ℕ → List (Row Obj) → List (ℕ × Event Obj) → List (ℕ × Event Obj)
  charge_rows sp [] sent = sent
  charge_rows sp (r ∷ rows) sent =
      charge_rows sp rows (slot_forward alive sp (inserted r.key r.body r.generation 0) sent)

  unfoldable pub charge : ℕ → Table Obj → Table Obj
  unfolding charge_rows
  charge sp t =
      let start = slot_forward alive sp (transaction true) t.pub_.sent in
      let rows = charge_rows sp t.rows start in
      record t { pub_ = record t.pub_ { sent = slot_forward alive sp (transaction false) rows } }

  unfoldable pub connect : ℕ → Table Obj → Table Obj
  unfolding charge
  connect sp t = charge sp (record t { pub_ = connect_only sp t.pub_ })

module _ {Obj : Type 0} where
  -- `loop`: the number of rows before the one at which the callback gives false.
  unfoldable pub loop : (Row Obj → ℕ → Bool) → List (Row Obj) → ℕ → ℕ
  loop f [] counter = counter
  loop f (r ∷ rows) counter =
      let more = loop f rows (counter + 1) in if f r counter then more else counter
