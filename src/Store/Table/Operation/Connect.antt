-- ===== src/Store/Table/Operation/Connect.antt =====
-- `pub::connect`: the copy of a table that a new listener starts from.
use cyng.Base.{
  ℕ, ◌≡◌, refl, sym, ap, ◌∙◌, true, false, List, [], ◌∷◌, ◌++◌, append_assoc, append-nil, none,
  some, arith,
}
use cyng.Store.Pub.{
  Event, inserted, transaction, slot_forward, connect_only, connect_insert, connect_modify,
  connect_remove, connect_clear,
}
use cyng.Store.Pub.Tidy.{count}
use cyng.Store.Pub.Follow.{View, received, received-append, replay, replays}
use cyng.Store.Table.{Env, Row, Table, key_eq, find}
use cyng.Store.Table.Erase.{charge_rows, charge, connect}
use cyng.Store.Table.Rows.{Distinct, find_same}
use cyng.Store.Table.Operation.{IsValid}
use cyng.Store.Table.Operation.Follow.{Mirrors}

module _ {Obj : Type 0} (env : Env Obj) (s : ℕ) (up : env.alive s ≡ true) where
  received-slot_forward :
      (e : Event Obj) (sent : List (ℕ × Event Obj))
      → received s (slot_forward env.alive s e sent) ≡ received s sent ++ e ∷ []
  unfolding slot_forward
  received-slot_forward e sent = rw up (ground (arith, received-append s sent ((s, e) ∷ [])))

  count-append : (slots : List ℕ) → count s slots ≡ 0 → count s (slots ++ s ∷ []) ≡ 1
  count-append [] h = ground arith
  count-append (x ∷ slots) h = ground (arith, count-append slots)

  -- The insertions of `charge`.
  abbrev row_events : List (Row Obj) → List (Event Obj)
  row_events [] = []
  row_events (r ∷ rows) = inserted r.key r.body r.generation 0 ∷ row_events rows

  received-charge_rows :
      (rows : List (Row Obj)) (sent : List (ℕ × Event Obj))
      → received s (charge_rows env s rows sent) ≡ received s sent ++ row_events rows
  unfolding charge_rows
  received-charge_rows [] sent = sym (append-nil _)
  received-charge_rows (r ∷ rows) sent =
      let e = inserted r.key r.body r.generation 0 in
      received-charge_rows rows (slot_forward env.alive s e sent)
      ∙ ap (λ l. l ++ row_events rows) (received-slot_forward e sent)
      ∙ append_assoc (received s sent) (e ∷ []) (row_events rows)

  -- Where the rows have the key, their body; elsewhere what was there before.
  over : List (Row Obj) → View Obj → View Obj
  over rows v j = elim (find env j rows) [ none ↦ v j | some r ↦ some r.body ]

  replays-row_events :
      (rows : List (Row Obj)) (v : View Obj) (j : List Obj)
      → Distinct env rows
      → replays (key_eq env) (row_events rows) v j ≡ over rows v j
  unfolding find over
  replays-row_events [] v j d = refl
  replays-row_events (r ∷ rows) v j d =
      replays-row_events rows (replay (key_eq env) (inserted r.key r.body r.generation 0) v) j d.1
      ∙ ground (arith, d.0, find_same env r.key j rows)

  replays-append :
      (es fs : List (Event Obj)) (v : View Obj)
      → replays (key_eq env) (es ++ fs) v ≡ replays (key_eq env) fs (replays (key_eq env) es v)
  replays-append [] fs v = refl
  replays-append (e ∷ es) fs v = replays-append es fs (replay (key_eq env) e v)

  -- A slot that is there, that was not connected for inserts and has received nothing, gets the whole of
  -- a valid table by `connect`: what it has received then adds up to the body of each key.
  pub connect-Mirrors :
      (t : Table Obj)
      → IsValid env t
      → count s t.pub_.slots_insert ≡ 0
      → received s t.pub_.sent ≡ []
      → Mirrors env s up (connect env s t)
  unfolding connect charge connect_only connect_insert connect_modify connect_remove connect_clear
      over
  connect-Mirrors t v fresh quiet =
      let begun = slot_forward env.alive s (transaction true) t.pub_.sent in
      let filled = charge_rows env s t.rows begun in
      record {
        once = count-append t.pub_.slots_insert fresh;
        copy = λ j.
            ap (λ l. replays (key_eq env) l (λ k. none) j)
              (received-slot_forward (transaction false) filled
                ∙ ap (λ l. l ++ transaction false ∷ [])
                    (received-charge_rows t.rows begun
                      ∙ ap (λ l. l ++ row_events t.rows)
                          (received-slot_forward (transaction true) t.pub_.sent
                            ∙ ap (λ l. l ++ transaction true ∷ []) quiet)))
            ∙ ap (λ w. w j)
                (replays-append (row_events t.rows) (transaction false ∷ [])
                  (replay (key_eq env) (transaction true) (λ k. none)))
            ∙ replays-row_events t.rows (replay (key_eq env) (transaction true) (λ k. none)) j
                v.distinct;
      }
