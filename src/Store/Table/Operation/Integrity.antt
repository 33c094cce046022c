-- ===== src/Store/Table/Operation/Integrity.antt =====
-- Every operation that returns keeps a table valid.
use cyng.Base.{
  ℕ, ◌≡◌, refl, ◌∙◌, Bool, true, Bool-cases, Option-cases, inl, inr, List, [], ◌∷◌, none, some,
  ◌==◌, ltb, arith, length,
}
use cyng.Base.Result.{Result, ok, err, ◌>>=◌, Ensures, Ensures->>=, Ensures_ok, Result-cases}
use cyng.Store.Meta.{npos, body_size, check_integrity}
use cyng.Store.Pub.{Pub}
use cyng.Store.Table.{Env, Row, Table, insert_at, find, change, insert, emplace, update, merge}
use cyng.Store.Table.Modify.{
  at, apply_attr, modify, modify_attrs, modify_map, modify_param, modify_params, attr_map,
}
use cyng.Store.Table.Erase.{erase, erase_if, clear}
use cyng.Store.Table.Integrity.{
  length-set, check_integrity-length, insert_at-All, insert_at-Distinct, change-All,
  change-Distinct, delete-All, delete-Distinct, length-update_from, erase_rows-All,
  erase_rows-Distinct,
}
use cyng.Store.Table.Operation.{
  Operation, call_insert, call_merge, call_modify, call_modify_map, call_modify_param,
  call_modify_params, call_erase, call_erase_if, call_clear, perform, IsValid,
}

module _ {Obj : Type 0} (env : Env Obj) where
  insert_at-IsValid :
      (key body : List Obj) (g n : ℕ) (p : Pub Obj) (t : Table Obj)
      → IsValid env t
      → check_integrity t.meta key body ≡ true
      → find env key t.rows ≡ none
      → IsValid env (record t {
        rows = insert_at n (record { key = key; body = body; generation = g }) t.rows;
        pub_ = p;
      })
  insert_at-IsValid key body g n p t v fit absent = record {
    fits = insert_at-All t.meta n _ t.rows fit v.fits;
    distinct = insert_at-Distinct env n _ t.rows absent v.distinct;
  }

  pub insert-IsValid :
      (key body : List Obj) (g source : ℕ) (t : Table Obj)
      → IsValid env t
      → IsValid env (insert env key body g source t).0
  unfolding insert emplace
  insert-IsValid key body g source t v = elim (Bool-cases (check_integrity t.meta key body)) [
    | inl fit ↦ elim (Option-cases (find env key t.rows)) [
      | inl absent ↦
          rw (fit, emplace, absent)
            (insert_at-IsValid key body g (env.place t.rows key) _ t v fit absent)
      | inr (r, there) ↦ rw (fit, emplace, there) v
    ]
    | inr misfit ↦ rw misfit v
  ]

  -- A change of the body that keeps its length.
  change-IsValid :
      (key : List Obj) (pos : Row Obj) (body : List Obj) (g : ℕ) (p : Pub Obj) (t : Table Obj)
      → IsValid env t
      → find env key t.rows ≡ some pos
      → length body ≡ length pos.body
      → IsValid env (record t {
        rows = change env key (λ r. record r { body = body; generation = g }) t.rows;
        pub_ = p;
      })
  change-IsValid key pos body g p t v there same = record {
    fits =
        change-All env t.meta key _ t.rows
          (λ r e fit.
            check_integrity-length t.meta r.key r.body body (ground (arith, same, there, e)) ∙ fit)
          v.fits;
    distinct = change-Distinct env key _ t.rows (λ r. refl) v.distinct;
  }

  update-IsValid :
      (pos : Row Obj) (key body : List Obj) (source : ℕ) (t : Table Obj)
      → IsValid env t
      → find env key t.rows ≡ some pos
      → Ensures (IsValid env) (update env pos key body source t)
  unfolding update
  update-IsValid pos key body source t v there =
      elim (Bool-cases (length body == length pos.body)) [
        | inl same ↦
            rw (same, Ensures)
              (change-IsValid key pos _ _ _ t v there (
                length-update_from env key source 0 [] pos.body body pos.generation t.pub_
                ∙ omega arith))
        | inr other ↦ rw (other, Ensures) tt
      ]

  pub merge-IsValid :
      (key body : List Obj) (g source : ℕ) (t : Table Obj)
      → IsValid env t
      → Ensures (λ (r : Table Obj × Bool). IsValid env r.0) (merge env key body g source t)
  unfolding merge
  merge-IsValid key body g source t v = elim (Bool-cases (check_integrity t.meta key body)) [
    | inl fit ↦ elim (Option-cases (find env key t.rows)) [
      | inl absent ↦
          rw (fit, absent, Ensures)
            (insert_at-IsValid key body g (env.place t.rows key) _ t v fit absent)
      | inr (r, there) ↦
          rw (fit, there)
            (Ensures->>= (IsValid env) _ (update env r key body source t) _
              (update-IsValid r key body source t v there) (λ t' v'. v'))
    ]
    | inr misfit ↦ rw (misfit, Ensures) v
  ]

  apply_attr-IsValid :
      (key : List Obj) (source : ℕ) (pos : Row Obj) (idx : ℕ) (value : Obj) (t : Table Obj)
      → IsValid env t
      → find env key t.rows ≡ some pos
      → IsValid env (apply_attr env key source pos idx value t)
  unfolding apply_attr
  apply_attr-IsValid key source pos idx value t v there =
      change-IsValid key pos _ _ _ t v there (length-set pos.body idx value)

  at-Ensures : (xs : List Obj) (idx : ℕ) → Ensures (λ (x : Obj). Unit {0}) (at xs idx)
  at-Ensures xs idx = elim (Result-cases (at xs idx)) [
    | inl (a, e) ↦ rw e tt
    | inr (f, e) ↦ rw e tt
  ]

  pub modify-IsValid :
      (key : List Obj) (attr : ℕ × Obj) (source : ℕ) (t : Table Obj)
      → IsValid env t
      → Ensures (λ (r : Table Obj × Bool). IsValid env r.0) (modify env key attr source t)
  unfolding modify
  modify-IsValid key (idx, value) source t v = elim (Option-cases (find env key t.rows)) [
    | inl absent ↦ rw (modify, absent, Ensures) v
    | inr (pos, there) ↦
        rw (modify, there)
          (Ensures->>= (λ x. Unit {0}) _ (at pos.body idx) _ (at-Ensures pos.body idx)
            (λ old u. elim (Bool-cases (env.hash old == env.hash value)) [
              | inl same ↦ rw same v
              | inr other ↦ rw other (apply_attr-IsValid key source pos idx value t v there)
            ]))
  ]

  modify_attrs-IsValid :
      (key : List Obj) (source : ℕ) (am : List (ℕ × Obj)) (t : Table Obj)
      → IsValid env t
      → Ensures (IsValid env) (modify_attrs env key source am t)
  unfolding modify_attrs
  modify_attrs-IsValid key source [] t v = v
  modify_attrs-IsValid key source ((idx, value) ∷ am) t v = elim (Bool-cases (idx == npos)) [
    | inl unknown ↦ rw (unknown, Ensures) tt
    | inr known ↦ rw known (elim (Option-cases (find env key t.rows)) [
      | inl absent ↦ rw (absent, Ensures) v
      | inr (pos, there) ↦ elim (Bool-cases (ltb idx (body_size t.meta))) [
        | inl inside ↦
            rw (there, inside)
              (Ensures->>= (λ x. Unit {0}) _ (at pos.body idx) _ (at-Ensures pos.body idx)
                (λ old u. elim (Bool-cases (env.hash old == env.hash value)) [
                  | inl same ↦ rw same (modify_attrs-IsValid key source am t v)
                  | inr other ↦ rw other (
                      modify_attrs-IsValid key source am _
                        (apply_attr-IsValid key source pos idx value t v there))
                ]))
        | inr outside ↦ rw (there, outside) (modify_attrs-IsValid key source am t v)
      ]
    ])
  ]

  pub modify_map-IsValid :
      (key : List Obj) (am : List (ℕ × Obj)) (source : ℕ) (t : Table Obj)
      → IsValid env t
      → Ensures (λ (r : Table Obj × Bool). IsValid env r.0) (modify_map env key am source t)
  unfolding modify_map
  modify_map-IsValid key am source t v = elim (Option-cases (find env key t.rows)) [
    | inl absent ↦ rw (modify_map, absent, Ensures) v
    | inr (pos, there) ↦
        rw (modify_map, there)
          (Ensures->>= (IsValid env) _ (modify_attrs env key source am t) _
            (modify_attrs-IsValid key source am t v) (λ t' v'. v'))
  ]

  pub erase-IsValid :
      (key : List Obj) (source : ℕ) (t : Table Obj)
      → IsValid env t
      → IsValid env (erase env key source t).0
  unfolding erase
  erase-IsValid key source t v = elim (Option-cases (find env key t.rows)) [
    | inl absent ↦ rw (erase, absent) v
    | inr (pos, there) ↦
        rw (erase, there)
          (record {
            fits = delete-All env t.meta key t.rows v.fits;
            distinct = delete-Distinct env key t.rows v.distinct;
          })
  ]

  pub erase_if-IsValid :
      (f : Row Obj → Bool) (source : ℕ) (t : Table Obj)
      → IsValid env t
      → IsValid env (erase_if env f source t).0
  unfolding erase_if
  erase_if-IsValid f source t v = record {
    fits = erase_rows-All env f source t.meta t.rows t.pub_ 0 v.fits;
    distinct = erase_rows-Distinct env f source t.rows t.pub_ 0 v.distinct;
  }

  first-IsValid :
      (m : Result (Table Obj × Bool))
      → Ensures (λ (r : Table Obj × Bool). IsValid env r.0) m
      → Ensures (IsValid env) (do (t', _) ← m; ok t')
  first-IsValid (ok r) h = h
  first-IsValid (err e) h = tt

  perform-Ensures :
      (o : Operation Obj) (t : Table Obj) → IsValid env t → Ensures (IsValid env) (perform env o t)
  unfolding perform modify_param modify_params clear
  perform-Ensures (call_insert key body g source) t v = insert-IsValid key body g source t v
  perform-Ensures (call_merge key body g source) t v =
      first-IsValid _ (merge-IsValid key body g source t v)
  perform-Ensures (call_modify key attr source) t v =
      first-IsValid _ (modify-IsValid key attr source t v)
  perform-Ensures (call_modify_map key am source) t v =
      first-IsValid _ (modify_map-IsValid key am source t v)
  perform-Ensures (call_modify_param key param source) t v =
      first-IsValid _ (modify-IsValid key _ source t v)
  perform-Ensures (call_modify_params key pm source) t v =
      first-IsValid _ (modify_map-IsValid key (attr_map env t.meta pm []) source t v)
  perform-Ensures (call_erase key source) t v = erase-IsValid key source t v
  perform-Ensures (call_erase_if f source) t v = erase_if-IsValid f source t v
  perform-Ensures (call_clear source) t v = record { fits = tt; distinct = tt }

  -- Behind each operation on a valid table that returns, every row has a value for each column, and
  -- no two rows have the same key.
  pub perform-IsValid :
      (o : Operation Obj) (t : Table Obj) {t' : Table Obj}
      → IsValid env t
      → perform env o t ≡ ok t'
      → IsValid env t'
  perform-IsValid o t {t'} v e =
      Ensures_ok (IsValid env) (perform env o t) t' (perform-Ensures o t v) e
