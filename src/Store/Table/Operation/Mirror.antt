-- ===== src/Store/Table/Operation/Mirror.antt =====
-- The copy of a listener under every operation of a table.
use cyng.Base.{
  ℕ, ◌≡◌, sym, ap, subst, Bool, true, false, Bool-cases, Option-cases, inl, inr, List, [], ◌∷◌,
  ◌++◌, append_assoc, none, ◌==◌, ltb, arith,
}
use cyng.Base.Result.{Result, ok, err, ◌>>=◌, Ensures, Ensures->>=, Ensures_ok, Result-cases}
use cyng.Store.Meta.{npos, body_size}
use cyng.Store.Pub.{Pub, cleared}
use cyng.Store.Pub.Follow.{Follows}
use cyng.Store.Table.{Env, Row, Table, key_eq, find, delete, view}
use cyng.Store.Table.Modify.{
  at, modify, modify_attrs, modify_map, modify_param, modify_params, attr_map,
}
use cyng.Store.Table.Erase.{erase, erase_rows, erase_if, clear}
use cyng.Store.Table.Rows.{Distinct, key_eq_refl, find-delete, key_eq_sym}
use cyng.Store.Table.Integrity.{delete-Distinct}
use cyng.Store.Table.Operation.{
  Operation, call_insert, call_merge, call_modify, call_modify_map, call_modify_param,
  call_modify_params, call_erase, call_erase_if, call_clear, perform, IsValid,
}
use cyng.Store.Table.Operation.Follow.{
  Mirrors, signalled, insert-Mirrors, merge-Mirrors, apply_attr-Mirrors,
}

module _ {Obj : Type 0} (env : Env Obj) (s : ℕ) (up : env.alive s ≡ true) where
  at-Ensures : (xs : List Obj) (idx : ℕ) → Ensures (λ (x : Obj). Unit {0}) (at xs idx)
  at-Ensures xs idx = elim (Result-cases (at xs idx)) [
    | inl (a, e) ↦ rw e tt
    | inr (f, e) ↦ rw e tt
  ]

  modify-Mirrors :
      (key : List Obj) (attr : ℕ × Obj) (source : ℕ) (t : Table Obj)
      → Mirrors env s up t
      → Ensures (λ (r : Table Obj × Bool). Mirrors env s up r.0) (modify env key attr source t)
  unfolding modify
  modify-Mirrors key (idx, value) source t f = elim (Option-cases (find env key t.rows)) [
    | inl absent ↦ rw (modify, absent, Ensures) f
    | inr (pos, there) ↦
        rw (modify, there)
          (Ensures->>= (λ x. Unit {0}) _ (at pos.body idx) _ (at-Ensures pos.body idx)
            (λ old u. elim (Bool-cases (env.hash old == env.hash value)) [
              | inl same ↦ rw same f
              | inr other ↦
                  rw other (apply_attr-Mirrors env s up key source pos idx value t there f)
            ]))
  ]

  modify_attrs-Mirrors :
      (key : List Obj) (source : ℕ) (am : List (ℕ × Obj)) (t : Table Obj)
      → Mirrors env s up t
      → Ensures (Mirrors env s up) (modify_attrs env key source am t)
  unfolding modify_attrs
  modify_attrs-Mirrors key source [] t f = f
  modify_attrs-Mirrors key source ((idx, value) ∷ am) t f = elim (Bool-cases (idx == npos)) [
    | inl unknown ↦ rw (unknown, Ensures) tt
    | inr known ↦ rw known (elim (Option-cases (find env key t.rows)) [
      | inl absent ↦ rw (absent, Ensures) f
      | inr (pos, there) ↦ elim (Bool-cases (ltb idx (body_size t.meta))) [
        | inl inside ↦
            rw (there, inside)
              (Ensures->>= (λ x. Unit {0}) _ (at pos.body idx) _ (at-Ensures pos.body idx)
                (λ old u. elim (Bool-cases (env.hash old == env.hash value)) [
                  | inl same ↦ rw same (modify_attrs-Mirrors key source am t f)
                  | inr other ↦ rw other (
                      modify_attrs-Mirrors key source am _
                        (apply_attr-Mirrors env s up key source pos idx value t there f))
                ]))
        | inr outside ↦ rw (there, outside) (modify_attrs-Mirrors key source am t f)
      ]
    ])
  ]

  modify_map-Mirrors :
      (key : List Obj) (am : List (ℕ × Obj)) (source : ℕ) (t : Table Obj)
      → Mirrors env s up t
      → Ensures (λ (r : Table Obj × Bool). Mirrors env s up r.0) (modify_map env key am source t)
  unfolding modify_map
  modify_map-Mirrors key am source t f = elim (Option-cases (find env key t.rows)) [
    | inl absent ↦ rw (modify_map, absent, Ensures) f
    | inr (pos, there) ↦
        rw (modify_map, there)
          (Ensures->>= (Mirrors env s up) _ (modify_attrs env key source am t) _
            (modify_attrs-Mirrors key source am t f) (λ t' f'. f'))
  ]

  erase-Mirrors :
      (key : List Obj) (source : ℕ) (t : Table Obj)
      → Distinct env t.rows
      → Mirrors env s up t
      → Mirrors env s up (erase env key source t).0
  unfolding erase
  erase-Mirrors key source t d f = elim (Option-cases (find env key t.rows)) [
    | inl absent ↦ rw (erase, absent) f
    | inr (pos, there) ↦
        rw (erase, there)
          (signalled env s up _ t.pub_ (view env t.rows) _ f
            (λ j. ground (arith, find-delete env key j t.rows d)))
  ]

  find-ne :
      (front rows : List (Row Obj)) (r : Row Obj) (k : List Obj)
      → find env k (front ++ r ∷ rows) ≡ none
      → key_eq env r.key k ≡ false
  unfolding find
  find-ne [] rows r k h = ground arith
  find-ne (x ∷ front) rows r k h = find-ne front rows r k (ground arith)

  delete-append :
      (front rows : List (Row Obj)) (r : Row Obj)
      → Distinct env (front ++ r ∷ rows)
      → delete env r.key (front ++ r ∷ rows) ≡ front ++ rows
  unfolding delete
  delete-append [] rows r d = rw (key_eq_refl env r.key)
  delete-append (x ∷ front) rows r d = ground (
    arith,
    find-ne front rows r x.key d.0,
    key_eq_sym env x.key r.key,
    delete-append front rows r d.1,
  )

  erase_rows-Follows :
      (f : Row Obj → Bool) (source : ℕ) (front rows : List (Row Obj)) (p : Pub Obj) (n : ℕ)
      → Distinct env (front ++ rows)
      → Follows (key_eq env) s p (view env (front ++ rows))
      → Follows
          (key_eq env)
          s
          (erase_rows env f source rows p n).1
          (view env (front ++ (erase_rows env f source rows p n).0))
  unfolding erase_rows
  erase_rows-Follows f source front [] p n d m = m
  erase_rows-Follows f source front (r ∷ rows) p n d m = elim (Bool-cases (f r)) [
    | inl out ↦
        let gone = delete-append front rows r d in
        rw out (
          erase_rows-Follows f source front rows _ _
            (subst (Distinct env) gone (delete-Distinct env r.key (front ++ r ∷ rows) d))
            (signalled env s up _ p (view env (front ++ r ∷ rows)) _ m (λ j.
              ground (arith, ap (find env j) gone, find-delete env r.key j (front ++ r ∷ rows) d))))
    | inr stay ↦
        let moved = append_assoc front (r ∷ []) rows in
        rw stay (
          subst (λ l. Follows (key_eq env) s (erase_rows env f source rows p n).1 (view env l))
            (append_assoc front (r ∷ []) (erase_rows env f source rows p n).0)
            (erase_rows-Follows f source (front ++ r ∷ []) rows p n
              (subst (Distinct env) (sym moved) d)
              (subst (λ l. Follows (key_eq env) s p (view env l)) (sym moved) m)))
  ]

  first-Mirrors :
      (m : Result (Table Obj × Bool))
      → Ensures (λ (r : Table Obj × Bool). Mirrors env s up r.0) m
      → Ensures (Mirrors env s up) (do (t', _) ← m; ok t')
  first-Mirrors (ok r) h = h
  first-Mirrors (err e) h = tt

  perform-Ensures :
      (o : Operation Obj) (t : Table Obj)
      → IsValid env t
      → Mirrors env s up t
      → Ensures (Mirrors env s up) (perform env o t)
  unfolding perform modify_param modify_params clear erase_if
  perform-Ensures (call_insert key body g source) t v f =
      insert-Mirrors env s up key body g source t f
  perform-Ensures (call_merge key body g source) t v f =
      first-Mirrors _ (merge-Mirrors env s up key body g source t f)
  perform-Ensures (call_modify key attr source) t v f =
      first-Mirrors _ (modify-Mirrors key attr source t f)
  perform-Ensures (call_modify_map key am source) t v f =
      first-Mirrors _ (modify_map-Mirrors key am source t f)
  perform-Ensures (call_modify_param key param source) t v f =
      first-Mirrors _ (modify-Mirrors key _ source t f)
  perform-Ensures (call_modify_params key pm source) t v f =
      first-Mirrors _ (modify_map-Mirrors key (attr_map env t.meta pm []) source t f)
  perform-Ensures (call_erase key source) t v f = erase-Mirrors key source t v.distinct f
  perform-Ensures (call_erase_if g source) t v f =
      erase_rows-Follows g source [] t.rows t.pub_ 0 v.distinct f
  perform-Ensures (call_clear source) t v f =
      signalled env s up (cleared source) t.pub_ (view env t.rows) _ f (λ j. ground arith)

  -- A listener whose slot is there and connected once for inserts, and that carries out every event it
  -- receives, still has the body of each key of a valid table behind each operation that returns.
  pub perform-Mirrors :
      (o : Operation Obj) (t : Table Obj) {t' : Table Obj}
      → IsValid env t
      → Mirrors env s up t
      → perform env o t ≡ ok t'
      → Mirrors env s up t'
  perform-Mirrors o t {t'} v f e =
      Ensures_ok (Mirrors env s up) (perform env o t) t' (perform-Ensures o t v f) e
