-- ===== src/Store/Table/Operation/Follow.antt =====
-- A listener that carries out the events it receives keeps a copy of the table.
use cyng.Base.{
  ℕ, ◌+◌, ◌≡◌, refl, sym, ap, subst, ◌∙◌, Bool, true, Bool-cases, Option-cases, inl, inr, List, [],
  ◌∷◌, ◌++◌, append_assoc, none, some, ◌==◌, if◌then◌else◌, arith, length, length-append, set,
}
use cyng.Base.Result.{Ensures}
use cyng.Store.Meta.{check_integrity}
use cyng.Store.Pub.{Pub, Event, forward, inserted, modified}
use cyng.Store.Pub.Follow.{View, Follows, replay, forward-Follows, Follows-ext}
use cyng.Store.Table.{
  Env, Row, Table, insert_at, key_eq, find, change, view, insert, emplace, update_from, update,
  merge, next,
}
use cyng.Store.Table.Modify.{apply_attr}
use cyng.Store.Table.Rows.{find_same, find-insert_at, find-change}

set-append :
    {A : Type 0} (done olds : List A) (old new : A)
    → set (done ++ old ∷ olds) (length done) new ≡ done ++ new ∷ olds
set-append [] olds old new = refl
set-append (x ∷ done) olds old new = ap (◌∷◌ x) (set-append done olds old new)

module _ {Obj : Type 0} (env : Env Obj) (s : ℕ) (up : env.alive s ≡ true) where
  -- The slot's copy of the table is what a lookup finds.
  abbrev pub Mirrors : Table Obj → Type 0
  Mirrors t = Follows (key_eq env) s t.pub_ (view env t.rows)

  pub signalled :
      (e : Event Obj) (p : Pub Obj) (v w : View Obj)
      → Follows (key_eq env) s p v
      → ((j : List Obj) → replay (key_eq env) e v j ≡ w j)
      → Follows (key_eq env) s (forward env.alive e p) w
  signalled e p v w f h =
      Follows-ext (key_eq env) _ w (forward-Follows (key_eq env) env.alive s up e p v f) h

  insert_at-Mirrors :
      (key body : List Obj) (g n source : ℕ) (t : Table Obj)
      → find env key t.rows ≡ none
      → Mirrors t
      → Follows
          (key_eq env)
          s
          (forward env.alive (inserted key body g source) t.pub_)
          (view env (insert_at n (record { key = key; body = body; generation = g }) t.rows))
  insert_at-Mirrors key body g n source t absent f = signalled _ t.pub_ (view env t.rows) _ f (λ j.
      let r : Row Obj = record { key = key; body = body; generation = g } in
      ground (arith, find-insert_at env n r t.rows j))

  pub insert-Mirrors :
      (key body : List Obj) (g source : ℕ) (t : Table Obj)
      → Mirrors t
      → Mirrors (insert env key body g source t).0
  unfolding insert emplace
  insert-Mirrors key body g source t f = elim (Bool-cases (check_integrity t.meta key body)) [
    | inl fit ↦ elim (Option-cases (find env key t.rows)) [
      | inl absent ↦
          rw (fit, emplace, absent)
            (insert_at-Mirrors key body g (env.place t.rows key) source t absent f)
      | inr (r, there) ↦ rw (fit, emplace, there) f
    ]
    | inr misfit ↦ rw misfit f
  ]

  -- The copy with another body for one key.
  abbrev with_body : List Obj → List Obj → View Obj → View Obj
  with_body key body v j = if key_eq env key j then some body else v j

  view-change :
      (key body : List Obj) (pos : Row Obj) (g : ℕ) (rows : List (Row Obj)) (j : List Obj)
      → find env key rows ≡ some pos
      → with_body key body (view env rows) j
        ≡ view env (change env key (λ r. record r { body = body; generation = g }) rows) j
  view-change key body pos g rows j there = ground (
    arith,
    find-change env key j (λ r. record r { body = body; generation = g }) rows (λ r. refl),
  )

  pub apply_attr-Mirrors :
      (key : List Obj) (source : ℕ) (pos : Row Obj) (idx : ℕ) (value : Obj) (t : Table Obj)
      → find env key t.rows ≡ some pos
      → Mirrors t
      → Mirrors (apply_attr env key source pos idx value t)
  unfolding apply_attr
  apply_attr-Mirrors key source pos idx value t there f =
      signalled _ t.pub_ (view env t.rows) _ f (λ j.
        let step : replay (key_eq env) (modified key idx value pos.body pos.generation source)
              (view env t.rows) j
            ≡ with_body key (set pos.body idx value) (view env t.rows) j =
          ground (arith, find_same env key j t.rows) in
        step ∙ view-change key (set pos.body idx value) pos (next pos.generation) t.rows j there)

  update_from-Follows :
      (key : List Obj) (source idx : ℕ) (done olds news : List Obj) (g : ℕ) (p : Pub Obj)
      (v : View Obj)
      → idx ≡ length done
      → Follows (key_eq env) s p (with_body key (done ++ olds) v)
      → Follows
          (key_eq env)
          s
          (update_from env key source idx done olds news g p).2
          (with_body key (update_from env key source idx done olds news g p).0 v)
  unfolding update_from
  update_from-Follows key source idx done [] news g p v e f = f
  update_from-Follows key source idx done (o ∷ olds) [] g p v e f = f
  update_from-Follows key source idx done (o ∷ olds) (n ∷ news) g p v e f =
      elim (Bool-cases (env.hash o == env.hash n)) [
        | inl same ↦
            rw (same, update_from)
              (update_from-Follows key source (idx + 1) (done ++ o ∷ []) olds news g p v
                (omega (arith, length-append done (o ∷ [])))
                (subst (λ l. Follows (key_eq env) s p (with_body key l v))
                  (sym (append_assoc done (o ∷ []) olds)) f))
        | inr other ↦
            rw (other, update_from)
              (update_from-Follows key source (idx + 1) (done ++ n ∷ []) olds news (next g) _ v
                (omega (arith, length-append done (n ∷ [])))
                (signalled _ p _ _ f
                  (λ j. ground (arith, append_assoc done (n ∷ []) olds, set-append done olds o n))))
      ]

  pub merge-Mirrors :
      (key body : List Obj) (g source : ℕ) (t : Table Obj)
      → Mirrors t
      → Ensures (λ (r : Table Obj × Bool). Mirrors r.0) (merge env key body g source t)
  unfolding merge update
  merge-Mirrors key body g source t f = elim (Bool-cases (check_integrity t.meta key body)) [
    | inl fit ↦ elim (Option-cases (find env key t.rows)) [
      | inl absent ↦
          rw (fit, absent, Ensures)
            (insert_at-Mirrors key body g (env.place t.rows key) source t absent f)
      | inr (pos, there) ↦ elim (Bool-cases (length body == length pos.body)) [
        | inl same ↦
            rw (fit, there, same, Ensures)
              (Follows-ext (key_eq env) _ _
                (update_from-Follows key source 0 [] pos.body body pos.generation t.pub_
                  (view env t.rows) refl
                  (Follows-ext (key_eq env) (view env t.rows) _ f
                    (λ j. ground (arith, find_same env key j t.rows))))
                (λ j. view-change key _ pos _ t.rows j there))
        | inr other ↦ rw (fit, there, other, Ensures) tt
      ]
    ]
    | inr misfit ↦ rw (misfit, Ensures) f
  ]
