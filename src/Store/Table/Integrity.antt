-- ===== src/Store/Table/Integrity.antt =====
-- The rows of a table fit its columns and have different keys, whatever changes them.
use cyng.Base.{
  ℕ, zero, suc, ◌+◌, ◌≡◌, refl, ap, ◌∙◌, Bool, true, Bool-cases, inl, inr, List, [], ◌∷◌, ◌++◌,
  none, some, ◌==◌, arith, length, length-append, set, All,
}
use cyng.Store.Meta.{MetaStore, check_integrity}
use cyng.Store.Pub.{modified, Pub, forward}
use cyng.Store.Table.{Env, Row, insert_at, key_eq, find, change, delete, update_from, next}
use cyng.Store.Table.Erase.{erase_rows}
use cyng.Store.Table.Rows.{Distinct, find-insert_at, find-change, find-delete, key_eq_sym}

pub length-set {ℓ} : {A : Type ℓ} (xs : List A) (i : ℕ) (v : A) → length (set xs i v) ≡ length xs
length-set [] i v = refl
length-set (x ∷ xs) zero v = refl
length-set (x ∷ xs) (suc i) v = ap suc (length-set xs i v)

pub check_integrity-length {ℓ} :
    {A : Type ℓ} (m : MetaStore) (key body body' : List A)
    → length body' ≡ length body
    → check_integrity m key body' ≡ check_integrity m key body
unfolding check_integrity
check_integrity-length m key body body' h = rw h

module _ {Obj : Type 0} where
  -- The row has a value for each column.
  abbrev pub Fits : MetaStore → Row Obj → Type 0
  Fits m r = check_integrity m r.key r.body ≡ true

  pub insert_at-All :
      (m : MetaStore) (n : ℕ) (r : Row Obj) (rows : List (Row Obj))
      → Fits m r
      → All (Fits m) rows
      → All (Fits m) (insert_at n r rows)
  unfolding insert_at
  insert_at-All m zero r rows h k = (h, k)
  insert_at-All m (suc n) r [] h k = (h, tt)
  insert_at-All m (suc n) r (x ∷ rows) h k = (k.0, insert_at-All m n r rows h k.1)

  module _ (env : Env Obj) where
    pub insert_at-Distinct :
        (n : ℕ) (r : Row Obj) (rows : List (Row Obj))
        → find env r.key rows ≡ none
        → Distinct env rows
        → Distinct env (insert_at n r rows)
    unfolding insert_at find
    insert_at-Distinct zero r rows h k = (h, k)
    insert_at-Distinct (suc n) r [] h k = (refl, tt)
    insert_at-Distinct (suc n) r (x ∷ rows) h k = (
      ground (arith, find-insert_at env n r rows x.key, key_eq_sym env r.key x.key, k.0),
      insert_at-Distinct n r rows (ground arith) k.1,
    )

    pub change-All :
        (m : MetaStore) (key : List Obj) (f : Row Obj → Row Obj) (rows : List (Row Obj))
        → ((r : Row Obj) → find env key rows ≡ some r → Fits m r → Fits m (f r))
        → All (Fits m) rows
        → All (Fits m) (change env key f rows)
    unfolding change find
    change-All m key f [] h k = tt
    change-All m key f (x ∷ rows) h k = elim (Bool-cases (key_eq env x.key key)) [
      | inl same ↦ rw (same, All) (h x (rw same) k.0, k.1)
      | inr other ↦ rw (other, All) (k.0, change-All m key f rows (λ r e. h r (rw other e)) k.1)
    ]

    pub change-Distinct :
        (key : List Obj) (f : Row Obj → Row Obj) (rows : List (Row Obj))
        → ((r : Row Obj) → (f r).key ≡ r.key)
        → Distinct env rows
        → Distinct env (change env key f rows)
    unfolding change find
    change-Distinct key f [] h k = tt
    change-Distinct key f (x ∷ rows) h k = elim (Bool-cases (key_eq env x.key key)) [
      | inl same ↦ rw (same, Distinct) (ap (λ q. find env q rows) (h x) ∙ k.0, k.1)
      | inr other ↦
          rw (other, Distinct)
            (
              ground
                  (arith, find-change env key x.key f rows h, key_eq_sym env key x.key, k.0, other),
              change-Distinct key f rows h k.1,
            )
    ]

    pub delete-All :
        (m : MetaStore) (key : List Obj) (rows : List (Row Obj))
        → All (Fits m) rows
        → All (Fits m) (delete env key rows)
    unfolding delete
    delete-All m key [] k = tt
    delete-All m key (x ∷ rows) k = elim (Bool-cases (key_eq env x.key key)) [
      | inl same ↦ rw same k.1
      | inr other ↦ rw (other, All) (k.0, delete-All m key rows k.1)
    ]

    pub delete-Distinct :
        (key : List Obj) (rows : List (Row Obj))
        → Distinct env rows
        → Distinct env (delete env key rows)
    unfolding delete
    delete-Distinct key [] k = tt
    delete-Distinct key (x ∷ rows) k = elim (Bool-cases (key_eq env x.key key)) [
      | inl same ↦ rw same k.1
      | inr other ↦
          rw (other, Distinct)
            (ground (arith, find-delete env key x.key rows k.1, k.0), delete-Distinct key rows k.1)
    ]

  module _ (env : Env Obj) where
    pub length-update_from :
        (key : List Obj) (source idx : ℕ) (done olds news : List Obj) (g : ℕ) (p : Pub Obj)
        → length (update_from env key source idx done olds news g p).0 ≡ length done + length olds
    unfolding update_from
    length-update_from key source idx done [] news g p = length-append done []
    length-update_from key source idx done (o ∷ olds) [] g p = length-append done (o ∷ olds)
    length-update_from key source idx done (o ∷ olds) (n ∷ news) g p =
        elim (Bool-cases (env.hash o == env.hash n)) [
          | inl same ↦
              rw (same, update_from)
                (omega (
                  arith,
                  length-append done (o ∷ []),
                  length-update_from key source (idx + 1) (done ++ o ∷ []) olds news g p,
                ))
          | inr other ↦
              rw (other, update_from)
                (omega (
                  arith,
                  length-append done (n ∷ []),
                  length-update_from key source (idx + 1) (done ++ n ∷ []) olds news (next g)
                      (forward env.alive (modified key idx n (done ++ n ∷ olds) (next g) source) p),
                ))
        ]

module _ {Obj : Type 0} (env : Env Obj) (f : Row Obj → Bool) (source : ℕ) where
  pub erase_rows-All :
      (m : MetaStore) (rows : List (Row Obj)) (p : Pub Obj) (n : ℕ)
      → All (Fits m) rows
      → All (Fits m) (erase_rows env f source rows p n).0
  unfolding erase_rows
  erase_rows-All m [] p n h = tt
  erase_rows-All m (r ∷ rows) p n h = elim (Bool-cases (f r)) [
    | inl out ↦ rw out (erase_rows-All m rows _ _ h.1)
    | inr stay ↦ rw (stay, All) (h.0, erase_rows-All m rows _ _ h.1)
  ]

  find-erase_rows :
      (k : List Obj) (rows : List (Row Obj)) (p : Pub Obj) (n : ℕ)
      → find env k rows ≡ none
      → find env k (erase_rows env f source rows p n).0 ≡ none
  unfolding erase_rows find
  find-erase_rows k [] p n h = refl
  find-erase_rows k (r ∷ rows) p n h = elim (Bool-cases (f r)) [
    | inl out ↦ rw out (find-erase_rows k rows _ _ (ground arith))
    | inr stay ↦ rw (stay, find) (ground (arith, find-erase_rows k rows p n))
  ]

  pub erase_rows-Distinct :
      (rows : List (Row Obj)) (p : Pub Obj) (n : ℕ)
      → Distinct env rows
      → Distinct env (erase_rows env f source rows p n).0
  unfolding erase_rows
  erase_rows-Distinct [] p n h = tt
  erase_rows-Distinct (r ∷ rows) p n h = elim (Bool-cases (f r)) [
    | inl out ↦ rw out (erase_rows-Distinct rows _ _ h.1)
    | inr stay ↦
        rw (stay, Distinct) (find-erase_rows r.key rows _ _ h.0, erase_rows-Distinct rows _ _ h.1)
  ]
