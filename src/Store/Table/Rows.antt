-- ===== src/Store/Table/Rows.antt =====
-- Looking up a key in the rows behind each change of them.
use cyng.Base.{
  ℕ, zero, suc, ◌≡◌, refl, ap, true, List, [], ◌∷◌, Option, none, some, if◌then◌else◌, arith,
}
use cyng.Store.Table.{Env, Row, insert_at, key_eq, find, change, delete}

module _ {Obj : Type 0} (env : Env Obj) where
  pub key_eq_refl : (k : List Obj) → key_eq env k k ≡ true
  unfolding key_eq
  key_eq_refl k = ground arith

  pub key_eq_sym : (a b : List Obj) → key_eq env a b ≡ true → key_eq env b a ≡ true
  unfolding key_eq
  key_eq_sym a b h = ground arith

  pub key_eq_trans :
      (a b c : List Obj) → key_eq env a b ≡ true → key_eq env b c ≡ true → key_eq env a c ≡ true
  unfolding key_eq
  key_eq_trans a b c h k = ground arith

  -- Two keys that are the same are told apart from no third.
  pub key_eq_left : (a b c : List Obj) → key_eq env a b ≡ true → key_eq env a c ≡ key_eq env b c
  unfolding key_eq
  key_eq_left a b c h = ground arith

  pub find-insert_at :
      (n : ℕ) (r : Row Obj) (rows : List (Row Obj)) (j : List Obj)
      → find env r.key rows ≡ none
      → find env j (insert_at n r rows) ≡ (if key_eq env r.key j then some r else find env j rows)
  unfolding find insert_at
  find-insert_at zero r rows j h = refl
  find-insert_at (suc n) r [] j h = refl
  find-insert_at (suc n) r (x ∷ rows) j h = ground (
    arith,
    find-insert_at n r rows j,
    key_eq_left x.key r.key j,
    key_eq_left x.key j r.key,
    key_eq_sym r.key j,
    key_eq_sym x.key r.key,
    key_eq_trans x.key j r.key,
    key_eq_sym j r.key,
  )

  pub key_eq_right : (a b c : List Obj) → key_eq env a b ≡ true → key_eq env c a ≡ key_eq env c b
  unfolding key_eq
  key_eq_right a b c h = ground arith

  pub find_same :
      (a b : List Obj) (rows : List (Row Obj))
      → key_eq env a b ≡ true
      → find env a rows ≡ find env b rows
  unfolding find
  find_same a b [] h = refl
  find_same a b (r ∷ rows) h = ground (arith, find_same a b rows h, key_eq_right a b r.key h)

  -- No two rows have the same key.
  abbrev pub Distinct : List (Row Obj) → Type 0
  Distinct [] = Unit {0}
  Distinct (r ∷ rows) = (find env r.key rows ≡ none) × Distinct rows

  abbrev pub apply : (Row Obj → Row Obj) → Option (Row Obj) → Option (Row Obj)
  apply f none = none
  apply f (some r) = some (f r)

  pub find-change :
      (key j : List Obj) (f : Row Obj → Row Obj) (rows : List (Row Obj))
      → ((r : Row Obj) → (f r).key ≡ r.key)
      → find env j (change env key f rows)
        ≡ (if key_eq env key j then apply f (find env key rows) else find env j rows)
  unfolding find change
  find-change key j f [] h = ground arith
  find-change key j f (r ∷ rows) h = ground (
    arith,
    h r,
    ap (λ k. key_eq env k j) (h r),
    find-change key j f rows h,
    key_eq_left r.key key j,
    key_eq_sym key j,
    key_eq_right key j r.key,
  )

  pub find-delete :
      (key j : List Obj) (rows : List (Row Obj))
      → Distinct rows
      → find env j (delete env key rows) ≡ (if key_eq env key j then none else find env j rows)
  unfolding find delete
  find-delete key j [] h = ground arith
  find-delete key j (r ∷ rows) h = ground (
    arith,
    h.0,
    find-delete key j rows h.1,
    key_eq_left r.key key j,
    key_eq_sym key j,
    key_eq_right key j r.key,
    find_same r.key j rows,
  )
