-- ===== src/Store/Database/Isolation.antt =====
-- The calls that concern one table of the database, and what `access` and `create` make of a name.
pub mod Runs
use cyng.Base.{
  ℕ, ◌≡◌, refl, ◌∙◌, Bool, true, false, Bool-cases, Option-cases, inl, inr, List, [], ◌∷◌, Option,
  none, some, if◌then◌else◌,
}
use cyng.Base.Result.{Result, ok, err, ◌>>=◌, Ensures}
use cyng.Store.Meta.{Text, text_eq}
use cyng.Store.Pub
use cyng.Store.Database.{Entry, Tables, lookup, replace, create, access, disconnect_all}
use cyng.Store.Database.Access.{text_eq_eq, lookup-replace}
use cyng.Store.Database.Calls.{
  Call, creates, creates_auto, inserts, inserts_row, merges, erases, erases_if, modifies,
  modifies_param, modifies_params, clears, connects, connects_only, connects_insert,
  connects_modify, connects_remove, connects_clear, disconnects, disconnects_all, tables_of,
}

module _ {Obj : Type 0} where
  -- The call names the table, or all tables.
  unfoldable pub concerns : Text → Call Obj → Bool
  concerns n (creates m) = text_eq m.name n
  concerns n (creates_auto m key f) = text_eq m.name n
  concerns n (inserts name key body g source) = text_eq name n
  concerns n (inserts_row name body source) = text_eq name n
  concerns n (merges name key body g source) = text_eq name n
  concerns n (erases name key source) = text_eq name n
  concerns n (erases_if name f source) = text_eq name n
  concerns n (modifies name key attr source) = text_eq name n
  concerns n (modifies_param name key param source) = text_eq name n
  concerns n (modifies_params name key pm source) = text_eq name n
  concerns n (clears name source) = text_eq name n
  concerns n (connects name sp) = text_eq name n
  concerns n (connects_only name sp) = text_eq name n
  concerns n (connects_insert name sp) = text_eq name n
  concerns n (connects_modify name sp) = text_eq name n
  concerns n (connects_remove name sp) = text_eq name n
  concerns n (connects_clear name sp) = text_eq name n
  concerns n (disconnects name sp) = text_eq name n
  concerns n (disconnects_all sp) = true

  -- The calls that concern the table, in their order.
  unfoldable pub only : Text → List (Call Obj) → List (Call Obj)
  unfolding concerns
  only n [] = []
  only n (call ∷ calls) = let rest = only n calls in if concerns n call then call ∷ rest else rest

  -- Where the one result is a database, so is the other, and the name stands for the same in both.
  unfoldable pub Follows : Text → Result (Tables Obj) → Result (Tables Obj) → Type 0
  Follows n (ok ts) m = (us : Tables Obj) × (m ≡ ok us) × (lookup n us ≡ lookup n ts)
  Follows n (err fault) m = Unit

  unfoldable pub Keeps : Text → Tables Obj → Result (Tables Obj) → Type 0
  Keeps n ts m = Ensures (λ ts'. lookup n ts' ≡ lookup n ts) m

  written-Follows {ℓ} :
      {R : Type ℓ} (name n : Text) (old : Entry Obj) (ts us : Tables Obj)
      (m : Result (Entry Obj × R))
      → text_eq name n ≡ true
      → lookup name ts ≡ some old
      → lookup name us ≡ some old
      → Follows n
          (tables_of (do (e, r) ← m; ok (replace name e ts, r)))
          (tables_of (do (e, r) ← m; ok (replace name e us, r)))
  unfolding Follows
  written-Follows name n old ts us (err fault) h a b = tt
  written-Follows name n old ts us (ok (e, r)) h a b = (
    replace name e us,
    refl,
    rw (lookup-replace name e old us n b, lookup-replace name e old ts n a, h) refl,
  )

  pub access-Follows {ℓ} :
      {R : Type ℓ} (checked : Bool) (name n : Text) (f : Entry Obj → Result (Entry Obj × R))
      (ts us : Tables Obj)
      → text_eq name n ≡ true
      → lookup n us ≡ lookup n ts
      → Follows n (tables_of (access checked name f ts)) (tables_of (access checked name f us))
  unfolding access Follows
  access-Follows checked name n f ts us h agree =
      let is = text_eq_eq name n h in
      let both : lookup name us ≡ lookup name ts = rw is agree in
      elim (Option-cases (lookup name ts)) [
        | inl absent ↦ rw (access, absent) tt
        | inr (e, there) ↦
            rw (access, both, there) (written-Follows name n e ts us (f e) h there (both ∙ there))
      ]

  written-Keeps {ℓ} :
      {R : Type ℓ} (name n : Text) (old : Entry Obj) (ts : Tables Obj) (m : Result (Entry Obj × R))
      → text_eq name n ≡ false
      → lookup name ts ≡ some old
      → Keeps n ts (tables_of (do (e, r) ← m; ok (replace name e ts, r)))
  unfolding Keeps
  written-Keeps name n old ts (err fault) h a = tt
  written-Keeps name n old ts (ok (e, r)) h a = rw (lookup-replace name e old ts n a, h) refl

  pub access-Keeps {ℓ} :
      {R : Type ℓ} (checked : Bool) (name n : Text) (f : Entry Obj → Result (Entry Obj × R))
      (ts : Tables Obj)
      → text_eq name n ≡ false
      → Keeps n ts (tables_of (access checked name f ts))
  unfolding access Keeps
  access-Keeps checked name n f ts h = elim (Option-cases (lookup name ts)) [
    | inl absent ↦ rw (access, absent) tt
    | inr (e, there) ↦ rw (access, there) (written-Keeps name n e ts (f e) h there)
  ]

  pub create-Follows :
      (n : Text) (e : Entry Obj) (ts us : Tables Obj)
      → text_eq e.table.meta.name n ≡ true
      → lookup n us ≡ lookup n ts
      → lookup n (create e us).0 ≡ lookup n (create e ts).0
  unfolding create lookup
  create-Follows n e ts us h agree =
      let is = text_eq_eq e.table.meta.name n h in
      let both : lookup e.table.meta.name us ≡ lookup e.table.meta.name ts = rw is agree in
      elim (Option-cases (lookup e.table.meta.name ts)) [
        | inl absent ↦ rw (create, both, absent, lookup, h) refl
        | inr (old, there) ↦ rw (create, both, there) agree
      ]

  pub create-Keeps :
      (n : Text) (e : Entry Obj) (ts : Tables Obj)
      → text_eq e.table.meta.name n ≡ false
      → lookup n (create e ts).0 ≡ lookup n ts
  unfolding create lookup
  create-Keeps n e ts h = elim (Option-cases (lookup e.table.meta.name ts)) [
    | inl absent ↦ rw (create, absent, lookup, h) refl
    | inr (old, there) ↦ rw (create, there) refl
  ]

  abbrev disconnected : ℕ → Option (Entry Obj) → Option (Entry Obj)
  disconnected sp none = none
  disconnected sp (some e) =
      some (record e { table = record e.table { pub_ = (Pub.disconnect sp e.table.pub_).0 } })

  pub lookup-disconnect_all :
      (sp : ℕ) (n : Text) (ts : Tables Obj)
      → lookup n (disconnect_all sp ts).0 ≡ disconnected sp (lookup n ts)
  unfolding disconnect_all lookup
  lookup-disconnect_all sp n [] = refl
  lookup-disconnect_all sp n ((m, e) ∷ ts) = elim (Bool-cases (text_eq m n)) [
    | inl same ↦ rw (lookup, same) refl
    | inr other ↦ rw (lookup, other) (lookup-disconnect_all sp n ts)
  ]
