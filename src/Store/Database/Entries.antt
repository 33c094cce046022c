-- ===== src/Store/Database/Entries.antt =====
-- What a change of one table, and what `disconnect`, keep of the tables of the database.
use cyng.Base.{
  ℕ, ◌≡◌, refl, subst, Bool, Bool-cases, Option-cases, inl, inr, [], ◌∷◌, none, some, arith, All,
}
use cyng.Base.Result.{Result, ok, err, ◌>>=◌, Ensures, Ensures->>=}
use cyng.Store.Meta.{Text, text_eq}
use cyng.Store.Pub.{Pub}
use cyng.Store.Table.{Env, Table}
use cyng.Store.Table.Operation.{IsValid}
use cyng.Store.Database.{Entry, Tables, lookup, replace, create, access, on_table, disconnect_all}
use cyng.Store.Database.Calls.{tables_of, Named, IsIntact}

module _ {Obj : Type 0} (env : Env Obj) where
  pub pub_-IsValid :
      (p : Pub Obj) (t : Table Obj) → IsValid env t → IsValid env (record t { pub_ = p })
  pub_-IsValid p t v = record { fits = v.fits; distinct = v.distinct }

  lookup-IsValid :
      (n : Text) (ts : Tables Obj) (e : Entry Obj)
      → All (λ t. IsValid env t.1.table) ts
      → lookup n ts ≡ some e
      → IsValid env e.table
  unfolding lookup
  lookup-IsValid n [] e h p = ground arith
  lookup-IsValid n ((m, x) ∷ ts) e h p = elim (Bool-cases (text_eq m n)) [
    | inl same ↦
        subst (λ (e : Entry Obj). IsValid env e.table) {x = x} {y = e} (ground (arith, same, p)) h.0
    | inr other ↦ lookup-IsValid n ts e h.1 (ground (arith, other, p))
  ]

  lookup-replace-none :
      (name n : Text) (e : Entry Obj) (ts : Tables Obj)
      → lookup n ts ≡ none
      → lookup n (replace name e ts) ≡ none
  unfolding lookup replace
  lookup-replace-none name n e [] h = refl
  lookup-replace-none name n e ((m, x) ∷ ts) h = elim (Bool-cases (text_eq m name)) [
    | inl same ↦ rw same (ground arith)
    | inr other ↦ rw other (ground (arith, lookup-replace-none name n e ts))
  ]

  replace-Named :
      (name : Text) (e : Entry Obj) (ts : Tables Obj) → Named ts → Named (replace name e ts)
  unfolding replace
  replace-Named name e [] h = tt
  replace-Named name e ((m, x) ∷ ts) h = elim (Bool-cases (text_eq m name)) [
    | inl same ↦ rw same h
    | inr other ↦ rw other (lookup-replace-none name m e ts h.0, replace-Named name e ts h.1)
  ]

  replace-All :
      (name : Text) (e : Entry Obj) (ts : Tables Obj)
      → IsValid env e.table
      → All (λ t. IsValid env t.1.table) ts
      → All (λ t. IsValid env t.1.table) (replace name e ts)
  unfolding replace
  replace-All name e [] v h = tt
  replace-All name e ((m, x) ∷ ts) v h = elim (Bool-cases (text_eq m name)) [
    | inl same ↦ rw same (v, h.1)
    | inr other ↦ rw other (h.0, replace-All name e ts v h.1)
  ]

  written {ℓ} :
      {R : Type ℓ} (name : Text) (ts : Tables Obj) (m : Result (Entry Obj × R))
      → IsIntact env ts
      → Ensures (λ (r : Entry Obj × R). IsValid env r.0.table) m
      → Ensures (IsIntact env) (tables_of (do (e, r) ← m; ok (replace name e ts, r)))
  written name ts (err fault) s h = tt
  written name ts (ok (e, r)) s h = record {
    named = replace-Named name e ts s.named;
    valid = replace-All name e ts h s.valid;
  }

  on_table-Ensures {ℓ} :
      {R : Type ℓ} (f : Table Obj → Result (Table Obj × R)) (e : Entry Obj)
      → Ensures (λ (r : Table Obj × R). IsValid env r.0) (f e.table)
      → Ensures (λ (r : Entry Obj × R). IsValid env r.0.table) (on_table f e)
  on_table-Ensures f e h = Ensures->>= (λ r. IsValid env r.0) _ (f e.table) _ h (λ r v. v)

  pub access-IsIntact {ℓ} :
      {R : Type ℓ} (checked : Bool) (name : Text) (f : Entry Obj → Result (Entry Obj × R))
      (ts : Tables Obj)
      → ((e : Entry Obj)
          → IsValid env e.table
          → Ensures (λ (r : Entry Obj × R). IsValid env r.0.table) (f e))
      → IsIntact env ts
      → Ensures (IsIntact env) (tables_of (access checked name f ts))
  unfolding access
  access-IsIntact checked name f ts keeps s = elim (Option-cases (lookup name ts)) [
    | inl absent ↦ rw (access, absent) tt
    | inr (e, there) ↦
        rw (access, there)
          (written name ts (f e) s (keeps e (lookup-IsValid name ts e s.valid there)))
  ]

  pub on_table-IsIntact {ℓ} :
      {R : Type ℓ} (checked : Bool) (name : Text) (f : Table Obj → Result (Table Obj × R))
      (ts : Tables Obj)
      → ((t : Table Obj) → IsValid env t → Ensures (λ (r : Table Obj × R). IsValid env r.0) (f t))
      → IsIntact env ts
      → Ensures (IsIntact env) (tables_of (access checked name (on_table f) ts))
  on_table-IsIntact checked name f ts keeps s =
      access-IsIntact checked name (on_table f) ts (λ e v. on_table-Ensures f e (keeps e.table v)) s

  pub create-IsIntact :
      (e : Entry Obj) (ts : Tables Obj)
      → IsValid env e.table
      → IsIntact env ts
      → IsIntact env (create e ts).0
  unfolding create
  create-IsIntact e ts v s = elim (Option-cases (lookup e.table.meta.name ts)) [
    | inl absent ↦ rw (create, absent) (record { named = (absent, s.named); valid = (v, s.valid) })
    | inr (old, there) ↦ rw (create, there) s
  ]

  disconnect_all-lookup :
      (sp : ℕ) (n : Text) (ts : Tables Obj)
      → lookup n ts ≡ none
      → lookup n (disconnect_all sp ts).0 ≡ none
  unfolding disconnect_all lookup
  disconnect_all-lookup sp n [] h = refl
  disconnect_all-lookup sp n ((m, e) ∷ ts) h = ground (arith, disconnect_all-lookup sp n ts)

  pub disconnect_all-IsIntact :
      (sp : ℕ) (ts : Tables Obj) → IsIntact env ts → IsIntact env (disconnect_all sp ts).0
  unfolding disconnect_all
  disconnect_all-IsIntact sp [] s = s
  disconnect_all-IsIntact sp ((m, e) ∷ ts) s =
      let rest = disconnect_all-IsIntact sp ts (record { named = s.named.1; valid = s.valid.1 }) in
      record {
        named = (disconnect_all-lookup sp m ts s.named.0, rest.named);
        valid = (pub_-IsValid _ e.table s.valid.0, rest.valid);
      }
