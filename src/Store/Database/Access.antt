-- ===== src/Store/Database/Access.antt =====
-- Names of tables, and what a name stands for behind a replacement.
use cyng.Base.{◌≡◌, refl, ap, true, Bool-cases, inl, inr, [], ◌∷◌, some, if◌then◌else◌, arith}
use cyng.Store.Meta.{Text, text_eq}
use cyng.Store.Database.{Entry, Tables, lookup, replace}

pub text_eq_refl : (s : Text) → text_eq s s ≡ true
unfolding text_eq
text_eq_refl [] = refl
text_eq_refl (c ∷ s) = ground (arith, text_eq_refl s)

pub text_eq_eq : (s t : Text) → text_eq s t ≡ true → s ≡ t
unfolding text_eq
text_eq_eq [] [] h = refl
text_eq_eq [] (d ∷ t) h = ground arith
text_eq_eq (c ∷ s) [] h = ground arith
text_eq_eq (c ∷ s) (d ∷ t) h = ground (arith, text_eq_eq s t)

module _ {Obj : Type 0} where
  pub lookup-replace :
      (name : Text) (e old : Entry Obj) (tables : Tables Obj) (n : Text)
      → lookup name tables ≡ some old
      → lookup n (replace name e tables) ≡ (if text_eq name n then some e else lookup n tables)
  unfolding lookup replace
  lookup-replace name e old [] n h = ground arith
  lookup-replace name e old ((k, x) ∷ tables) n h = elim (Bool-cases (text_eq k name)) [
    | inl same ↦
        rw (same, ap (λ c. text_eq c n) (text_eq_eq k name same))
          (ground (arith, text_eq_eq k name same))
    | inr other ↦ rw other (elim (Bool-cases (text_eq name n)) [
      | inl found ↦
          ground
            (arith, ap (text_eq k) (text_eq_eq name n found), lookup-replace name e old tables n)
      | inr missed ↦ ground (arith, lookup-replace name e old tables n)
    ])
  ]
