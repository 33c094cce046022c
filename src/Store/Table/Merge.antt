-- ===== src/Store/Table/Merge.antt =====
-- `table::merge` on a key that the table has.
use cyng.Base.{
  ℕ, ◌+◌, ◌%◌, ◌^◌, ◌<◌, ◌≡◌, refl, ◌∙◌, true, false, Bool-cases, inl, inr, List, [], ◌∷◌, ◌++◌,
  map, some, ◌==◌, if◌then◌else◌, arith, ==_iff, length, append_assoc, subst, All,
}
use mathlib.Core.List.{map-append}
use cyng.Base.Result.{ok}
use cyng.Store.Meta.{MetaStore, check_integrity}
use cyng.Store.Pub.{Pub}
use cyng.Store.Table.{Env, Row, Table, find, key_eq, change, update_from, update, merge, next}
use cyng.Store.Table.Rows.{find-change, key_eq_refl}
use cyng.Store.Table.Integrity.{Fits}
use cyng.Store.Table.Operation.{IsValid}

module _ {Obj : Type 0} (env : Env Obj) where
  find-All {ℓ} :
      (P : Row Obj → Type ℓ) (key : List Obj) (rows : List (Row Obj)) {r : Row Obj}
      → find env key rows ≡ some r
      → All P rows
      → P r
  unfolding find
  find-All P key [] e h = cc
  find-All P key (x ∷ rows) {r} e h = elim (Bool-cases (key_eq env x.key key)) [
    | inl here ↦ subst P (ground arith) h.0
    | inr there ↦ find-All P key rows (ground arith) h.1
  ]

  same_length :
      (m : MetaStore) (key key' a b : List Obj)
      → check_integrity m key a ≡ true
      → check_integrity m key' b ≡ true
      → length a ≡ length b
  unfolding check_integrity
  same_length m key key' a b h k = ground arith

  -- In how many places the objects differ.
  abbrev pub changes : List Obj → List Obj → ℕ
  changes [] news = 0
  changes (o ∷ olds) [] = 0
  changes (o ∷ olds) (n ∷ news) = (if env.hash o == env.hash n then 0 else 1) + changes olds news

  hashes-update_from :
      (key : List Obj) (source idx : ℕ) (done olds news : List Obj) (g : ℕ) (p : Pub Obj)
      → length news ≡ length olds
      → map env.hash (update_from env key source idx done olds news g p).0
        ≡ map env.hash done ++ map env.hash news
  unfolding update_from
  hashes-update_from key source idx done [] [] g p e = map-append env.hash done []
  hashes-update_from key source idx done [] (n ∷ news) g p e = absurd (omega arith)
  hashes-update_from key source idx done (o ∷ olds) [] g p e = absurd (omega arith)
  hashes-update_from key source idx done (o ∷ olds) (n ∷ news) g p e =
      elim (Bool-cases (env.hash o == env.hash n)) [
        | inl same ↦
            rw (same, update_from)
              (hashes-update_from key source (idx + 1) (done ++ o ∷ []) olds news g p (omega arith)
                ∙ simp (map-append, append_assoc, (==_iff _ _).0 same))
        | inr other ↦
            rw (other, update_from)
              (hashes-update_from key source (idx + 1) (done ++ n ∷ []) olds news (next g) _
                  (omega arith)
                ∙ simp (map-append, append_assoc))
      ]

  generation-update_from :
      (key : List Obj) (source idx : ℕ) (done olds news : List Obj) (g : ℕ) (p : Pub Obj)
      → g < 2 ^ 64
      → (update_from env key source idx done olds news g p).1 ≡ (g + changes olds news) % 2 ^ 64
  unfolding update_from
  generation-update_from key source idx done [] news g p h = omega arith
  generation-update_from key source idx done (o ∷ olds) [] g p h = omega arith
  generation-update_from key source idx done (o ∷ olds) (n ∷ news) g p h =
      elim (Bool-cases (env.hash o == env.hash n)) [
        | inl same ↦
            rw (same, update_from, changes)
              (generation-update_from key source (idx + 1) (done ++ o ∷ []) olds news g p h
                ∙ omega arith)
        | inr other ↦
            rw (other, update_from, changes)
              (generation-update_from key source (idx + 1) (done ++ n ∷ []) olds news (next g) _
                  (omega arith)
                ∙ omega arith)
      ]

  -- `merge` with a key that a valid table has and a record that fits does not fail and gives false,
  -- although it writes the record: behind it the row has objects with the hashes of the new ones, and
  -- its generation, below 2 ^ 64 before, has grown by the number of places that differed, modulo 2 ^ 64.
  pub merge_modified :
      (key body : List Obj) (g source : ℕ) (t : Table Obj) (pos : Row Obj)
      → IsValid env t
      → check_integrity t.meta key body ≡ true
      → find env key t.rows ≡ some pos
      → pos.generation < 2 ^ 64
      → (t' : Table Obj) × (merge env key body g source t ≡ ok (t', false))
        × ((r : Row Obj) × (find env key t'.rows ≡ some r)
            × (map env.hash r.body ≡ map env.hash body)
            × (r.generation ≡ (pos.generation + changes pos.body body) % 2 ^ 64))
  unfolding merge update
  merge_modified key body g source t pos v fit there small =
      let fits = find-All (Fits t.meta) key t.rows there v.fits in
      let same = same_length t.meta key pos.key body pos.body fit fits in
      let asserted : (length body == length pos.body) ≡ true = ground arith in
      let out = update_from env key source 0 [] pos.body body pos.generation t.pub_ in
      (
        record t {
          rows = change env key (λ r. record r { body = out.0; generation = out.1 }) t.rows;
          pub_ = out.2;
        },
        rw (fit, there, asserted),
        (
          record pos { body = out.0; generation = out.1 },
          ground (
            arith,
            find-change env key key (λ r. record r { body = out.0; generation = out.1 }) t.rows
                (λ r. refl),
            key_eq_refl env key,
          ),
          hashes-update_from key source 0 [] pos.body body pos.generation t.pub_ same,
          generation-update_from key source 0 [] pos.body body pos.generation t.pub_ small,
        ),
      )
