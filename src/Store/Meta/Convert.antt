-- ===== src/Store/Meta/Convert.antt =====
-- `to_mem` undoes `to_sql`.
use cyng.Base.{
  ℕ, suc, ◌+◌, ◌<◌, ◌≡◌, refl, true, false, Bool-cases, inl, inr, List, [], ◌∷◌, ltb, arith, ◌==◌,
  length, All, ◌≤◌,
}
use cyng.Base.Result.{ok, ◌>>=◌}
use cyng.Store.Meta
use cyng.Store.Meta.{
  Text, Column, ColumnSql, MetaStore, MetaSql, loop, sql_columns, mem_columns, is_lower, to_upper,
  to_lower, sql_name, mem_name, to_sql, to_mem, IsUserColumn, gen_name, gen_column, text_eq,
}

-- The columns that are behind column `gen`.
sql_columns-mem_behind :
    (pk idx : ℕ) (cols : List Column) (ws : List ℕ)
    → All IsUserColumn cols
    → length cols ≡ length ws
    → pk < suc idx
    → (out : List ColumnSql) × (sql_columns (loop pk idx cols) true ws ≡ ok out)
      × ((qk k : ℕ) → mem_columns (loop qk k out) ≡ cols)
      × (length cols ≤ length out)
unfolding sql_columns loop mem_columns gen_name
sql_columns-mem_behind pk idx [] ws h e lt = ([], refl, (λ qk k. refl), omega arith)
sql_columns-mem_behind pk idx (col ∷ cols) [] h e lt = absurd (omega arith)
sql_columns-mem_behind pk idx (col ∷ cols) (w ∷ ws) h e lt =
    let b : ltb idx pk ≡ false = ground arith in
    let (out, r, m, l) =
      sql_columns-mem_behind pk (idx + 1) cols ws h.1 (omega arith) (omega arith) in
    rw b (
      record { column = col; width = w } ∷ out,
      rw r,
      λ qk k. rw h.0 (rw (m qk (k + 1))),
      omega arith,
    )

sql_columns-mem :
    (pk idx : ℕ) (cols : List Column) (ws : List ℕ)
    → All IsUserColumn cols
    → length cols ≡ length ws
    → (out : List ColumnSql) × (sql_columns (loop pk idx cols) false ws ≡ ok out)
      × ((qk k : ℕ) → mem_columns (loop qk k out) ≡ cols)
      × (length cols ≤ length out)
unfolding sql_columns loop mem_columns gen_name gen_column text_eq
sql_columns-mem pk idx [] ws h e = ([], refl, (λ qk k. refl), omega arith)
sql_columns-mem pk idx (col ∷ cols) [] h e = absurd (omega arith)
sql_columns-mem pk idx (col ∷ cols) (w ∷ ws) h e = elim (Bool-cases (ltb idx pk)) [
  | inl key ↦
      let (out, r, m, l) = sql_columns-mem pk (idx + 1) cols ws h.1 (omega arith) in
      rw key (
        record { column = col; width = w } ∷ out,
        rw r,
        (λ qk k. rw h.0 (rw (m qk (k + 1)))),
        omega arith,
      )
  | inr body ↦
      let (out, r, m, l) =
        sql_columns-mem_behind pk (idx + 1) cols ws h.1 (omega arith) (ground arith) in
      rw body (
        gen_column ∷ record { column = col; width = w } ∷ out,
        rw r,
        (λ qk k. rw h.0 (rw (m qk (k + 1 + 1)))),
        omega arith,
      )
]

mem_name-sql_name :
    (c : ℕ) (name : Text) → is_lower c ≡ true → mem_name (sql_name (c ∷ name)) ≡ c ∷ name
unfolding mem_name sql_name to_upper to_lower
mem_name-sql_name c name h = ground arith

-- The description of a table in memory comes back from that of its SQL table, if its name starts with
-- a small letter, no column is named gen, a width is given for each column, and a column follows the key.
pub to_mem-to_sql :
    (m : MetaStore) (widths : List ℕ) (c : ℕ) (name : Text)
    → m.name ≡ c ∷ name
    → is_lower c ≡ true
    → All IsUserColumn m.columns
    → length m.columns ≡ length widths
    → m.pk < length m.columns
    → (to_sql m widths >>= to_mem) ≡ ok m
unfolding to_sql to_mem
to_mem-to_sql m widths c name e lower user same key =
    let (out, r, back, l) = sql_columns-mem m.pk 0 m.columns widths user same in
    let asserted : (Meta.size m == length widths) ≡ true = ground arith in
    let first : ltb m.pk (length out) ≡ true = ground arith in
    let second : ltb m.pk (length m.columns) ≡ true = ground arith in
    rw (asserted, r, first, back m.pk 0, second, e, mem_name-sql_name c name lower)
