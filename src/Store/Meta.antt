-- ===== src/Store/Meta.antt =====
-- include/cyng/store/meta.h and src/store/src/meta.cpp. A text is the list of its characters.
pub mod Convert
use cyng.Base.{
  ℕ, zero, suc, ◌+◌, ◌-◌, ◌%◌, ◌^◌, Bool, true, false, not, ◌&&◌, List, [], ◌∷◌, Option, none, some,
  ◌≡◌, ltb, leb, ◌==◌, if◌then◌else◌, length, get_elem?, get_or,
}
use cyng.Base.Result.{Result, ok, err, out_of_range, ◌>>=◌, ◌>>◌, assert}

abbrev pub Text : Type 0
Text = List ℕ

unfoldable pub text_eq : Text → Text → Bool
text_eq [] [] = true
text_eq [] (d ∷ t) = false
text_eq (c ∷ s) [] = false
text_eq (c ∷ s) (d ∷ t) = c == d && text_eq s t

pub record Column : Type 0 where
  pub name : Text
  pub type : ℕ

pub record ColumnSql : Type 0 where
  pub column : Column
  pub width : ℕ

pub record MetaStore : Type 0 where
  pub name : Text
  pub columns : List Column
  pub pk : ℕ

pub record MetaSql : Type 0 where
  pub name : Text
  pub columns : List ColumnSql
  pub pk : ℕ

-- `std::numeric_limits<std::size_t>::max()`
abbrev pub npos : ℕ
npos = 2 ^ 64 - 1

abbrev pub size : MetaStore → ℕ
size m = length m.columns

unfoldable pub body_size : MetaStore → ℕ
body_size m = (size m + 2 ^ 64 - m.pk) % 2 ^ 64

-- `std::find_if` over the columns from the index `idx` on.
unfoldable pub find_column : Text → List Column → ℕ → Option ℕ
find_column name [] idx = none
find_column name (col ∷ cols) idx =
    if text_eq name col.name then some idx else find_column name cols (idx + 1)

unfoldable pub get_index_by_name : MetaStore → Text → ℕ
unfolding find_column
get_index_by_name m name = elim (find_column name m.columns 0) [ none ↦ npos | some idx ↦ idx ]

unfoldable pub get_body_index_by_name : MetaStore → Text → ℕ
unfolding get_index_by_name
get_body_index_by_name m name =
    let idx = get_index_by_name m name in
    if not (idx == npos) then (idx + 2 ^ 64 - m.pk) % 2 ^ 64 else idx

unfoldable pub is_pk : MetaStore → ℕ → Bool
is_pk m col = ltb col m.pk

unfoldable pub check_integrity {ℓ} : {A : Type ℓ} → MetaStore → List A → List A → Bool
check_integrity m key body = length key == m.pk && length body == body_size m

-- `meta::loop`: the arguments of the callback for each column.
unfoldable pub loop {ℓ} : {A : Type ℓ} → ℕ → ℕ → List A → List (ℕ × A × Bool)
loop pk idx [] = []
loop pk idx (col ∷ cols) =
    (if ltb idx pk then idx else idx - pk, col, ltb idx pk) ∷ loop pk (idx + 1) cols

unfoldable pub gen_name : Text
gen_name = b'g' ∷ b'e' ∷ b'n' ∷ []

-- `TC_UINT64`, the position of the type in `type_list`.
abbrev tc_uint64 : ℕ
tc_uint64 = 9

unfoldable pub gen_column : ColumnSql
unfolding gen_name
gen_column = record { column = record { name = gen_name; type = tc_uint64 }; width = 0 }

-- The callback of `to_sql` for each column, on the state `gen` and the widths behind `width_idx`.
unfoldable pub sql_columns : List (ℕ × Column × Bool) → Bool → List ℕ → Result (List ColumnSql)
unfolding gen_column
sql_columns [] gen widths = ok []
sql_columns ((_, col, true) ∷ cols) gen [] = do
  rest ← sql_columns cols gen []
  ok (record { column = col; width = 0 } ∷ rest)
sql_columns ((_, col, true) ∷ cols) gen (w ∷ ws) = do
  rest ← sql_columns cols gen ws
  ok (record { column = col; width = w } ∷ rest)
sql_columns ((_, col, false) ∷ cols) true [] = do
  rest ← sql_columns cols true []
  ok (record { column = col; width = 0 } ∷ rest)
sql_columns ((_, col, false) ∷ cols) true (w ∷ ws) = do
  rest ← sql_columns cols true ws
  ok (record { column = col; width = w } ∷ rest)
sql_columns ((_, col, false) ∷ cols) false [] = err out_of_range
sql_columns ((_, col, false) ∷ cols) false (w ∷ ws) = do
  rest ← sql_columns cols true ws
  ok (gen_column ∷ record { column = col; width = w } ∷ rest)

abbrev pub is_lower : ℕ → Bool
is_lower c = leb b'a' c && leb c b'z'

unfoldable pub to_upper : ℕ → ℕ
to_upper c = if is_lower c then c - 32 else c

unfoldable pub to_lower : ℕ → ℕ
to_lower c = if leb b'A' c && leb c b'Z' then c + 32 else c

-- `table_name.at(0) = std::toupper(table_name.at(0))` behind a `T`.
unfoldable pub sql_name : Text → Text
unfolding to_upper
sql_name [] = b'T' ∷ []
sql_name (c ∷ name) = b'T' ∷ to_upper c ∷ name

-- The constructor of `meta` asserts that there is a column behind the key.
unfoldable pub to_sql : MetaStore → List ℕ → Result MetaSql
unfolding loop sql_columns sql_name
to_sql m widths = do
  assert (size m == length widths)
  cols ← sql_columns (loop m.pk 0 m.columns) false widths
  assert (ltb m.pk (length cols))
  ok (record { name = sql_name m.name; columns = cols; pk = m.pk })

-- The callback of `to_mem` for each column.
unfoldable pub mem_columns : List (ℕ × ColumnSql × Bool) → List Column
unfolding gen_name
mem_columns [] = []
mem_columns ((_, col, _) ∷ cols) =
    let rest = mem_columns cols in
    if not (text_eq col.column.name gen_name) then col.column ∷ rest else rest

unfoldable pub mem_name : Text → Text
unfolding to_lower
mem_name (t ∷ c ∷ name) = if t == b'T' then to_lower c ∷ name else t ∷ c ∷ name
mem_name name = name

unfoldable pub to_mem : MetaSql → Result MetaStore
unfolding loop mem_columns mem_name
to_mem m =
    let cols = mem_columns (loop m.pk 0 m.columns) in
    do
      assert (ltb m.pk (length cols))
      ok (record { name = mem_name m.name; columns = cols; pk = m.pk })

-- No column has the name that `to_mem` drops.
abbrev pub IsUserColumn : Column → Type 0
unfolding gen_name
IsUserColumn col = text_eq col.name gen_name ≡ false
