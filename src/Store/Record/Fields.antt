-- ===== src/Store/Record/Fields.antt =====
-- What a record gives for the name of a column, by `at` and in the maps of `to_tuple`.
use cyng.Base.{
  ℕ, suc, ◌+◌, ◌-◌, ◌^◌, ◌<◌, Bool, true, false, List, [], ◌∷◌, ◌++◌, Option, none, some, ltb,
  if◌then◌else◌, get_elem?, get_elem?-append, get_elem?-left, get_elem?-right, get_elem?-past, ◌⊎◌,
  length, length-append, ◌≡◌, refl, sym, ap, ◌∙◌, arith, Bool-cases, inl, inr, append_assoc,
}
use cyng.Base.Result.{Result, ok}
use cyng.Store.Meta.{
  Text, text_eq, Column, MetaStore, is_pk, get_index_by_name, find_column, loop, gen_name, npos,
}
use cyng.Store.Record.{
  Record, ParamMap, assign, fetch, get_tuple, at_index, at_name, get_data, fill, assign_all,
  to_tuple,
}

module _ {Obj : Type 0} where
  -- The value of the first column with that name.
  unfoldable pub first_named : Text → List Column → List Obj → Option Obj
  first_named name [] vs = none
  first_named name (col ∷ cols) [] = none
  first_named name (col ∷ cols) (v ∷ vs) =
      if text_eq name col.name then some v else first_named name cols vs

  unfoldable pub named : List Column → List Obj → List (Text × Obj)
  named [] vs = []
  named (col ∷ cols) [] = []
  named (col ∷ cols) (v ∷ vs) = (col.name, v) ∷ named cols vs

  -- The last value that has the name.
  unfoldable pub last_value : Text → List (Text × Obj) → Option Obj
  last_value n [] = none
  last_value n ((name, v) ∷ pm) = elim (last_value n pm) [
    | some w ↦ some w
    | none ↦ if text_eq n name then some v else none
  ]

  -- A record of a table whose key columns are `kcols` and the others `bcols`.
  abbrev pub record_of : Text → List Column → List Column → List Obj → List Obj → ℕ → Record Obj
  record_of name kcols bcols key body gen = record {
    meta = record { name = name; columns = kcols ++ bcols; pk = length kcols };
    key = key;
    body = body;
    gen = gen;
  }

  abbrev pub or_else : Option Obj → Option Obj → Option Obj
  or_else none w = w
  or_else (some v) w = some v

  or_else-none : (w : Option Obj) → or_else w none ≡ w
  or_else-none none = refl
  or_else-none (some v) = refl

  assign_all_lem :
      (pm : List (Text × Obj)) (m : ParamMap Obj) (n : Text)
      → assign_all pm m n ≡ or_else (last_value n pm) (m n)
  unfolding assign_all last_value
  assign_all_lem [] m n = refl
  assign_all_lem ((name, v) ∷ pm) m n =
      assign_all_lem pm (assign m name v) n ∙ last (last_value n pm) (text_eq n name)
    where
      last :
          (w : Option Obj) (b : Bool)
          → or_else w (if b then some v else m n)
            ≡ or_else (elim w [ some u ↦ some u | none ↦ if b then some v else none ]) (m n)
      last (some u) b = refl
      last none true = refl
      last none false = refl

  fetch-append : (done vs : List Obj) (v : Obj) → fetch (done ++ v ∷ vs) (length done) ≡ ok v
  fetch-append done vs v = rw (fetch, get_elem?-append done vs v) refl

  fill-body :
      (meta : MetaStore) (key done vs : List Obj) (gen idx : ℕ) (cols : List Column)
      (k d : ParamMap Obj)
      → idx ≡ meta.pk + length done
      → length cols ≡ length vs
      → fill
          (record { meta = meta; key = key; body = done ++ vs; gen = gen })
          (loop meta.pk idx cols)
          k
          d
        ≡ ok (k, assign_all (named cols vs) d)
  unfolding fill loop named assign_all
  fill-body meta key done vs gen idx [] k d e l = refl
  fill-body meta key done [] gen idx (col ∷ cols) k d e l = absurd (omega (arith, l))
  fill-body meta key done (v ∷ vs) gen idx (col ∷ cols) k d e l =
      let behind : ltb idx meta.pk ≡ false = ground arith in
      let place : idx - meta.pk ≡ length done = omega arith in
      rw (behind, place, fetch-append done vs v)
        (rw (append_assoc done (v ∷ []) vs) at (
          fill-body meta key (done ++ v ∷ []) vs gen (idx + 1) cols k (assign d col.name v)
            (omega (arith, length-append done (v ∷ []))) (omega arith)))

  fill-key :
      (meta : MetaStore) (done vs body : List Obj) (gen : ℕ) (kcols bcols : List Column)
      (k d : ParamMap Obj)
      → meta.pk ≡ length done + length kcols
      → length kcols ≡ length vs
      → length bcols ≡ length body
      → fill
          (record { meta = meta; key = done ++ vs; body = body; gen = gen })
          (loop meta.pk (length done) (kcols ++ bcols))
          k
          d
        ≡ ok (assign_all (named kcols vs) k, assign_all (named bcols body) d)
  unfolding fill loop named assign_all
  fill-key meta done vs body gen [] bcols k d e l h =
      fill-body meta (done ++ vs) [] body gen (length done) bcols k d (omega arith) h
  fill-key meta done [] body gen (col ∷ kcols) bcols k d e l h = absurd (omega (arith, l))
  fill-key meta done (v ∷ vs) body gen (col ∷ kcols) bcols k d e l h =
      let before : ltb (length done) meta.pk ≡ true = ground arith in
      let next : length (done ++ v ∷ []) ≡ length done + 1 =
        omega (arith, length-append done (v ∷ [])) in
      rw (before, fetch-append done vs v)
        (rw (append_assoc done (v ∷ []) vs, next) at
          (fill-key meta (done ++ v ∷ []) vs body gen kcols bcols (assign k col.name v) d
            (omega (arith, next)) (omega arith) h))

  -- For a record that fits its table, `to_tuple` succeeds: a name stands in the first map for the value
  -- of the last key column with that name, and in the second for the last additional parameter with the
  -- name, else for the generation if the name is "gen", else for the value of the last other column.
  pub to_tuple_lem :
      (number : ℕ → Obj) (pm : List (Text × Obj)) (name : Text) (kcols bcols : List Column)
      (key body : List Obj) (gen : ℕ)
      → length kcols ≡ length key
      → length bcols ≡ length body
      → (k : ParamMap Obj) × (d : ParamMap Obj) × (to_tuple number pm
            (record_of name kcols bcols key body gen)
          ≡ ok (k, d))
        × ((n : Text) → k n ≡ last_value n (named kcols key))
        × ((n : Text)
            → d n
              ≡ or_else (last_value n pm) (
                  if text_eq n gen_name
                  then some (number gen)
                  else last_value n (named bcols body)))
  unfolding to_tuple
  to_tuple_lem number pm name kcols bcols key body gen h l =
      let r = record_of name kcols bcols key body gen in
      (
        assign_all (named kcols key) (λ n. none),
        assign_all pm (assign (assign_all (named bcols body) (λ n. none)) gen_name (number gen)),
        rw (fill-key r.meta [] key body gen kcols bcols (λ n. none) (λ n. none) (omega arith) h l)
            refl,
        (λ n.
            assign_all_lem (named kcols key) (λ n'. none) n
            ∙ or_else-none (last_value n (named kcols key))),
        λ n.
            assign_all_lem pm
              (assign (assign_all (named bcols body) (λ n'. none)) gen_name (number gen)) n
            ∙ ap
                (λ w.
                  or_else (last_value n pm) (if text_eq n gen_name then some (number gen) else w))
                (assign_all_lem (named bcols body) (λ n'. none) n
                  ∙ or_else-none (last_value n (named bcols body))),
      )

  at_index-get_tuple :
      (name : Text) (kcols bcols : List Column) (key body : List Obj) (gen idx : ℕ)
      → length kcols ≡ length key
      → length bcols ≡ length body
      → at_index (record_of name kcols bcols key body gen) idx ≡ ok (get_elem? (key ++ body) idx)
  unfolding at_index get_data is_pk
  at_index-get_tuple name kcols bcols key body gen idx h l =
      elim (Bool-cases (ltb idx (length (kcols ++ bcols)))) [
        | inl inside ↦ elim (Bool-cases (ltb idx (length kcols))) [
          | inl front ↦
              let (v, e, f) = get_elem?-left key body idx (ground arith) in
              rw (inside, front, e, f) refl
          | inr behind ↦
              rw (inside, behind)
                (ap (λ (n : ℕ). ok (get_elem? body (idx - n))) h
                  ∙ ap ok (sym (get_elem?-right key body idx (ground arith))))
        ]
        | inr outside ↦ rw outside (
            ap ok (
              sym (
                get_elem?-past (key ++ body) idx
                  (ground (arith, length-append key body, length-append kcols bcols)))))
      ]

  -- The index of a name is that of the first column that has it.
  find_column-first_named :
      (name : Text) (cols : List Column) (vs : List Obj) (idx : ℕ)
      → length cols ≡ length vs
      → ((find_column name cols idx ≡ none) × (first_named name cols vs ≡ none))
        ⊎ ((j : ℕ) × (find_column name cols idx ≡ some (idx + j))
            × (first_named name cols vs ≡ get_elem? vs j))
  unfolding find_column first_named
  find_column-first_named name [] vs idx e = inl (refl, refl)
  find_column-first_named name (col ∷ cols) [] idx e = absurd (omega (arith, e))
  find_column-first_named name (col ∷ cols) (v ∷ vs) idx e =
      elim (Bool-cases (text_eq name col.name)) [
        | inl same ↦ inr (0, rw same (ap some (omega arith)), rw same refl)
        | inr other ↦ elim (find_column-first_named name cols vs (idx + 1) (omega (arith, e))) [
          | inl (p, q) ↦ inl (rw other p, rw other q)
          | inr (j, p, q) ↦ inr (suc j, rw other (p ∙ ap some (omega arith)), rw other q)
        ]
      ]

  -- For a record that fits its table, of less than 2 ^ 64 columns, `at` with a name gives the value of the
  -- first column with that name, among the key columns and the others in their order, and the null object
  -- for an unknown name.
  at_name_lem :
      (name : Text) (kcols bcols : List Column) (key body : List Obj) (gen : ℕ) (n : Text)
      → length kcols ≡ length key
      → length bcols ≡ length body
      → length (kcols ++ bcols) < 2 ^ 64
      → let r = record_of name kcols bcols key body gen in
        at_name r n ≡ ok (first_named n (kcols ++ bcols) (get_tuple r))
  unfolding at_name get_index_by_name get_tuple
  at_name_lem name kcols bcols key body gen n h l small =
      let fits : length (kcols ++ bcols) ≡ length (key ++ body) =
        omega (arith, length-append kcols bcols, length-append key body) in
      let by_index : Option ℕ → Result (Option Obj) = λ o.
        at_index (record_of name kcols bcols key body gen)
          (elim o [ none ↦ npos | some idx ↦ idx ]) in
      elim (find_column-first_named n (kcols ++ bcols) (key ++ body) 0 fits) [
        | inl (p, q) ↦
            ap by_index p
            ∙ at_index-get_tuple name kcols bcols key body gen npos h l
            ∙ ap ok (get_elem?-past (key ++ body) npos (omega arith) ∙ sym q)
        | inr (j, p, q) ↦
            ap by_index p
            ∙ at_index-get_tuple name kcols bcols key body gen (0 + j) h l
            ∙ ap ok (ap (get_elem? (key ++ body)) (omega arith) ∙ sym q)
      ]
