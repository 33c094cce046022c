-- ===== src/Json/Parser/Containers.antt =====
-- The containers that are made of what stands above a mark on the stack.
use cyng.Base.{
  ℕ, List, [], ◌∷◌, ◌++◌, reverse, append-nil, append_assoc, ◌≡◌, refl, ◌∙◌, ap, sym, true, false,
}
use mathlib.Core.List.{reverse-cons, reverse-reverse}
use cyng.Json.Value.{
  Value, vector, param, param_map, eod, Values, nil, cons, Fields, end, field, to_list,
  of_list-to_list, emplace, is_eod,
}
use cyng.Json.Printable.{Below}
use cyng.Json.Tokenizer
use cyng.Json.Parser.{
  State, Machine, collect_array, collect_member, build_array, build_member, leave, not_empty,
}
use cyng.Json.Parser.Run.{at}

-- The elements of a vector on the stack, the last on top.
unfoldable pub push_values : Values → List Value → List Value
push_values nil st = st
push_values (cons v vs) st = push_values vs (v ∷ st)

unfoldable pub push_fields : Fields → List Value → List Value
push_fields end st = st
push_fields (field k v fs) st = push_fields fs (param k v ∷ st)

abbrev pub AreElements : Values → Type 0
AreElements nil = Unit
AreElements (cons v vs) = (is_eod v ≡ false) × AreElements vs

abbrev pub AreSorted : Fields → Type 0
AreSorted end = Unit
AreSorted (field k v fs) = Below k fs × AreSorted fs

collect_array_more :
    (vec : List Value) (v : Value) (st : List Value)
    → is_eod v ≡ false
    → collect_array vec (v ∷ st) ≡ collect_array (vec ++ v ∷ []) st
unfolding collect_array
collect_array_more vec v st h = rw h

collect_array-push :
    (vs : Values) (vec st : List Value)
    → AreElements vs
    → collect_array vec (push_values vs st) ≡ collect_array (vec ++ reverse (to_list vs)) st
unfolding push_values to_list
collect_array-push nil vec st h = rw append-nil
collect_array-push (cons v vs) vec st h =
    collect_array-push vs vec (v ∷ st) h.1
    ∙ collect_array_more (vec ++ reverse (to_list vs)) v st h.0
    ∙ ap (λ l. collect_array l st)
        (append_assoc vec (reverse (to_list vs)) (v ∷ [])
          ∙ ap (λ l. vec ++ l) (sym (reverse-cons v (to_list vs))))

emplace-Below : (k : List ℕ) (v : Value) (fs : Fields) → Below k fs → emplace k v fs ≡ field k v fs
unfolding emplace
emplace-Below k v end h = refl
emplace-Below k v (field j w fs) h = rw h

collect_member-push :
    (fs : Fields) (st : List Value)
    → AreSorted fs
    → collect_member end (push_fields fs st) ≡ collect_member fs st
unfolding push_fields
collect_member-push end st h = refl
collect_member-push (field k v fs) st h =
    collect_member-push fs (param k v ∷ st) h.1
    ∙ unfold collect_member in rw (emplace-Below k v fs h.0)

not_empty-push_values :
    (vs : Values) (v : Value) (st : List Value) → not_empty (push_values vs (v ∷ st)) ≡ true
unfolding push_values not_empty
not_empty-push_values nil v st = refl
not_empty-push_values (cons w vs) v st = not_empty-push_values vs w (v ∷ st)

not_empty-push_fields :
    (fs : Fields) (v : Value) (st : List Value) → not_empty (push_fields fs (v ∷ st)) ≡ true
unfolding push_fields not_empty
not_empty-push_fields end v st = refl
not_empty-push_fields (field k w fs) v st = not_empty-push_fields fs (param k w) (v ∷ st)

module _ (d : List Value) (ss : List State) (st : List Value) where
  abbrev between : List Value → Machine
  between = at d ss Tokenizer.State.start []

  -- `]` puts the vector of the elements in the place of the mark.
  pub build_array-push :
      (vs : Values)
      → AreElements vs
      → build_array (between (push_values vs (eod ∷ st))) ≡ leave ss (between (vector vs ∷ st))
  unfolding build_array collect_array
  build_array-push vs h =
      rw
        (
          not_empty-push_values vs eod st,
          collect_array-push vs [] (eod ∷ st) h,
          reverse-reverse (to_list vs),
          of_list-to_list vs,
        )
        refl

  -- `}` puts the map of the parameters in the place of the mark.
  pub build_member-push :
      (fs : Fields)
      → AreSorted fs
      → build_member (between (push_fields fs (eod ∷ st))) ≡ leave ss (between (param_map fs ∷ st))
  unfolding build_member collect_member
  build_member-push fs h =
      rw (not_empty-push_fields fs eod st, collect_member-push fs (eod ∷ st) h) refl
