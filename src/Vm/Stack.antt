-- ===== src/Vm/Stack.antt =====
-- src/vm/src/stack.cpp and include/cyng/vm/stack.h. The head of `items` is the back of `s_`, so an
-- index of `s_` counts from the end. `checked` tells whether `BOOST_ASSERT` is compiled in.
pub mod Frames
pub mod Containers
use cyng.Base.{
  ℕ, zero, suc, ◌+◌, ◌-◌, ◌<◌, ◌%◌, ◌^◌, Bool, true, false, not, List, [], ◌∷◌, ◌++◌, reverse,
  Option, none, some, ltb, leb, ◌==◌, if◌then◌else◌, length, get_elem?, drop,
}
use cyng.Vm.Value.{
  Value, size_value, text_value, attr_value, param_value, tuple_value, vector_value, deque_value,
  Values, of_list, to_list,
}
use cyng.Base.Result.{
  Result, ok, err, Fault, assertion, undefined, out_of_range, ◌>>=◌, ◌>>◌, assert,
}

pub record Stack : Type 0 where
  pub items : List Value
  pub bp : ℕ

abbrev pub empty : Stack
empty = record { items = []; bp = 0 }

unfoldable pub as_size : Value → Option ℕ
as_size (size_value n) = some n
as_size _ = none

unfoldable pub as_text : Value → Option (List ℕ)
as_text (text_value t) = some t
as_text _ = none

-- The elements of a container.
unfoldable pub elements : Value → Option (List Value)
unfolding to_list
elements (tuple_value vs) = some (to_list vs)
elements (vector_value vs) = some (to_list vs)
elements (deque_value vs) = some (to_list vs)
elements _ = none

unfoldable pub push : Value → Stack → Stack
push v st = record st { items = v ∷ st.items }

unfoldable pub esba : Stack → Stack
unfolding push
esba st = push (size_value st.bp) (record st { bp = length st.items })

-- The elements but the one at an index from the back.
unfoldable pub erase_at : ℕ → List Value → List Value
erase_at n [] = []
erase_at zero (v ∷ items) = items
erase_at (suc n) (v ∷ items) = v ∷ erase_at n items

unfoldable pub push_all : List Value → Stack → Stack
unfolding push
push_all [] st = st
push_all (v ∷ vs) st = push_all vs (push v st)

module _ (checked : Bool) where
  -- `BOOST_ASSERT(test)`, where it is compiled in.
  abbrev pub check : Bool → Result (Unit {0})
  check test = if checked then assert test else ok tt

  -- What is read of a stack that has no element.
  abbrev pub fault : Fault
  fault = if checked then assertion else undefined

  unfoldable pub pop : Stack → Result Stack
  pop st = elim st.items [ [] ↦ err fault | v ∷ items ↦ ok (record st { items = items }) ]

  -- `top_value`, with the default value for an object of another type.
  unfoldable pub top_value : {A : Type 0} → (Value → Option A) → A → Stack → Result A
  top_value cast default st = elim st.items [
    | [] ↦ err fault
    | v ∷ items ↦ elim (cast v) [
      | some a ↦ ok a
      | none ↦ if checked then err assertion else ok default
    ]
  ]

  unfoldable pub pop_value : {A : Type 0} → (Value → Option A) → A → Stack → Result (A × Stack)
  unfolding top_value pop
  pop_value cast default st = do a ← top_value cast default st; st' ← pop st; ok (a, st')

  unfoldable pub remove : Stack → Result (Value × Stack)
  remove st = elim st.items [ [] ↦ err undefined | v ∷ items ↦ ok (v, record st { items = items }) ]

  -- `s_.at(bp_)`, which throws; an object of another type gives 0.
  unfoldable pub saved_bp : Stack → Result ℕ
  unfolding as_size
  saved_bp st = do
    check (ltb st.bp (length st.items))
    elim (ltb st.bp (length st.items)) [
      | false ↦ err out_of_range
      | true ↦ elim (get_elem? st.items (length st.items - 1 - st.bp)) [
        | none ↦ err out_of_range
        | some v ↦ elim (as_size v) [ none ↦ ok 0 | some n ↦ ok n ]
      ]
    ]

  -- `s_.resize(bp)` shrinks the stack, since `saved_bp` has returned.
  unfoldable pub reba : Stack → Result Stack
  unfolding saved_bp
  reba st = do
    saved ← saved_bp st
    check (ltb st.bp saved)
    check (ltb saved (length st.items))
    ok (record { items = drop (length st.items - st.bp) st.items; bp = saved })

  unfoldable pub pull : Stack → Result Stack
  unfolding saved_bp erase_at
  pull st = do
    saved ← saved_bp st
    check (ltb st.bp (length st.items))
    ok (record { items = erase_at (length st.items - 1 - st.bp) st.items; bp = saved })

  -- The size without the saved base pointer; less than none is the largest number.
  unfoldable pub frm : Stack → Result Stack
  unfolding push
  frm st = do
    check (ltb st.bp (length st.items))
    ok (push (size_value ((length st.items + 2 ^ 65 - st.bp - 1) % 2 ^ 64)) st)

  unfoldable pub make_attr : Stack → Result Stack
  unfolding pop_value remove push as_size
  make_attr st = do
    check (ltb 1 (length st.items))
    (idx, st1) ← pop_value as_size 0 st
    (v, st2) ← remove st1
    ok (push (attr_value idx v) st2)

  unfoldable pub make_param : Stack → Result Stack
  unfolding pop_value remove push as_text
  make_param st = do
    check (ltb 1 (length st.items))
    (key, st1) ← pop_value as_text [] st
    (v, st2) ← remove st1
    ok (push (param_value key v) st2)

  -- `while (size-- != 0)`: the elements taken from the top, behind those that are there.
  unfoldable pub collect : ℕ → List Value → Stack → Result (List Value × Stack)
  unfolding pop
  collect zero taken st = ok (taken, st)
  collect (suc n) taken st = elim st.items [
    | [] ↦ err fault
    | v ∷ items ↦ collect n (taken ++ v ∷ []) (record st { items = items })
  ]

  -- `make_tuple`, `make_vector` and `make_deque`, by the container that they build.
  unfoldable pub make : (Values → Value) → Stack → Result Stack
  unfolding top_value pop collect of_list push as_size
  make build st = do
    check (ltb 0 (length st.items))
    size ← top_value as_size 0 st
    check (ltb size (length st.items))
    st1 ← pop st
    (taken, st2) ← collect size [] st1
    ok (push (build (of_list taken)) st2)

  -- A top that is no container is left as it is, where the assertion is not compiled in.
  unfoldable pub split : Stack → Result Stack
  unfolding elements push_all push
  split st = elim st.items [
    | [] ↦ err fault
    | v ∷ items ↦ elim (elements v) [
      | none ↦ do check false; ok st
      | some vs ↦ ok (push (size_value (length vs)) (push_all vs (record st { items = items })))
    ]
  ]

  unfoldable pub swap : Stack → Result Stack
  swap st = elim st.items [
    | [] ↦ err fault
    | v ∷ rest ↦ elim rest [ [] ↦ err fault | w ∷ items ↦ ok (record st { items = w ∷ v ∷ items }) ]
  ]
