-- ===== src/Json/Parser/Marks.antt =====
-- The marks on the stack never outnumber the containers that are open.
use cyng.Base.{
  ℕ, zero, suc, ◌+◌, ◌≤◌, ◌==◌, List, [], ◌∷◌, ◌++◌, ◌≡◌, refl, sym, Option, true, false, arith,
  reverse, length, Bool-cases, inl, inr, if◌then◌else◌, Bool, subst,
}
use cyng.Base.Result.{Fault, ok, ◌>>=◌, >>=-eq-ok, Result-cases, err}
use cyng.Csv.Tokenizer.{Conversion}
use cyng.Json.Value.{
  Int64, Value, vector, param_map, Fields, end, of_list, is_eod, as_param, emplace,
}
use cyng.Json.Tokenizer.{Symbol, SymbolType, put}
use cyng.Json.Parser.{
  State, Machine, not_empty, build_param, build_object, build_object_in, collect_array,
  collect_member, swap_mark, leave, cleanup, build_array, build_member, expect_value, process_mark,
  process_symbol, symbol_in, next_symbols, offer, offer_up_to, next_code_point, init,
}
use cyng.Json.Parser.Run.{run}

abbrev mark : Value → ℕ
mark v = if is_eod v then 1 else 0

-- How many containers have begun on the stack.
abbrev pub marks : List Value → ℕ
marks [] = 0
marks (v ∷ st) = mark v + marks st

-- Every mark on the stack belongs to an open container.
pub record IsMarked (m : Machine) : Type 0 where
  pub few : marks m.stack ≤ length m.states

build_param-marks :
    (st : List Value) {st' : List Value} → build_param st ≡ ok st' → marks st' ≤ marks st
unfolding build_param is_eod
build_param-marks [] e = ground arith
build_param-marks (x ∷ []) e = ground arith
build_param-marks (x ∷ y ∷ []) e = ground arith
build_param-marks (x ∷ y ∷ z ∷ st) e = ground arith

build_object-IsMarked :
    (ss : List State) (m n : Machine)
    → m.states ≡ ss
    → build_object_in ss m ≡ ok n
    → IsMarked m
    → IsMarked n
unfolding build_object_in
build_object-IsMarked [] m n s e h = ground arith
build_object-IsMarked (State.value ∷ ss) m n s e h =
    let (st, e1, e2) = >>=-eq-ok (build_param m.stack) _ e in
    record { few = ground (arith, build_param-marks m.stack e1, h.few) }
build_object-IsMarked (State.array ∷ ss) m n s e h = ground arith
build_object-IsMarked (State.object ∷ ss) m n s e h = ground arith

collect_array-marks : (vec st : List Value) → marks (collect_array vec st).1 ≡ marks st
unfolding collect_array
collect_array-marks vec [] = refl
collect_array-marks vec (v ∷ st) = ground (arith, collect_array-marks (vec ++ v ∷ []) st)

collect_member-marks : (pm : Fields) (st : List Value) → marks (collect_member pm st).1 ≡ marks st
unfolding collect_member
collect_member-marks pm [] = refl
collect_member-marks pm (v ∷ st) =
    ground (arith, collect_member-marks (emplace (as_param v).0 (as_param v).1 pm) st)

swap_mark-marks :
    (container : Value) (st : List Value) {st' : List Value}
    → is_eod container ≡ false
    → swap_mark container st ≡ ok st'
    → marks st' + 1 ≡ marks st
unfolding swap_mark
swap_mark-marks container [] h e = ground arith
swap_mark-marks container (v ∷ st) h e = ground arith

leave-IsMarked :
    (ss : List State) (m : Machine) {n : Machine}
    → marks m.stack + 1 ≤ length ss
    → leave ss m ≡ ok n
    → IsMarked n
unfolding leave cleanup
leave-IsMarked [] m h e = absurd (omega arith)
leave-IsMarked (s ∷ []) m h e = elim (Bool-cases (length m.stack == 1)) [
  | inl one ↦ ground arith
  | inr other ↦ ground arith
]
leave-IsMarked (s ∷ outer ∷ ss) m h e = ground arith

-- The container takes the place of its mark, and one container less is open.
swap_leave-IsMarked :
    (container : Value) (rest : List Value) (m : Machine) {n : Machine}
    → is_eod container ≡ false
    → marks rest ≡ marks m.stack
    → (swap_mark container rest >>= λ st. leave m.states (record m { stack = st })) ≡ ok n
    → IsMarked m
    → IsMarked n
swap_leave-IsMarked container rest m h k e marked =
    let (st, e1, e2) = >>=-eq-ok (swap_mark container rest) _ e in
    leave-IsMarked m.states (record m { stack = st })
      (omega (arith, swap_mark-marks container rest h e1, marked.few)) e2

build_array-IsMarked : (m : Machine) {n : Machine} → build_array m ≡ ok n → IsMarked m → IsMarked n
unfolding build_array is_eod
build_array-IsMarked m e h = elim (Bool-cases (not_empty m.stack)) [
  | inl some_left ↦
      swap_leave-IsMarked (vector (of_list (reverse (collect_array [] m.stack).0)))
        (collect_array [] m.stack).1 m refl (collect_array-marks [] m.stack) (rw some_left at e) h
  | inr empty ↦ ground arith
]

build_member-IsMarked :
    (m : Machine) {n : Machine} → build_member m ≡ ok n → IsMarked m → IsMarked n
unfolding build_member is_eod
build_member-IsMarked m e h = elim (Bool-cases (not_empty m.stack)) [
  | inl some_left ↦
      swap_leave-IsMarked (param_map (collect_member end m.stack).0) (collect_member end m.stack).1
        m refl (collect_member-marks end m.stack) (rw some_left at e) h
  | inr empty ↦ ground arith
]

build_map-IsMarked :
    (m : Machine) {n : Machine}
    → (build_object m >>= λ q. build_member q) ≡ ok n
    → IsMarked m
    → IsMarked n
unfolding build_object
build_map-IsMarked m e h =
    let (q, e1, e2) = >>=-eq-ok (build_object m) (λ q. build_member q) e in
    build_member-IsMarked q e2 (build_object-IsMarked m.states m q refl e1 h)

expect_value-IsMarked :
    (ss : List State) (m : Machine) {n : Machine}
    → m.states ≡ ss
    → expect_value ss m ≡ ok n
    → IsMarked m
    → IsMarked n
unfolding expect_value
expect_value-IsMarked [] m s e h = ground arith
expect_value-IsMarked (State.object ∷ ss) m s e h = ground (arith, h.few)
expect_value-IsMarked (State.array ∷ ss) m s e h = ground arith
expect_value-IsMarked (State.value ∷ ss) m s e h = ground arith

process_mark-IsMarked :
    (m : Machine) (c : ℕ) {n : Machine} → process_mark m c ≡ ok n → IsMarked m → IsMarked n
unfolding process_mark is_eod build_object
process_mark-IsMarked m c {n = n} e h = ground (
  arith,
  h.few,
  expect_value-IsMarked m.states m {n = n} refl,
  build_array-IsMarked m {n = n},
  build_map-IsMarked m {n = n},
  build_object-IsMarked m.states m n refl,
)

err-ne-ok : {n : Machine} {x : Fault} → err x ≡ ok n → ⊥
err-ne-ok e = cc

process_symbol-IsMarked :
    (m : Machine) (cs : List ℕ) {n : Machine} → process_symbol m cs ≡ ok n → IsMarked m → IsMarked n
unfolding process_symbol
process_symbol-IsMarked m (c ∷ []) e h = process_mark-IsMarked m c e h
process_symbol-IsMarked m [] e h = ground arith
process_symbol-IsMarked m (c ∷ d ∷ cs) e h = ground arith

module _ (u32_to_u8 : List ℕ → Conversion) (to_int64 : List ℕ → Option Int64)
    (to_double : List ℕ → Option ℕ) where
  symbol_in-IsMarked :
      (type : SymbolType) (m : Machine) (chars : List ℕ) {n : Machine}
      → symbol_in u32_to_u8 to_int64 to_double type m chars ≡ ok n
      → IsMarked m
      → IsMarked n
  unfolding symbol_in is_eod
  symbol_in-IsMarked SymbolType.symbol m chars e h = process_symbol-IsMarked m chars e h
  symbol_in-IsMarked type m chars e h = ground (arith, h.few)

  next_symbols-IsMarked :
      (syms : List Symbol) (m : Machine) {n : Machine}
      → next_symbols u32_to_u8 to_int64 to_double m syms ≡ ok n
      → IsMarked m
      → IsMarked n
  unfolding next_symbols
  next_symbols-IsMarked [] m e h = ground arith
  next_symbols-IsMarked (sym ∷ syms) m e h =
      let (r, e1, e2) =
        >>=-eq-ok (symbol_in u32_to_u8 to_int64 to_double sym.type m sym.value) _ e in
      next_symbols-IsMarked syms r e2 (symbol_in-IsMarked sym.type m sym.value e1 h)

  offer-IsMarked :
      (m n : Machine) (b : Bool) (tok : ℕ)
      → offer u32_to_u8 to_int64 to_double m tok ≡ ok (n, b)
      → IsMarked m
      → IsMarked n
  unfolding offer
  offer-IsMarked m n b tok e h =
      let (st, e1, e2) = >>=-eq-ok (put u32_to_u8 m.tokenizer tok) _ e in
      let (r, e3, e4) =
        >>=-eq-ok
          (next_symbols u32_to_u8 to_int64 to_double (record m { tokenizer = st.next }) st.symbols)
          _ e2 in
      let kept =
        next_symbols-IsMarked st.symbols (record m { tokenizer = st.next }) e3
          (record { few = h.few }) in
      let same : r ≡ n = cc in subst IsMarked same kept

  offer_up_to-IsMarked :
      (limit : ℕ) (m n : Machine) (tok : ℕ)
      → offer_up_to u32_to_u8 to_int64 to_double limit m tok ≡ ok n
      → IsMarked m
      → IsMarked n
  unfolding offer_up_to
  offer_up_to-IsMarked zero m n tok e h =
      let ((q, b), e1, e2) = >>=-eq-ok (offer u32_to_u8 to_int64 to_double m tok) _ e in
      let same : q ≡ n = cc in subst IsMarked same (offer-IsMarked m q b tok e1 h)
  offer_up_to-IsMarked (suc limit) m n tok e h =
      elim (Result-cases (offer u32_to_u8 to_int64 to_double m tok)) [
        | inl ((q, true), f) ↦
            let g = rw f at e in
            let same : q ≡ n = cc in subst IsMarked same (offer-IsMarked m q true tok f h)
        | inl ((q, false), f) ↦
            offer_up_to-IsMarked limit q n tok (rw f at e) (offer-IsMarked m q false tok f h)
        | inr (x, f) ↦ absurd (err-ne-ok (rw f at e))
      ]

  run-IsMarked :
      (cs : List ℕ) (m n : Machine)
      → run u32_to_u8 to_int64 to_double m cs ≡ ok n
      → IsMarked m
      → IsMarked n
  unfolding run next_code_point
  run-IsMarked [] m n e h = let same : m ≡ n = cc in subst IsMarked same h
  run-IsMarked (c ∷ cs) m n e h =
      let (q, e1, e2) = >>=-eq-ok (next_code_point u32_to_u8 to_int64 to_double m c) _ e in
      run-IsMarked cs q n e2 (offer_up_to-IsMarked 32 m q c e1 h)

  -- Whatever text has been read without a fault, there are at most as many marks on the stack as
  -- containers are open; so none where no container is open.
  pub marks-run :
      (cs : List ℕ) (n : Machine)
      → run u32_to_u8 to_int64 to_double init cs ≡ ok n
      → marks n.stack ≤ length n.states
  marks-run cs n e = (run-IsMarked cs init n e (record { few = omega arith })).few
