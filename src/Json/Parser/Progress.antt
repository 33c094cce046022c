-- ===== src/Json/Parser/Progress.antt =====
-- The limit of 32 refusals for one code point is never met: the third offer is accepted.
use cyng.Base.{
  ℕ, zero, suc, ◌≤◌, ◌<◌, List, [], ◌∷◌, ◌≡◌, refl, ◌∙◌, sym, Option, true, false, arith, inl, inr,
}
use cyng.Base.Result.{ok, ◌>>=◌, >>=-eq-ok, Result-cases}
use cyng.Csv.Tokenizer.{Conversion}
use cyng.Json.Value.{Int64}
use cyng.Json.Tokenizer
use cyng.Json.Tokenizer.{Symbol, SymbolType, Step, put}
use cyng.Json.Tokenizer.Progress.{refusals, refusals_fall}
use cyng.Json.Parser.{
  State, Machine, build_object, leave, build_array, build_member, expect_value, process_mark,
  process_symbol, symbol_in, next_symbols, offer, offer_up_to,
}

leave-tokenizer :
    (states : List State) (m : Machine) {n : Machine}
    → leave states m ≡ ok n
    → n.tokenizer ≡ m.tokenizer
unfolding leave
leave-tokenizer [] m e = ground arith
leave-tokenizer (s ∷ []) m e = ground arith
leave-tokenizer (s ∷ r ∷ states) m e = ground arith

build_object-tokenizer :
    (m : Machine) {n : Machine} → build_object m ≡ ok n → n.tokenizer ≡ m.tokenizer
unfolding build_object
build_object-tokenizer m e = ground arith

build_array-tokenizer :
    (m : Machine) {n : Machine} → build_array m ≡ ok n → n.tokenizer ≡ m.tokenizer
unfolding build_array
build_array-tokenizer m e = ground arith

build_member-tokenizer :
    (m : Machine) {n : Machine} → build_member m ≡ ok n → n.tokenizer ≡ m.tokenizer
unfolding build_member
build_member-tokenizer m e = ground arith

build_map-tokenizer :
    (m : Machine) {n : Machine}
    → (build_object m >>= λ q. build_member q) ≡ ok n
    → n.tokenizer ≡ m.tokenizer
build_map-tokenizer m e =
    let (q, e1, e2) = >>=-eq-ok (build_object m) (λ q. build_member q) e in
    build_member-tokenizer q e2 ∙ build_object-tokenizer m e1

expect_value-tokenizer :
    (states : List State) (m : Machine) {n : Machine}
    → expect_value states m ≡ ok n
    → n.tokenizer ≡ m.tokenizer
unfolding expect_value
expect_value-tokenizer [] m e = ground arith
expect_value-tokenizer (State.object ∷ states) m e = ground arith
expect_value-tokenizer (s ∷ states) m e = ground arith

process_mark-tokenizer :
    (m : Machine) (c : ℕ) {n : Machine} → process_mark m c ≡ ok n → n.tokenizer ≡ m.tokenizer
unfolding process_mark
process_mark-tokenizer m c {n = n} e = ground (
  arith,
  expect_value-tokenizer m.states m {n = n},
  build_array-tokenizer m {n = n},
  build_map-tokenizer m {n = n},
  build_object-tokenizer m {n = n},
)

process_symbol-tokenizer :
    (m : Machine) (cs : List ℕ) {n : Machine}
    → process_symbol m cs ≡ ok n
    → n.tokenizer ≡ m.tokenizer
unfolding process_symbol
process_symbol-tokenizer m (c ∷ []) e = process_mark-tokenizer m c e
process_symbol-tokenizer m [] e = ground arith
process_symbol-tokenizer m (c ∷ d ∷ cs) e = ground arith

module _ (u32_to_u8 : List ℕ → Conversion) (to_int64 : List ℕ → Option Int64)
    (to_double : List ℕ → Option ℕ) where
  symbol_in-tokenizer :
      (type : SymbolType) (m : Machine) (chars : List ℕ) {n : Machine}
      → symbol_in u32_to_u8 to_int64 to_double type m chars ≡ ok n
      → n.tokenizer ≡ m.tokenizer
  unfolding symbol_in
  symbol_in-tokenizer SymbolType.symbol m chars e = process_symbol-tokenizer m chars e
  symbol_in-tokenizer type m chars e = ground arith

  next_symbols-tokenizer :
      (syms : List Symbol) (m : Machine) {n : Machine}
      → next_symbols u32_to_u8 to_int64 to_double m syms ≡ ok n
      → n.tokenizer ≡ m.tokenizer
  unfolding next_symbols
  next_symbols-tokenizer [] m e = ground arith
  next_symbols-tokenizer (sym ∷ syms) m e =
      let (r, e1, e2) =
        >>=-eq-ok (symbol_in u32_to_u8 to_int64 to_double sym.type m sym.value) _ e in
      next_symbols-tokenizer syms r e2 ∙ symbol_in-tokenizer sym.type m sym.value e1

  -- A code point that is refused leaves fewer refusals.
  offer_falls :
      (m n : Machine) (tok : ℕ)
      → offer u32_to_u8 to_int64 to_double m tok ≡ ok (n, false)
      → refusals n.tokenizer.state < refusals m.tokenizer.state
  unfolding offer
  offer_falls m n tok e =
      let (st, e1, e2) = >>=-eq-ok (put u32_to_u8 m.tokenizer tok) _ e in
      let (r, e3, e4) =
        >>=-eq-ok
          (next_symbols u32_to_u8 to_int64 to_double (record m { tokenizer = st.next }) st.symbols)
          _ e2 in
      let kept = next_symbols-tokenizer st.symbols (record m { tokenizer = st.next }) e3 in
      let same : n.tokenizer ≡ st.next = cc in
      rw same (refusals_fall u32_to_u8 m.tokenizer.state m.tokenizer tok st e1 (cc))

  -- Where the limit covers the refusals, a larger one changes nothing.
  pub offer_up_to-steady :
      (r n : ℕ) (m : Machine) (tok : ℕ)
      → refusals m.tokenizer.state ≤ r
      → r ≤ n
      → offer_up_to u32_to_u8 to_int64 to_double n m tok
        ≡ offer_up_to u32_to_u8 to_int64 to_double r m tok
  unfolding offer_up_to
  offer_up_to-steady zero zero m tok h k = refl
  offer_up_to-steady zero (suc n) m tok h k =
      elim (Result-cases (offer u32_to_u8 to_int64 to_double m tok)) [
        | inl ((q, true), e) ↦ rw e
        | inl ((q, false), e) ↦ absurd (omega (arith, offer_falls m q tok e))
        | inr (x, e) ↦ rw e
      ]
  offer_up_to-steady (suc r) zero m tok h k = absurd (omega arith)
  offer_up_to-steady (suc r) (suc n) m tok h k =
      elim (Result-cases (offer u32_to_u8 to_int64 to_double m tok)) [
        | inl ((q, true), e) ↦ rw e
        | inl ((q, false), e) ↦
            rw e (offer_up_to-steady r n q tok (omega (arith, offer_falls m q tok e)) (omega arith))
        | inr (x, e) ↦ rw e
      ]
