-- ===== src/Csv/Parser/Progress.antt =====
-- The limit of 32 refusals for one code point is never met: the second offer is accepted.
use cyng.Base.{ℕ, zero, suc, List, [], ◌∷◌, ◌≡◌, refl, ◌∙◌, sym, Bool, true, false, arith, inl, inr}
use cyng.Base.Result.{ok, >>=-eq-ok, Result-cases}
use cyng.Csv.Tokenizer.{Symbol, Step, Conversion, put}
use cyng.Csv.Tokenizer.Progress.{put-put}
use cyng.Csv.Parser.{Parser, next_symbol, next_symbols, offer, offer_up_to, next_code_point}

next_symbol-tokenizer :
    (p : Parser) (sym : Symbol) {q : Parser} → next_symbol p sym ≡ ok q → q.tokenizer ≡ p.tokenizer
unfolding next_symbol
next_symbol-tokenizer p sym e = ground arith

pub next_symbols-tokenizer :
    (syms : List Symbol) (p : Parser) {q : Parser}
    → next_symbols p syms ≡ ok q
    → q.tokenizer ≡ p.tokenizer
unfolding next_symbols
next_symbols-tokenizer [] p e = ground arith
next_symbols-tokenizer (sym ∷ syms) p e =
    let (r, e1, e2) = >>=-eq-ok (next_symbol p sym) (λ r. next_symbols r syms) e in
    next_symbols-tokenizer syms r e2 ∙ next_symbol-tokenizer p sym e1

module _ (u32_to_u8 : List ℕ → Conversion) where
  offer_parts :
      (p : Parser) (tok : ℕ) {q : Parser} {b : Bool}
      → offer u32_to_u8 p tok ≡ ok (q, b)
      → (st : Step) × (put u32_to_u8 p.tokenizer tok ≡ ok st)
        × (b ≡ st.advance)
        × (q.tokenizer ≡ st.next)
  unfolding offer
  offer_parts p tok e =
      let (st, e1, e2) = >>=-eq-ok (put u32_to_u8 p.tokenizer tok) _ e in
      let (r, e3, e4) =
        >>=-eq-ok (next_symbols (record p { tokenizer = st.next }) st.symbols) _ e2 in
      (st, e1, cc, cc (next_symbols-tokenizer st.symbols (record p { tokenizer = st.next }) e3))

  -- What an offer that is refused leaves accepts the code point.
  offer-offer :
      (p q r : Parser) (tok : ℕ) (b : Bool)
      → offer u32_to_u8 p tok ≡ ok (q, false)
      → offer u32_to_u8 q tok ≡ ok (r, b)
      → b ≡ true
  offer-offer p q r tok b e f =
      let (st, e1, e2, e3) = offer_parts p tok e in
      let (st', f1, f2, f3) = offer_parts q tok f in
      let (again, g1, g2) = put-put u32_to_u8 p.tokenizer tok st e1 (sym e2) in cc

  offer_up_to-accepted :
      (q : Parser) (tok n : ℕ)
      → ((r : Parser) (b : Bool) → offer u32_to_u8 q tok ≡ ok (r, b) → b ≡ true)
      → offer_up_to u32_to_u8 n q tok ≡ offer_up_to u32_to_u8 0 q tok
  unfolding offer_up_to
  offer_up_to-accepted q tok zero h = refl
  offer_up_to-accepted q tok (suc n) h = elim (Result-cases (offer u32_to_u8 q tok)) [
    | inl ((r, b), e) ↦ rw (e, h r b e)
    | inr (x, e) ↦ rw e
  ]

  refused_once :
      (p : Parser) (tok n : ℕ) → offer_up_to u32_to_u8 (suc n) p tok ≡ offer_up_to u32_to_u8 1 p tok
  unfolding offer_up_to
  refused_once p tok n = elim (Result-cases (offer u32_to_u8 p tok)) [
    | inl ((q, true), e) ↦ rw e
    | inl ((q, false), e) ↦
        rw e (offer_up_to-accepted q tok n (λ r b f. offer-offer p q r tok b e f))
    | inr (x, e) ↦ rw e
  ]

  -- Any positive limit of refusals gives the same result as the limit 32 of the source.
  offer_up_to-limit :
      (p : Parser) (tok n : ℕ)
      → offer_up_to u32_to_u8 (suc n) p tok ≡ next_code_point u32_to_u8 p tok
  unfolding next_code_point
  offer_up_to-limit p tok n = refused_once p tok n ∙ sym (refused_once p tok 31)
