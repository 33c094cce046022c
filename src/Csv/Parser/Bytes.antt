-- ===== src/Csv/Parser/Bytes.antt =====
-- The reader on bytes: it decodes the text, and reads its code points.
use cyng.Base.{
  ℕ, zero, suc, ◌+◌, List, [], ◌∷◌, ◌++◌, ◌≡◌, ◌≢◌, refl, sym, ◌∙◌, ap, inl, inr, ◌⊎◌, true, false,
  ◌&&◌, arith, ◌==◌, length, Bool-cases,
}
use cyng.Base.Result.{Result, ok, err, ◌>>=◌, Result-cases}
use cyng.Utf8
use cyng.Utf8.{U8ToU32, sanitize, sanitize-append, state_after, state_after-append}
use cyng.Csv.Tokenizer.{Symbol, Conversion, put}
use cyng.Csv.Parser.{
  Parser, next_symbol, next_symbols, offer, offer_up_to, next_code_point, put_char, read_char,
  read_chars, read, count,
}
use cyng.Csv.Parser.Run.{run, run-append}

-- The reader with another decoder and another count of bytes.
abbrev pub with_bytes : Parser → U8ToU32 → ℕ → Parser
with_bytes p s k = record p { sanitizer = s; counter = k }

module _ (s : U8ToU32) (k : ℕ) where
  next_symbol-with_bytes :
      (p : Parser) (sym : Symbol)
      → next_symbol (with_bytes p s k) sym ≡ (next_symbol p sym >>= λ q. ok (with_bytes q s k))
  unfolding next_symbol
  next_symbol-with_bytes p sym = ground arith

  next_symbols-with_bytes :
      (syms : List Symbol) (p : Parser)
      → next_symbols (with_bytes p s k) syms ≡ (next_symbols p syms >>= λ q. ok (with_bytes q s k))
  unfolding next_symbols
  next_symbols-with_bytes [] p = refl
  next_symbols-with_bytes (sym ∷ syms) p = elim (Result-cases (next_symbol p sym)) [
    | inl (q, e) ↦ rw (next_symbol-with_bytes p sym, e) (next_symbols-with_bytes syms q)
    | inr (x, e) ↦ rw (next_symbol-with_bytes p sym, e)
  ]

  module _ (u32_to_u8 : List ℕ → Conversion) where
    offer-with_bytes :
        (p : Parser) (tok : ℕ)
        → offer u32_to_u8 (with_bytes p s k) tok
          ≡ (offer u32_to_u8 p tok >>= λ r. ok (with_bytes r.0 s k, r.1))
    unfolding offer
    offer-with_bytes p tok = elim (Result-cases (put u32_to_u8 p.tokenizer tok)) [
      | inl (st, e) ↦
          rw e (elim (Result-cases (next_symbols (record p { tokenizer = st.next }) st.symbols)) [
            | inl (q, f) ↦
                rw (next_symbols-with_bytes st.symbols (record p { tokenizer = st.next }), f)
            | inr (x, f) ↦
                rw (next_symbols-with_bytes st.symbols (record p { tokenizer = st.next }), f)
          ])
      | inr (x, e) ↦ rw e
    ]

    offer_up_to-with_bytes :
        (n : ℕ) (p : Parser) (tok : ℕ)
        → offer_up_to u32_to_u8 n (with_bytes p s k) tok
          ≡ (offer_up_to u32_to_u8 n p tok >>= λ q. ok (with_bytes q s k))
    unfolding offer_up_to
    offer_up_to-with_bytes zero p tok = elim (Result-cases (offer u32_to_u8 p tok)) [
      | inl ((q, b), e) ↦ rw (offer-with_bytes p tok, e)
      | inr (x, e) ↦ rw (offer-with_bytes p tok, e)
    ]
    offer_up_to-with_bytes (suc n) p tok = elim (Result-cases (offer u32_to_u8 p tok)) [
      | inl ((q, true), e) ↦ rw (offer-with_bytes p tok, e)
      | inl ((q, false), e) ↦ rw (offer-with_bytes p tok, e) (offer_up_to-with_bytes n q tok)
      | inr (x, e) ↦ rw (offer-with_bytes p tok, e)
    ]

    next_code_point-with_bytes :
        (p : Parser) (tok : ℕ)
        → next_code_point u32_to_u8 (with_bytes p s k) tok
          ≡ (next_code_point u32_to_u8 p tok >>= λ q. ok (with_bytes q s k))
    unfolding next_code_point
    next_code_point-with_bytes p tok = offer_up_to-with_bytes 32 p tok

-- The text does not begin with the first byte of a mark, or is no beginning.
abbrev pub StartsNoMark : ℕ → List ℕ → Type 0
StartsNoMark k [] = Unit
StartsNoMark k (c ∷ cs) = (k ≢ 0) ⊎ (c ≢ 0xEF)

pub starts_later : (k : ℕ) (cs : List ℕ) → StartsNoMark (k + 1) cs
starts_later k [] = tt
starts_later k (c ∷ cs) = inl (omega arith)

pub no_mark : (k c : ℕ) → (k ≢ 0) ⊎ (c ≢ 0xEF) → (k == 0 && c == 0xEF) ≡ false
no_mark k c h = ground arith

bind_ok : (m : Result Parser) (f : Parser → Result Parser) → (m >>= f) ≡ ((m >>= λ q. ok q) >>= f)
bind_ok (ok q) f = refl
bind_ok (err x) f = refl

module _ (u32_to_u8 : List ℕ → Conversion) where
  put_char-with_bytes :
      (p : Parser) (s : U8ToU32) (k c : ℕ)
      → put_char u32_to_u8 (with_bytes p s k) c
        ≡ (run u32_to_u8 p (sanitize s (c ∷ [])) >>= λ q. ok (with_bytes q (Utf8.put s c).0 k))
  unfolding put_char next_code_point run sanitize
  put_char-with_bytes p s k c = elim (Bool-cases (Utf8.put s c).2) [
    | inl whole ↦
        rw (whole, next_code_point-with_bytes (Utf8.put s c).0 k u32_to_u8 p (Utf8.put s c).1)
          (bind_ok (next_code_point u32_to_u8 p (Utf8.put s c).1) _)
    | inr part ↦ rw part
  ]

  -- A byte that is not taken for the start of a mark.
  read_char-put_char :
      (trailer : List ℕ) (p : Parser) (c : ℕ)
      → (p.counter ≢ 0) ⊎ (c ≢ 0xEF)
      → read_char u32_to_u8 (record { bom = false; trailer = trailer; parser = p }) c ≡ (
          put_char u32_to_u8 p c >>= λ q.
          ok (record { bom = false; trailer = trailer; parser = count q }))
  unfolding read_char
  read_char-put_char trailer p c h = rw (no_mark p.counter c h)

  -- Behind the first byte, or where that is no mark, every byte goes to the decoder.
  read_chars-run :
      (cs trailer : List ℕ) (p : Parser) (s : U8ToU32) (k : ℕ)
      → StartsNoMark k cs
      → read_chars u32_to_u8
          (record { bom = false; trailer = trailer; parser = with_bytes p s k })
          cs
        ≡ (run u32_to_u8 p (sanitize s cs) >>= λ q. ok (record {
          bom = false;
          trailer = trailer;
          parser = with_bytes q (state_after s cs) (k + length cs);
        }))
  unfolding read_chars state_after
  read_chars-run [] trailer p s k h = unfold run sanitize in ground arith
  read_chars-run (c ∷ cs) trailer p s k h =
      elim (Result-cases (run u32_to_u8 p (sanitize s (c ∷ [])))) [
        | inl (q, e) ↦
            rw
              (
                read_char-put_char trailer (with_bytes p s k) c h,
                put_char-with_bytes p s k c,
                sanitize-append (c ∷ []) cs s,
                run-append u32_to_u8 (sanitize s (c ∷ [])) (sanitize (Utf8.put s c).0 cs) p,
                e,
              )
              (read_chars-run cs trailer q (Utf8.put s c).0 (k + 1) (starts_later k cs)
                ∙ ap
                    (λ n. run u32_to_u8 q (sanitize (Utf8.put s c).0 cs) >>= λ q'. ok (record {
                      bom = false;
                      trailer = trailer;
                      parser = with_bytes q' (state_after (Utf8.put s c).0 cs) n;
                    }))
                    (omega arith))
        | inr (x, e) ↦
            rw
              (
                read_char-put_char trailer (with_bytes p s k) c h,
                put_char-with_bytes p s k c,
                sanitize-append (c ∷ []) cs s,
                run-append u32_to_u8 (sanitize s (c ∷ [])) (sanitize (Utf8.put s c).0 cs) p,
                e,
              )
              refl
      ]

  -- On a text that does not begin with a byte-order mark, the reader decodes the bytes and a newline
  -- behind them, and reads the code points one by one.
  pub read-run :
      (p : Parser) (cs : List ℕ)
      → StartsNoMark p.counter cs
      → let text = cs ++ b'\n' ∷ [] in
        read u32_to_u8 p cs ≡ (
          run u32_to_u8 p (sanitize p.sanitizer text) >>= λ q.
          ok (with_bytes q (state_after p.sanitizer text) (p.counter + length cs)))
  unfolding read
  read-run p cs h =
      let s = p.sanitizer in
      let s' = state_after s cs in
      rw
        (
          read,
          read_chars-run cs (0 ∷ 0 ∷ 0 ∷ []) p s p.counter h,
          sanitize-append cs (b'\n' ∷ []) s,
          state_after-append cs (b'\n' ∷ []) s,
          run-append u32_to_u8 (sanitize s cs) (sanitize s' (b'\n' ∷ [])) p,
        )
        (elim (Result-cases (run u32_to_u8 p (sanitize s cs))) [
          | inl (q, e) ↦
              rw e (
                put_char-with_bytes q s' (p.counter + length cs) b'\n' ∙ unfold state_after in refl)
          | inr (x, e) ↦ rw e
        ])
