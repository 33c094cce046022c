-- ===== src/Json/Parser/Escape.antt =====
-- The escape of a code point in a text.
use cyng.Base.{ℕ, ◌+◌, ◌*◌, List, [], ◌∷◌, ◌++◌, Option, some, ◌≡◌, refl, ◌∙◌, true, arith}
use cyng.Base.Result.{ok}
use cyng.Csv.Tokenizer.{Conversion, hex_digit, is_hex, read_hex}
use cyng.Csv.Tokenizer.Escape.{read_hex_four}
use cyng.Json.Value.{Int64, Value}
use cyng.Json.Tokenizer.{State, Tokenizer, put, put_in, stay}
use cyng.Json.Tokenizer.Escape.{put_digit, put_last_digit}
use cyng.Json.Parser
use cyng.Json.Parser.{Machine, offer}
use cyng.Json.Parser.Run.{at, run, run-accept}

module _ (u32_to_u8 : List ℕ → Conversion) (to_int64 : List ℕ → Option Int64)
    (to_double : List ℕ → Option ℕ) where
  offer-stay :
      (m : Machine) (c : ℕ) (t : Tokenizer)
      → put u32_to_u8 m.tokenizer c ≡ ok (stay t)
      → offer u32_to_u8 to_int64 to_double m c ≡ ok (record m { tokenizer = t }, true)
  unfolding offer
  offer-stay m c t e = rw e

  digit_is_hex : (d : ℕ) {v : ℕ} → hex_digit d ≡ some v → is_hex d ≡ true
  digit_is_hex d e = rw (e, is_hex)

  -- In a text, a backslash, `u` and four hexadecimal digits stand for the code point with that
  -- number, whatever stands before them in the text.
  pub run-unicode :
      (d : List Value) (ss : List Parser.State) (st : List Value) (b rest : List ℕ)
      (d1 d2 d3 d4 : ℕ) {v1 v2 v3 v4 : ℕ}
      → hex_digit d1 ≡ some v1
      → hex_digit d2 ≡ some v2
      → hex_digit d3 ≡ some v3
      → hex_digit d4 ≡ some v4
      → run u32_to_u8 to_int64 to_double
          (at d ss State.string b st)
          (b'\\' ∷ b'u' ∷ d1 ∷ d2 ∷ d3 ∷ d4 ∷ rest)
        ≡ run u32_to_u8 to_int64 to_double
            (at d ss State.string (b ++ (v1 * 4096 + v2 * 256 + v3 * 16 + v4) ∷ []) st)
            rest
  run-unicode d ss st b rest d1 d2 d3 d4 e1 e2 e3 e4 =
      let h1 = digit_is_hex d1 e1 in
      let h2 = digit_is_hex d2 e2 in
      let h3 = digit_is_hex d3 e3 in
      let h4 = digit_is_hex d4 e4 in
      let behind = λ (ds : List ℕ). at d ss State.unicode (b ++ 1 ∷ ds) st in
      let accept = run-accept u32_to_u8 to_int64 to_double in
      accept (at d ss State.string b st) (at d ss State.escape b st) b'\\' _
        (unfold offer put_in in ground arith)
      ∙ accept (at d ss State.escape b st) (behind []) b'u' _ (unfold offer put_in in ground arith)
      ∙ accept (behind []) (behind (d1 ∷ [])) d1 _
          (offer-stay (behind []) d1 _ (put_digit u32_to_u8 b [] d1 (h1, tt) h1 (omega arith)))
      ∙ accept (behind (d1 ∷ [])) (behind (d1 ∷ d2 ∷ [])) d2 _ (
          offer-stay (behind (d1 ∷ [])) d2 _
            (put_digit u32_to_u8 b (d1 ∷ []) d2 (h1, (h2, tt)) h2 (omega arith)))
      ∙ accept (behind (d1 ∷ d2 ∷ [])) (behind (d1 ∷ d2 ∷ d3 ∷ [])) d3 _ (
          offer-stay (behind (d1 ∷ d2 ∷ [])) d3 _
            (put_digit u32_to_u8 b (d1 ∷ d2 ∷ []) d3 (h1, (h2, (h3, tt))) h3 (omega arith)))
      ∙ accept (behind (d1 ∷ d2 ∷ d3 ∷ []))
          (at d ss State.string (b ++ read_hex 0 (d1 ∷ d2 ∷ d3 ∷ d4 ∷ []) ∷ []) st) d4 _
          (offer-stay (behind (d1 ∷ d2 ∷ d3 ∷ [])) d4 _
            (put_last_digit u32_to_u8 b (d1 ∷ d2 ∷ d3 ∷ []) d4 (h1, (h2, (h3, (h4, tt)))) h4 refl))
      ∙ rw (read_hex_four d1 d2 d3 d4 _ _ _ _ e1 e2 e3 e4)
