-- ===== src/Csv/Parser/Escape.antt =====
-- The escape of a code point in a quoted cell.
use cyng.Base.{ℕ, ◌+◌, ◌*◌, List, [], ◌∷◌, ◌++◌, some, ◌≡◌, refl, ◌∙◌, true, arith}
use cyng.Base.Result.{ok}
use cyng.Csv.Tokenizer.{
  State, Tokenizer, Conversion, put, put_in, hex_digit, is_hex, read_hex, stay,
}
use cyng.Csv.Tokenizer.Escape.{put_digit, put_last_digit, read_hex_four}
use cyng.Csv.Parser.{Parser, offer}
use cyng.Csv.Parser.Run.{at, run, run-accept}

module _ (u32_to_u8 : List ℕ → Conversion) where
  offer-stay :
      (p : Parser) (c : ℕ) (t : Tokenizer)
      → put u32_to_u8 p.tokenizer c ≡ ok (stay t)
      → offer u32_to_u8 p c ≡ ok (record p { tokenizer = t }, true)
  unfolding offer
  offer-stay p c t e = rw e

  digit_is_hex : (d : ℕ) {v : ℕ} → hex_digit d ≡ some v → is_hex d ≡ true
  digit_is_hex d e = rw (e, is_hex)

  -- In a quoted cell, a backslash, `u` and four hexadecimal digits stand for the code point with
  -- that number, whatever stands before them in the cell.
  run-unicode :
      (p : Parser) (stack : List (List ℕ)) (b rest : List ℕ) (d1 d2 d3 d4 : ℕ) {v1 v2 v3 v4 : ℕ}
      → hex_digit d1 ≡ some v1
      → hex_digit d2 ≡ some v2
      → hex_digit d3 ≡ some v3
      → hex_digit d4 ≡ some v4
      → run u32_to_u8 (at p State.string b stack) (b'\\' ∷ b'u' ∷ d1 ∷ d2 ∷ d3 ∷ d4 ∷ rest)
        ≡ run u32_to_u8
            (at p State.string (b ++ (v1 * 4096 + v2 * 256 + v3 * 16 + v4) ∷ []) stack)
            rest
  run-unicode p stack b rest d1 d2 d3 d4 e1 e2 e3 e4 =
      let h1 = digit_is_hex d1 e1 in
      let h2 = digit_is_hex d2 e2 in
      let h3 = digit_is_hex d3 e3 in
      let h4 = digit_is_hex d4 e4 in
      let t = record p.tokenizer { state = State.unicode } in
      run-accept u32_to_u8 (at p State.string b stack) (at p State.escape b stack) b'\\' _
        (unfold offer put_in in ground arith)
      ∙ run-accept u32_to_u8 (at p State.escape b stack) (at p State.unicode (b ++ 1 ∷ []) stack)
          b'u' _ (unfold offer put_in in ground arith)
      ∙ run-accept u32_to_u8 _ (at p State.unicode (b ++ 1 ∷ d1 ∷ []) stack) d1 _ (
          offer-stay (at p State.unicode (b ++ 1 ∷ []) stack) d1 _
            (put_digit u32_to_u8 t b [] d1 (h1, tt) h1 (omega arith)))
      ∙ run-accept u32_to_u8 _ (at p State.unicode (b ++ 1 ∷ d1 ∷ d2 ∷ []) stack) d2 _ (
          offer-stay (at p State.unicode (b ++ 1 ∷ d1 ∷ []) stack) d2 _
            (put_digit u32_to_u8 t b (d1 ∷ []) d2 (h1, (h2, tt)) h2 (omega arith)))
      ∙ run-accept u32_to_u8 _ (at p State.unicode (b ++ 1 ∷ d1 ∷ d2 ∷ d3 ∷ []) stack) d3 _ (
          offer-stay (at p State.unicode (b ++ 1 ∷ d1 ∷ d2 ∷ []) stack) d3 _
            (put_digit u32_to_u8 t b (d1 ∷ d2 ∷ []) d3 (h1, (h2, (h3, tt))) h3 (omega arith)))
      ∙ run-accept u32_to_u8 _
          (at p State.string (b ++ read_hex 0 (d1 ∷ d2 ∷ d3 ∷ d4 ∷ []) ∷ []) stack) d4 _
          (offer-stay (at p State.unicode (b ++ 1 ∷ d1 ∷ d2 ∷ d3 ∷ []) stack) d4 _ (
            put_last_digit u32_to_u8 t b (d1 ∷ d2 ∷ d3 ∷ []) d4 (h1, (h2, (h3, (h4, tt)))) h4 refl))
      ∙ rw (read_hex_four d1 d2 d3 d4 _ _ _ _ e1 e2 e3 e4)
