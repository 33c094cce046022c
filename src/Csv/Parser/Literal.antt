-- ===== src/Csv/Parser/Literal.antt =====
-- Cells without quotes.
use cyng.Base.{
  ℕ, List, [], ◌∷◌, ◌++◌, ◌≡◌, ◌≢◌, refl, ◌∙◌, ap, inl, inr, ◌⊎◌, true, false, arith, map, reverse,
  All-append, append-nil, append_assoc, All,
}
use mathlib.Core.List.{reverse-cons}
use cyng.Base.Result.{ok}
use cyng.Csv.Tokenizer.{State, Conversion, converted, put_in, widen, ends_literal}
use cyng.Csv.Parser.{Parser, offer}
use cyng.Csv.Parser.Run.{at, finished, run, run-accept, run-retry, cleanup_lem}

-- A code point that stands in a literal wherever it stands.
abbrev pub IsPlain : ℕ → ℕ → Type 0
IsPlain sep c = (ends_literal c ≡ false) × (c ≢ sep) × (c ≢ b' ') × (c ≢ b'\t')

-- A word: its first code point and the others.
abbrev pub Word : Type 0
Word = ℕ × List ℕ

abbrev pub chars : Word → List ℕ
chars w = w.0 ∷ w.1

abbrev pub IsPlainWord : ℕ → Word → Type 0
IsPlainWord sep w = All (IsPlain sep) (chars w)

module _ (u32_to_u8 : List ℕ → Conversion) (p : Parser) (stack : List (List ℕ)) where
  offer_first :
      (c : ℕ)
      → IsPlain (widen p.tokenizer.sep) c
      → offer u32_to_u8 (at p State.start [] stack) c ≡ ok (at p State.literal (c ∷ []) stack, true)
  unfolding offer put_in ends_literal
  offer_first c h = ground arith

  run_first :
      (s : State) (c : ℕ) (rest : List ℕ)
      → IsPlain (widen p.tokenizer.sep) c
      → (s ≡ State.start) ⊎ ((s ≡ State.separator) ⊎ (s ≡ State.eol))
      → run u32_to_u8 (at p s [] stack) (c ∷ rest)
        ≡ run u32_to_u8 (at p State.literal (c ∷ []) stack) rest
  run_first s c rest h (inl e) = rw e (run-accept u32_to_u8 _ _ c rest (offer_first c h))
  run_first s c rest h (inr (inl e)) = rw e (
      run-retry u32_to_u8 (at p State.separator [] stack) (at p State.start [] stack) _ c rest
        (unfold offer put_in in ground arith) (offer_first c h))
  run_first s c rest h (inr (inr e)) = rw e (
      run-retry u32_to_u8 (at p State.eol [] stack) (at p State.start [] stack) _ c rest
        (unfold offer put_in ends_literal in ground arith) (offer_first c h))

  run_next :
      (c : ℕ) (b rest : List ℕ)
      → ends_literal c ≡ false
      → run u32_to_u8 (at p State.literal b stack) (c ∷ rest)
        ≡ run u32_to_u8 (at p State.literal (b ++ c ∷ []) stack) rest
  run_next c b rest h =
      run-accept u32_to_u8 (at p State.literal b stack) (at p State.literal (b ++ c ∷ []) stack) c
        rest (unfold offer put_in in ground arith)

  run_more :
      (cs b rest : List ℕ)
      → All (λ c. ends_literal c ≡ false) cs
      → run u32_to_u8 (at p State.literal b stack) (cs ++ rest)
        ≡ run u32_to_u8 (at p State.literal (b ++ cs) stack) rest
  run_more [] b rest h = rw append-nil
  run_more (c ∷ cs) b rest h =
      run_next c b (cs ++ rest) h.0 ∙ run_more cs (b ++ c ∷ []) rest h.1 ∙ rw append_assoc

  -- A comma ends a literal, and is the separator if it is configured so.
  run_comma :
      (c : ℕ) (b t rest : List ℕ)
      → widen p.tokenizer.sep ≡ b','
      → u32_to_u8 (c ∷ b) ≡ converted t
      → run u32_to_u8 (at p State.literal (c ∷ b) stack) (b',' ∷ rest)
        ≡ run u32_to_u8 (at p State.separator [] (t ∷ stack)) rest
  run_comma c b t rest h e =
      run-retry u32_to_u8 (at p State.literal (c ∷ b) stack) (at p State.start [] (t ∷ stack))
        (at p State.separator [] (t ∷ stack)) b',' rest (unfold offer put_in in ground arith)
        (unfold offer put_in in ground arith)

  run_newline :
      (c : ℕ) (b t rest : List ℕ)
      → widen p.tokenizer.sep ≢ b'\n'
      → u32_to_u8 (c ∷ b) ≡ converted t
      → run u32_to_u8 (at p State.literal (c ∷ b) stack) (b'\n' ∷ rest)
        ≡ run u32_to_u8 (at (finished p (reverse (t ∷ stack))) State.eol [] []) rest
  run_newline c b t rest h e =
      run-retry u32_to_u8 (at p State.literal (c ∷ b) stack) (at p State.start [] (t ∷ stack)) _
        b'\n' rest (unfold offer put_in in ground arith)
        (unfold offer put_in in ground (arith, cleanup_lem (t ∷ stack)))

abbrev pub tail_words : List Word → List ℕ
tail_words [] = b'\n' ∷ []
tail_words (w ∷ ws) = b',' ∷ (chars w ++ tail_words ws)

abbrev pub words_text : (List ℕ → List ℕ) → List Word → List (List ℕ)
words_text text = map (λ w. text (chars w))

IsPlain-literal :
    (sep : ℕ) (cs : List ℕ) → All (IsPlain sep) cs → All (λ c. ends_literal c ≡ false) cs
IsPlain-literal sep [] h = tt
IsPlain-literal sep (c ∷ cs) h = (h.0.0, IsPlain-literal sep cs h.1)

abbrev pub joined : ℕ → Word → Word → List ℕ
joined sep w v = chars w ++ sep ∷ chars v

newline_ne : (sep : ℕ) → ends_literal sep ≡ false → sep ≢ b'\n'
unfolding ends_literal
newline_ne sep h = ground arith

snoc_word :
    (t t' : List ℕ) (stack ts : List (List ℕ))
    → reverse (t' ∷ t ∷ stack) ++ ts ≡ reverse (t ∷ stack) ++ t' ∷ ts
snoc_word t t' stack ts =
    ap (λ r. r ++ ts) (reverse-cons t' (t ∷ stack))
    ∙ append_assoc (reverse (t ∷ stack)) (t' ∷ []) ts

module _ (u32_to_u8 : List ℕ → Conversion) (text : List ℕ → List ℕ) where
  run-tail_words :
      (p : Parser) (stack : List (List ℕ)) (w : Word) (ws : List Word) (rest : List ℕ)
      → widen p.tokenizer.sep ≡ b','
      → All
          (λ v.
            IsPlainWord (widen p.tokenizer.sep) v
            × (u32_to_u8 (chars v) ≡ converted (text (chars v))))
          (w ∷ ws)
      → run u32_to_u8 (at p State.literal (chars w) stack) (tail_words ws ++ rest)
        ≡ run u32_to_u8
            (at
              (finished p (reverse (text (chars w) ∷ stack) ++ words_text text ws))
              State.eol
              []
              [])
            rest
  run-tail_words p stack w [] rest h all =
      rw append-nil
        (run_newline u32_to_u8 p stack w.0 w.1 (text (chars w)) rest (omega arith) all.0.1)
  run-tail_words p stack w (v ∷ ws) rest h all =
      let t = text (chars w) in
      rw append_assoc (
        run_comma u32_to_u8 p stack w.0 w.1 t (v.0 ∷ (v.1 ++ (tail_words ws ++ rest))) h all.0.1
        ∙ run_first u32_to_u8 p (t ∷ stack) State.separator v.0 _ all.1.0.0.0 (inr (inl refl))
        ∙ run_more u32_to_u8 p (t ∷ stack) v.1 (v.0 ∷ []) (tail_words ws ++ rest)
            (IsPlain-literal (widen p.tokenizer.sep) v.1 all.1.0.0.1)
        ∙ run-tail_words p (t ∷ stack) v ws rest h all.1
        ∙ ap (λ cells. run u32_to_u8 (at (finished p cells) State.eol [] []) rest)
            (snoc_word t (text (chars v)) stack (words_text text ws)))

  -- With a comma for the separator, a line of plain words without quotes is read as one line with
  -- those words for its cells.
  run-words :
      (p : Parser) (s : State) (w : Word) (ws : List Word) (rest : List ℕ)
      → widen p.tokenizer.sep ≡ b','
      → (s ≡ State.start) ⊎ ((s ≡ State.separator) ⊎ (s ≡ State.eol))
      → All
          (λ v.
            IsPlainWord (widen p.tokenizer.sep) v
            × (u32_to_u8 (chars v) ≡ converted (text (chars v))))
          (w ∷ ws)
      → run u32_to_u8 (at p s [] []) (chars w ++ (tail_words ws ++ rest))
        ≡ run u32_to_u8 (at (finished p (words_text text (w ∷ ws))) State.eol [] []) rest
  run-words p s w ws rest h k all =
      run_first u32_to_u8 p [] s w.0 _ all.0.0.0 k
      ∙ run_more u32_to_u8 p [] w.1 (w.0 ∷ []) (tail_words ws ++ rest)
          (IsPlain-literal (widen p.tokenizer.sep) w.1 all.0.0.1)
      ∙ run-tail_words p [] w ws rest h all

  -- With a separator that does not end a literal, such as a semicolon, two plain words with it
  -- between them are read as one cell, which holds the separator. The separator is here the code point
  -- that it matches.
  pub run-words_joined :
      (p : Parser) (s : State) (w v : Word) (rest : List ℕ)
      → ends_literal (widen p.tokenizer.sep) ≡ false
      → (s ≡ State.start) ⊎ ((s ≡ State.separator) ⊎ (s ≡ State.eol))
      → IsPlainWord (widen p.tokenizer.sep) w
      → IsPlainWord (widen p.tokenizer.sep) v
      → u32_to_u8 (joined (widen p.tokenizer.sep) w v)
        ≡ converted (text (joined (widen p.tokenizer.sep) w v))
      → run u32_to_u8 (at p s [] []) (joined (widen p.tokenizer.sep) w v ++ b'\n' ∷ rest)
        ≡ run u32_to_u8
            (at (finished p (text (joined (widen p.tokenizer.sep) w v) ∷ [])) State.eol [] [])
            rest
  run-words_joined p s w v rest h k plain_w plain_v e =
      let sep = widen p.tokenizer.sep in
      let more = w.1 ++ sep ∷ chars v in
      let plain =
        All-append (λ c. ends_literal c ≡ false) w.1 (sep ∷ chars v)
          (IsPlain-literal sep w.1 plain_w.1) (h, IsPlain-literal sep (chars v) plain_v) in
      run_first u32_to_u8 p [] s w.0 _ plain_w.0 k
      ∙ run_more u32_to_u8 p [] more (w.0 ∷ []) (b'\n' ∷ rest) plain
      ∙ run_newline u32_to_u8 p [] w.0 more (text (joined sep w v)) rest (newline_ne sep h) e
