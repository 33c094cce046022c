-- ===== src/Csv/Parser/Printed.antt =====
-- A table that is written as quoted cells is read back, line by line and cell by cell.
use cyng.Base.{
  ℕ, ◌+◌, List, [], ◌∷◌, ◌++◌, ◌≡◌, ◌≢◌, refl, ◌∙◌, ap, inl, inr, ◌⊎◌, arith, map, reverse,
  append-nil, append_assoc, All,
}
use mathlib.Core.List.{reverse-cons}
use cyng.Base.Result.{ok}
use cyng.Csv.Tokenizer.{State, Conversion, converted, widen}
use cyng.Csv.Parser.{Parser}
use cyng.Csv.Parser.Run.{
  at, finished, run, quoted, run_open, run-quoted, run_close, run_separator, run_eol, run_blank,
  run_more_eol, run-append,
}

abbrev pub cell : List ℕ → List ℕ
cell f = b'"' ∷ (quoted f ++ b'"' ∷ [])

-- The cells behind the first, each behind a separator, and the end of the line.
abbrev pub tail_cells : ℕ → List (List ℕ) → List ℕ
tail_cells sep [] = b'\n' ∷ []
tail_cells sep (f ∷ fs) = sep ∷ (cell f ++ tail_cells sep fs)

-- A line has at least one cell.
abbrev pub Line : Type 0
Line = List ℕ × List (List ℕ)

abbrev pub printed : ℕ → List Line → List ℕ
printed sep [] = []
printed sep ((f, fs) ∷ table) = cell f ++ (tail_cells sep fs ++ printed sep table)

-- The conversion of each cell, which `text` gives, does not throw.
abbrev pub Converts : (List ℕ → Conversion) → (List ℕ → List ℕ) → List Line → Type 0
Converts u32_to_u8 text = All (λ l. All (λ f. u32_to_u8 f ≡ converted (text f)) (l.0 ∷ l.1))

abbrev pub texts : (List ℕ → List ℕ) → List Line → List (List (List ℕ))
texts text = map (λ l. map text (l.0 ∷ l.1))

-- What ends no line and begins no quoted cell.
pub record IsSeparator (sep : ℕ) : Type 0 where
  pub ne_quote : sep ≢ b'"'
  pub ne_newline : sep ≢ b'\n'

-- The reader between two lines.
pub record IsBetween (p : Parser) : Type 0 where
  pub between : (p.tokenizer.state ≡ State.start) ⊎ (p.tokenizer.state ≡ State.eol)
  pub no_buffer : p.tokenizer.buffer ≡ []
  pub no_stack : p.stack ≡ []
  pub separates : IsSeparator (widen p.tokenizer.sep)

between_at : (p : Parser) → IsBetween p → (s : State) → p.tokenizer.state ≡ s → p ≡ at p s [] []
between_at p b s e = ground arith

behind_line :
    {s : State}
    → (s ≡ State.start) ⊎ (s ≡ State.eol)
    → (s ≡ State.start) ⊎ ((s ≡ State.separator) ⊎ (s ≡ State.eol))
behind_line (inl e) = inl e
behind_line (inr e) = inr (inr e)

module _ (u32_to_u8 : List ℕ → Conversion) (text : List ℕ → List ℕ) where
  run-cell :
      (p : Parser) (s : State) (stack : List (List ℕ)) (f rest : List ℕ)
      → widen p.tokenizer.sep ≢ b'"'
      → (s ≡ State.start) ⊎ ((s ≡ State.separator) ⊎ (s ≡ State.eol))
      → u32_to_u8 f ≡ converted (text f)
      → run u32_to_u8 (at p s [] stack) (cell f ++ rest)
        ≡ run u32_to_u8 (at p State.start [] (text f ∷ stack)) rest
  run-cell p s stack f rest h k e =
      run_open u32_to_u8 p stack s ((quoted f ++ b'"' ∷ []) ++ rest) h k
      ∙ rw append_assoc (
          run-quoted u32_to_u8 p stack f [] (b'"' ∷ rest)
          ∙ run_close u32_to_u8 p stack f (text f) rest e)

  pub snoc_text :
      (t f : List ℕ) (stack fs : List (List ℕ))
      → reverse (text f ∷ t ∷ stack) ++ map text fs ≡ reverse (t ∷ stack) ++ map text (f ∷ fs)
  snoc_text t f stack fs =
      ap (λ r. r ++ map text fs) (reverse-cons (text f) (t ∷ stack))
      ∙ append_assoc (reverse (t ∷ stack)) (text f ∷ []) (map text fs)

  run-tail_cells :
      (p : Parser) (stack : List (List ℕ)) (t : List ℕ) (fs : List (List ℕ)) (rest : List ℕ)
      → IsSeparator (widen p.tokenizer.sep)
      → All (λ f. u32_to_u8 f ≡ converted (text f)) fs
      → run u32_to_u8
          (at p State.start [] (t ∷ stack))
          (tail_cells (widen p.tokenizer.sep) fs ++ rest)
        ≡ run u32_to_u8 (at (finished p (reverse (t ∷ stack) ++ map text fs)) State.eol [] []) rest
  run-tail_cells p stack t [] rest h all =
      rw append-nil (run_eol u32_to_u8 p stack t rest h.ne_newline)
  run-tail_cells p stack t (f ∷ fs) rest h all =
      run_separator u32_to_u8 p stack t ((cell f ++ tail_cells (widen p.tokenizer.sep) fs) ++ rest)
      ∙ rw append_assoc (
          run-cell p State.separator (t ∷ stack) f _ h.ne_quote (inr (inl refl)) all.0
          ∙ run-tail_cells p (t ∷ stack) (text f) fs rest h all.1
          ∙ ap (λ cells. run u32_to_u8 (at (finished p cells) State.eol [] []) rest)
              (snoc_text t f stack fs))

  -- Every line of the table is delivered, behind the lines that were.
  pub run-printed :
      (p : Parser) (s : State) (table : List Line)
      → IsSeparator (widen p.tokenizer.sep)
      → (s ≡ State.start) ⊎ (s ≡ State.eol)
      → Converts u32_to_u8 text table
      → (q : Parser) × (run u32_to_u8 (at p s [] []) (printed (widen p.tokenizer.sep) table) ≡ ok q)
        × (q.lines ≡ p.lines ++ texts text table)
        × IsBetween q
  unfolding run
  run-printed p s [] h k all = (
    at p s [] [],
    refl,
    rw append-nil,
    record { between = k; no_buffer = refl; no_stack = refl; separates = h },
  )
  run-printed p s ((f, fs) ∷ table) h k all =
      let p' = finished p (map text (f ∷ fs)) in
      let (q, e, l, b) = run-printed p' State.eol table h (inr refl) all.1 in
      let after = tail_cells (widen p.tokenizer.sep) fs ++ printed (widen p.tokenizer.sep) table in
      (
        q,
        run-cell p s [] f after h.ne_quote (behind_line k) all.0.0
            ∙ run-tail_cells p [] (text f) fs (printed (widen p.tokenizer.sep) table) h all.0.1
            ∙ e,
        l ∙ append_assoc p.lines (map text (f ∷ fs) ∷ []) (texts text table),
        b,
      )

  -- A newline between lines delivers nothing.
  run_newline :
      (q : Parser)
      → IsBetween q
      → (r : Parser) × (run u32_to_u8 q (b'\n' ∷ []) ≡ ok r) × (r.lines ≡ q.lines)
  run_newline q b = elim b.between [
    | inl e ↦ (
      at (record q { line = q.line + 1 }) State.eol [] [],
      ap (λ r. run u32_to_u8 r (b'\n' ∷ [])) (between_at q b State.start e)
          ∙ run_blank u32_to_u8 q [] [] b.separates.ne_newline
          ∙ unfold run in refl,
      refl,
    )
    | inr e ↦ (
      at q State.eol [] [],
      ap (λ r. run u32_to_u8 r (b'\n' ∷ [])) (between_at q b State.eol e)
          ∙ run_more_eol u32_to_u8 q [] []
          ∙ unfold run in refl,
      refl,
    )
  ]

  pub run-printed_newline :
      (p : Parser) (table : List Line)
      → IsBetween p
      → Converts u32_to_u8 text table
      → (q : Parser) × (run u32_to_u8 p (printed (widen p.tokenizer.sep) table ++ b'\n' ∷ [])
          ≡ ok q)
        × (q.lines ≡ p.lines ++ texts text table)
  run-printed_newline p table b all =
      let s = p.tokenizer.state in
      let (q, e, l, b') = run-printed p s table b.separates b.between all in
      let (r, e', l') = run_newline q b' in
      (
        r,
        run-append u32_to_u8 (printed (widen p.tokenizer.sep) table) (b'\n' ∷ []) p
            ∙ rw
                (ap (λ x. run u32_to_u8 x (printed (widen p.tokenizer.sep) table))
                    (between_at p b s refl)
                  ∙ e)
                e',
        l' ∙ l,
      )
