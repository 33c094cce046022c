-- ===== src/Csv/Parser/Run.antt =====
-- The reader on a text of code points, piece by piece.
use cyng.Base.{
  ℕ, ◌+◌, List, [], ◌∷◌, ◌++◌, ◌≡◌, ◌≢◌, refl, ◌∙◌, ◌⊎◌, inl, inr, true, false, ◌||◌, arith, ◌==◌,
  if◌then◌else◌, reverse, append-nil, append_assoc, Bool-cases,
}
use cyng.Base.Result.{Result, ok, ◌>>=◌, Result-cases}
use cyng.Csv.Tokenizer.{State, Conversion, converted, put_in, widen}
use cyng.Csv.Parser.{Parser, offer, offer_up_to, next_code_point, drain, cleanup}

pub drain_lem : (vec stack : List (List ℕ)) → drain vec stack ≡ vec ++ stack
unfolding drain
drain_lem vec [] = rw append-nil
drain_lem vec (s ∷ stack) = drain_lem (vec ++ s ∷ []) stack ∙ append_assoc vec (s ∷ []) stack

pub cleanup_lem : (stack : List (List ℕ)) → cleanup stack ≡ reverse stack
unfolding cleanup
cleanup_lem stack = rw drain_lem

-- The reader with a state and a buffer of its tokenizer, and a stack.
abbrev pub at : Parser → State → List ℕ → List (List ℕ) → Parser
at p s b stack = record p {
  tokenizer = record { state = s; sep = p.tokenizer.sep; buffer = b };
  stack = stack;
}

-- A text between quotes: a backslash stands before each quote and backslash of it.
abbrev pub quoted : List ℕ → List ℕ
quoted [] = []
quoted (c ∷ cs) = if c == b'"' || c == b'\\' then b'\\' ∷ c ∷ quoted cs else c ∷ quoted cs

-- The reader behind the end of a line.
abbrev pub finished : Parser → List (List ℕ) → Parser
finished p cells = record p { line = p.line + 1; lines = p.lines ++ cells ∷ [] }

module _ (u32_to_u8 : List ℕ → Conversion) where
  -- The code points of a text, one after the other.
  unfoldable pub run : Parser → List ℕ → Result Parser
  run p [] = ok p
  run p (c ∷ cs) = do q ← next_code_point u32_to_u8 p c; run q cs

  pub run-append : (cs ds : List ℕ) (p : Parser) → run p (cs ++ ds) ≡ (run p cs >>= λ q. run q ds)
  unfolding run
  run-append [] ds p = refl
  run-append (c ∷ cs) ds p = elim (Result-cases (next_code_point u32_to_u8 p c)) [
    | inl (q, e) ↦ rw e (run-append cs ds q)
    | inr (x, e) ↦ rw e
  ]

  pub run-accept :
      (p q : Parser) (c : ℕ) (rest : List ℕ)
      → offer u32_to_u8 p c ≡ ok (q, true)
      → run p (c ∷ rest) ≡ run q rest
  unfolding run next_code_point offer_up_to
  run-accept p q c rest e = rw e

  pub run-retry :
      (p q r : Parser) (c : ℕ) (rest : List ℕ)
      → offer u32_to_u8 p c ≡ ok (q, false)
      → offer u32_to_u8 q c ≡ ok (r, true)
      → run p (c ∷ rest) ≡ run r rest
  unfolding run next_code_point offer_up_to
  run-retry p q r c rest e f = rw (e, f)

  module _ (p : Parser) (stack : List (List ℕ)) where
    offer_quote :
        widen p.tokenizer.sep ≢ b'"'
        → offer u32_to_u8 (at p State.start [] stack) b'"' ≡ ok (at p State.string [] stack, true)
    unfolding offer put_in
    offer_quote h = ground arith

    -- A quoted cell begins, at the start of a token or behind a separator or a line.
    pub run_open :
        (s : State) (rest : List ℕ)
        → widen p.tokenizer.sep ≢ b'"'
        → (s ≡ State.start) ⊎ ((s ≡ State.separator) ⊎ (s ≡ State.eol))
        → run (at p s [] stack) (b'"' ∷ rest) ≡ run (at p State.string [] stack) rest
    run_open s rest h (inl e) = rw e (run-accept _ _ b'"' rest (offer_quote h))
    run_open s rest h (inr (inl e)) = rw e (
        run-retry _ (at p State.start [] stack) _ b'"' rest (unfold offer put_in in ground arith)
          (offer_quote h))
    run_open s rest h (inr (inr e)) = rw e (
        run-retry _ (at p State.start [] stack) _ b'"' rest (unfold offer put_in in ground arith)
          (offer_quote h))

    run_plain :
        (c : ℕ) (b rest : List ℕ)
        → c ≢ b'"'
        → c ≢ b'\\'
        → run (at p State.string b stack) (c ∷ rest)
          ≡ run (at p State.string (b ++ c ∷ []) stack) rest
    run_plain c b rest h k = run-accept _ _ c rest (unfold offer put_in in ground arith)

    run_escaped :
        (c : ℕ) (b rest : List ℕ)
        → (c ≡ b'"') ⊎ (c ≡ b'\\')
        → run (at p State.string b stack) (b'\\' ∷ c ∷ rest)
          ≡ run (at p State.string (b ++ c ∷ []) stack) rest
    run_escaped c b rest h =
        run-accept (at p State.string b stack) (at p State.escape b stack) b'\\' (c ∷ rest)
          (unfold offer put_in in ground arith)
        ∙ run-accept (at p State.escape b stack) (at p State.string (b ++ c ∷ []) stack) c rest
            (unfold offer put_in in ground arith)

    pub run_close :
        (b t rest : List ℕ)
        → u32_to_u8 b ≡ converted t
        → run (at p State.string b stack) (b'"' ∷ rest) ≡ run (at p State.start [] (t ∷ stack)) rest
    run_close b t rest h = run-accept _ _ b'"' rest (unfold offer put_in in ground arith)

    -- A separator behind a cell.
    pub run_separator :
        (t rest : List ℕ)
        → run (at p State.start [] (t ∷ stack)) (widen p.tokenizer.sep ∷ rest)
          ≡ run (at p State.separator [] (t ∷ stack)) rest
    run_separator t rest =
        run-accept _ _ (widen p.tokenizer.sep) rest (unfold offer put_in in ground arith)

    -- The end of a line behind a cell.
    pub run_eol :
        (t rest : List ℕ)
        → widen p.tokenizer.sep ≢ b'\n'
        → run (at p State.start [] (t ∷ stack)) (b'\n' ∷ rest)
          ≡ run (at (finished p (reverse (t ∷ stack))) State.eol [] []) rest
    run_eol t rest h =
        run-accept _ _ b'\n' rest (unfold offer put_in in ground (arith, cleanup_lem (t ∷ stack)))

    -- A line with no cell delivers nothing.
    pub run_blank :
        (rest : List ℕ)
        → widen p.tokenizer.sep ≢ b'\n'
        → run (at p State.start [] []) (b'\n' ∷ rest)
          ≡ run (at (record p { line = p.line + 1 }) State.eol [] []) rest
    run_blank rest h =
        run-accept (at p State.start [] []) _ b'\n' rest (unfold offer put_in in ground arith)

    pub run_more_eol :
        (rest : List ℕ)
        → run (at p State.eol [] []) (b'\n' ∷ rest) ≡ run (at p State.eol [] []) rest
    run_more_eol rest =
        run-accept (at p State.eol [] []) _ b'\n' rest (unfold offer put_in in ground arith)

    -- A quoted text is put to the buffer as it was before it was quoted.
    pub run-quoted :
        (cs b rest : List ℕ)
        → run (at p State.string b stack) (quoted cs ++ rest)
          ≡ run (at p State.string (b ++ cs) stack) rest
    run-quoted [] b rest = rw append-nil
    run-quoted (c ∷ cs) b rest = elim (Bool-cases (c == b'"' || c == b'\\')) [
      | inl special ↦ rw special (
          run_escaped c b (quoted cs ++ rest) (ground arith)
          ∙ run-quoted cs (b ++ c ∷ []) rest
          ∙ rw append_assoc)
      | inr plain ↦ rw plain (
          run_plain c b (quoted cs ++ rest) (ground arith) (ground arith)
          ∙ run-quoted cs (b ++ c ∷ []) rest
          ∙ rw append_assoc)
    ]
