-- ===== src/Json/Parser/Run.antt =====
-- The machine on a text of code points, one token after the other.
use cyng.Base.{
  ℕ, suc, ◌%◌, ◌≤◌, List, [], ◌∷◌, ◌++◌, ◌≡◌, ◌≢◌, refl, ◌∙◌, ◌⊎◌, inl, inr, Bool, true, false,
  ◌&&◌, leb, arith, Option, some, append-nil, append_assoc, All,
}
use cyng.Base.Result.{Result, ok, ◌>>=◌, Result-cases}
use cyng.Csv.Tokenizer.{Conversion, converted}
use cyng.Json.Value.{Int64, Value, null, bool, integer, text}
use cyng.Json.Tokenizer.{State, put_in, is_mark, null_text, true_text, false_text}
use cyng.Json.Parser.Progress.{offer_up_to-steady}
use cyng.Json.Parser
use cyng.Json.Parser.{
  Machine, offer, offer_up_to, next_code_point, process_mark, next_symbol, next_symbols,
}

abbrev is_letter : ℕ → Bool
is_letter l = leb b'a' l && leb l b'z'

-- A machine with what it has delivered, its states, and the state and buffer of its tokenizer.
abbrev pub at : List Value → List Parser.State → State → List ℕ → List Value → Machine
at delivered states s b stack = record {
  tokenizer = record { state = s; buffer = b };
  stack = stack;
  states = states;
  delivered = delivered;
}

module _ (u32_to_u8 : List ℕ → Conversion) (to_int64 : List ℕ → Option Int64)
    (to_double : List ℕ → Option ℕ) where
  abbrev puts : Machine → ℕ → Result (Machine × Bool)
  puts = offer u32_to_u8 to_int64 to_double

  -- The code points of a text, one after the other.
  unfoldable pub run : Machine → List ℕ → Result Machine
  run m [] = ok m
  run m (c ∷ cs) = do n ← next_code_point u32_to_u8 to_int64 to_double m c; run n cs

  pub run-append : (cs ds : List ℕ) (m : Machine) → run m (cs ++ ds) ≡ (run m cs >>= λ n. run n ds)
  unfolding run
  run-append [] ds m = refl
  run-append (c ∷ cs) ds m =
      elim (Result-cases (next_code_point u32_to_u8 to_int64 to_double m c)) [
        | inl (n, e) ↦ rw e (run-append cs ds n)
        | inr (x, e) ↦ rw e
      ]

  pub run-accept :
      (m n : Machine) (c : ℕ) (rest : List ℕ)
      → puts m c ≡ ok (n, true)
      → run m (c ∷ rest) ≡ run n rest
  unfolding run next_code_point offer_up_to
  run-accept m n c rest e = rw e

  offer_up_to_refused :
      (m n : Machine) (c limit : ℕ)
      → puts m c ≡ ok (n, false)
      → offer_up_to u32_to_u8 to_int64 to_double (suc limit) m c
        ≡ offer_up_to u32_to_u8 to_int64 to_double limit n c
  unfolding offer_up_to
  offer_up_to_refused m n c limit e = rw e

  -- A code point that is refused is the first of the next token.
  pub run-refuse :
      (m : Machine) (d : List Value) (ss : List Parser.State) (b : List ℕ) (st : List Value) (c : ℕ)
      (rest : List ℕ)
      → puts m c ≡ ok (at d ss State.start b st, false)
      → run m (c ∷ rest) ≡ run (at d ss State.start b st) (c ∷ rest)
  run-refuse m d ss b st c rest e =
      let n = at d ss State.start b st in
      let steady = λ (k : ℕ).
        offer_up_to-steady u32_to_u8 to_int64 to_double 0 k n c (omega arith) (omega arith) in
      unfold run next_code_point in rw (offer_up_to_refused m n c 31 e, steady 31, steady 32) refl

  pub run-refuse_twice :
      (m n : Machine) (d : List Value) (ss : List Parser.State) (b : List ℕ) (st : List Value)
      (c : ℕ) (rest : List ℕ)
      → puts m c ≡ ok (n, false)
      → puts n c ≡ ok (at d ss State.start b st, false)
      → run m (c ∷ rest) ≡ run (at d ss State.start b st) (c ∷ rest)
  run-refuse_twice m n d ss b st c rest e f =
      let q = at d ss State.start b st in
      let steady = λ (k : ℕ).
        offer_up_to-steady u32_to_u8 to_int64 to_double 0 k q c (omega arith) (omega arith) in
      unfold run next_code_point in
      rw (offer_up_to_refused m n c 31 e, offer_up_to_refused n q c 30 f, steady 30, steady 32) refl

  module _ (d : List Value) (ss : List Parser.State) (st : List Value) where
    pub open_text :
        (rest : List ℕ)
        → run (at d ss State.start [] st) (b'"' ∷ rest) ≡ run (at d ss State.string [] st) rest
    open_text rest = run-accept _ _ b'"' rest (unfold offer put_in in ground arith)

    -- A code point that stands for itself in a text.
    pub run_plain :
        (c : ℕ) (b rest : List ℕ)
        → c ≢ b'"'
        → c ≢ b'\\'
        → run (at d ss State.string b st) (c ∷ rest)
          ≡ run (at d ss State.string (b ++ c ∷ []) st) rest
    run_plain c b rest h k = run-accept _ _ c rest (unfold offer put_in in ground arith)

    -- A code point behind a backslash, with the code point that it stands for.
    pub run_escaped :
        (e c : ℕ) (b rest : List ℕ)
        → puts (at d ss State.escape b st) e ≡ ok (at d ss State.string (b ++ c ∷ []) st, true)
        → run (at d ss State.string b st) (b'\\' ∷ e ∷ rest)
          ≡ run (at d ss State.string (b ++ c ∷ []) st) rest
    run_escaped e c b rest h =
        run-accept (at d ss State.string b st) (at d ss State.escape b st) b'\\' (e ∷ rest)
          (unfold offer put_in in ground arith)
        ∙ run-accept (at d ss State.escape b st) (at d ss State.string (b ++ c ∷ []) st) e rest h

    pub close_text :
        (b t rest : List ℕ)
        → u32_to_u8 b ≡ converted t
        → run (at d ss State.string b st) (b'"' ∷ rest)
          ≡ run (at d ss State.start [] (text t ∷ st)) rest
    close_text b t rest h = run-accept _ _ b'"' rest (unfold offer put_in in ground arith)

    pub skip_space :
        (rest : List ℕ)
        → run (at d ss State.start [] st) (b' ' ∷ rest) ≡ run (at d ss State.start [] st) rest
    skip_space rest = run-accept _ _ b' ' rest (unfold offer put_in in ground arith)

    -- The tokens of one character, by what they do to the machine.
    pub run_mark :
        (c : ℕ) (n : Machine) (rest : List ℕ)
        → is_mark c ≡ true
        → process_mark (at d ss State.start [] st) (c % 256) ≡ ok n
        → run (at d ss State.start [] st) (c ∷ rest) ≡ run n rest
    run_mark c n rest h e = run-accept _ _ c rest (unfold offer put_in in rw h (rw e refl))

    -- A number: its first character, its digits, and the mark that ends it.
    pub open_number :
        (c : ℕ) (rest : List ℕ)
        → (c ≡ b'-') ⊎ ((b'1' ≤ c) × (c ≤ b'9'))
        → run (at d ss State.start [] st) (c ∷ rest) ≡ run (at d ss State.number (c ∷ []) st) rest
    open_number c rest h = run-accept _ _ c rest (unfold offer put_in in ground arith)

    pub run_digit :
        (c : ℕ) (b rest : List ℕ)
        → b'0' ≤ c
        → c ≤ b'9'
        → run (at d ss State.number b st) (c ∷ rest)
          ≡ run (at d ss State.number (b ++ c ∷ []) st) rest
    run_digit c b rest h k = run-accept _ _ c rest (unfold offer put_in in ground arith)

    pub run_digits :
        (cs b rest : List ℕ)
        → All (λ c. (b'0' ≤ c) × (c ≤ b'9')) cs
        → run (at d ss State.number b st) (cs ++ rest)
          ≡ run (at d ss State.number (b ++ cs) st) rest
    run_digits [] b rest h = rw append-nil
    run_digits (c ∷ cs) b rest h =
        run_digit c b (cs ++ rest) h.0.0 h.0.1
        ∙ run_digits cs (b ++ c ∷ []) rest h.1
        ∙ rw append_assoc

    pub close_number :
        (c : ℕ) (b rest : List ℕ) (n : Int64)
        → is_mark c ≡ true
        → u32_to_u8 b ≡ converted b
        → to_int64 b ≡ some n
        → run (at d ss State.number b st) (c ∷ rest)
          ≡ run (at d ss State.start [] (integer n ∷ st)) (c ∷ rest)
    close_number c b rest n h e f =
        run-refuse _ d ss [] (integer n ∷ st) c rest (unfold offer put_in in ground arith)

    -- The literals, up to the mark that ends them.
    module _ (c : ℕ) (rest : List ℕ) (mark : is_mark c ≡ true) where
      abbrev Reads : List ℕ → Value → Type 0
      Reads cs v =
          run (at d ss State.start [] st) (cs ++ c ∷ rest)
          ≡ run (at d ss State.start [] (v ∷ st)) (c ∷ rest)

      close_literal :
          (b : List ℕ) (v : Value)
          → puts (at d ss State.literal b st) c ≡ ok (at d ss State.start [] (v ∷ st), false)
          → run (at d ss State.literal b st) (c ∷ rest)
            ≡ run (at d ss State.start [] (v ∷ st)) (c ∷ rest)
      close_literal b v e = run-refuse _ d ss [] (v ∷ st) c rest e

      literal_letter :
          (l : ℕ) (b cs : List ℕ)
          → is_letter l ≡ true
          → run (at d ss State.literal b st) (l ∷ cs)
            ≡ run (at d ss State.literal (b ++ l ∷ []) st) cs
      literal_letter l b cs h = run-accept _ _ l cs (unfold offer put_in in ground arith)

      literal_letters :
          (ls b cs : List ℕ)
          → All (λ l. is_letter l ≡ true) ls
          → run (at d ss State.literal b st) (ls ++ cs)
            ≡ run (at d ss State.literal (b ++ ls) st) cs
      literal_letters [] b cs h = rw append-nil
      literal_letters (l ∷ ls) b cs h =
          literal_letter l b (ls ++ cs) h.0
          ∙ literal_letters ls (b ++ l ∷ []) cs h.1
          ∙ rw append_assoc

      open_literal :
          (l : ℕ) (cs : List ℕ)
          → is_letter l ≡ true
          → run (at d ss State.start [] st) (l ∷ cs) ≡ run (at d ss State.literal (l ∷ []) st) cs
      open_literal l cs h = run-accept _ _ l cs (unfold offer put_in in ground arith)

      pub run_null : u32_to_u8 null_text ≡ converted null_text → Reads null_text null
      run_null e =
          open_literal b'n' _ refl
          ∙ literal_letters (b'u' ∷ b'l' ∷ b'l' ∷ []) (b'n' ∷ []) (c ∷ rest)
              (refl, (refl, (refl, tt)))
          ∙ close_literal null_text null (unfold offer put_in in ground arith)

      pub run_true : u32_to_u8 true_text ≡ converted true_text → Reads true_text (bool true)
      run_true e =
          open_literal b't' _ refl
          ∙ literal_letters (b'r' ∷ b'u' ∷ b'e' ∷ []) (b't' ∷ []) (c ∷ rest)
              (refl, (refl, (refl, tt)))
          ∙ close_literal true_text (bool true) (unfold offer put_in in ground arith)

      pub run_false : u32_to_u8 false_text ≡ converted false_text → Reads false_text (bool false)
      run_false e =
          open_literal b'f' _ refl
          ∙ literal_letters (b'a' ∷ b'l' ∷ b's' ∷ b'e' ∷ []) (b'f' ∷ []) (c ∷ rest)
              (refl, (refl, (refl, (refl, tt))))
          ∙ close_literal false_text (bool false) (unfold offer put_in in ground arith)
