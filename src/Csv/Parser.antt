-- ===== src/Csv/Parser.antt =====
-- src/parse/src/csv/csv_parser.cpp and `parser::read` of include/cyng/parse/csv/csv_parser.h. The calls
-- of the callback `cb_` are the lines in `lines`, in their order. The top of `stack` is its head.
pub mod Progress
pub mod Run
pub mod Printed
pub mod Bytes
pub mod RoundTrip
pub mod Literal
pub mod Escape
use cyng.Base.{
  ℕ, zero, suc, ◌+◌, Bool, true, false, not, ◌&&◌, ◌||◌, List, [], ◌∷◌, ◌++◌, reverse, ◌==◌,
  if◌then◌else◌, set, get_or,
}
use cyng.Base.Result.{Result, ok, err, assertion, ◌>>=◌, ◌>>◌, assert}
use cyng.Utf8
use cyng.Utf8.{U8ToU32}
use cyng.Csv.Tokenizer
use cyng.Csv.Tokenizer.{Tokenizer, Symbol, SymbolType, Step, Conversion, put, is_empty}

pub record Parser : Type 0 where
  pub sanitizer : U8ToU32
  pub tokenizer : Tokenizer
  pub stack : List (List ℕ)
  pub counter : ℕ
  pub line : ℕ
  pub lines : List (List (List ℕ))

abbrev pub init : ℕ → Parser
init sep = record {
  sanitizer = Utf8.init;
  tokenizer = Tokenizer.init sep;
  stack = [];
  counter = 0;
  line = 0;
  lines = [];
}

-- `if (stack_.empty()) stack_.push("")`
pub process_separator : List (List ℕ) → List (List ℕ)
process_separator [] = [] ∷ []
process_separator (s ∷ stack) = s ∷ stack

-- The loop of `cleanup`, which empties the stack into a vector.
pub drain : List (List ℕ) → List (List ℕ) → List (List ℕ)
drain vec [] = vec
drain vec (s ∷ stack) = drain (vec ++ s ∷ []) stack

pub cleanup : List (List ℕ) → List (List ℕ)
unfolding drain
cleanup stack = reverse (drain [] stack)

-- The callback is called for a stack that is not empty.
pub finish_line : List (List ℕ) → List (List (List ℕ)) → List (List (List ℕ))
unfolding cleanup
finish_line [] lines = lines
finish_line (s ∷ stack) lines = lines ++ cleanup (s ∷ stack) ∷ []

pub process_eol : Parser → Parser
unfolding finish_line
process_eol p = record p { line = p.line + 1; lines = finish_line p.stack p.lines; stack = [] }

process_null : Parser → List ℕ → Result Parser
process_null p value = do assert (is_empty value); ok (record p { stack = [] ∷ p.stack })

symbol_in : SymbolType → Parser → List ℕ → Result Parser
unfolding process_separator process_eol process_null is_empty
symbol_in SymbolType.string p value = ok (record p { stack = value ∷ p.stack })
symbol_in SymbolType.nothing p value = process_null p value
symbol_in SymbolType.separator p value = ok (record p { stack = process_separator p.stack })
symbol_in SymbolType.sym_eol p value = ok (process_eol p)
symbol_in _ p value = err assertion

pub next_symbol : Parser → Symbol → Result Parser
unfolding symbol_in
next_symbol p sym = symbol_in sym.type p sym.value

pub next_symbols : Parser → List Symbol → Result Parser
unfolding next_symbol
next_symbols p [] = ok p
next_symbols p (sym ∷ syms) = do q ← next_symbol p sym; next_symbols q syms

-- `++counter_`
abbrev pub count : Parser → Parser
count p = record p { counter = p.counter + 1 }

-- The variables of the loop in `read`.
pub record Reader : Type 0 where
  pub bom : Bool
  pub trailer : List ℕ
  pub parser : Parser

module _ (u32_to_u8 : List ℕ → Conversion) where
  -- One call of `tokenizer_.put`, with the callbacks that it makes.
  unfoldable pub offer : Parser → ℕ → Result (Parser × Bool)
  unfolding next_symbols
  offer p tok = do
    st ← put u32_to_u8 p.tokenizer tok
    q ← next_symbols (record p { tokenizer = st.next }) st.symbols
    ok (q, st.advance)

  -- `while (!tokenizer_.put(tok) && limit != 0u) --limit;`
  unfoldable pub offer_up_to : ℕ → Parser → ℕ → Result Parser
  offer_up_to zero p tok = do (q, _) ← offer p tok; ok q
  offer_up_to (suc limit) p tok = do
    (q, advance) ← offer p tok
    elim advance [ true ↦ ok q | false ↦ offer_up_to limit q tok ]

  unfoldable pub next_code_point : Parser → ℕ → Result Parser
  next_code_point = offer_up_to 32

  -- `parser::put`: the sanitizer calls `next_code_point` for a complete code point.
  unfoldable pub put_char : Parser → ℕ → Result Parser
  put_char p c =
      let (s, tok, complete) = Utf8.put p.sanitizer c in
      if complete
      then next_code_point (record p { sanitizer = s }) tok
      else ok (record p { sanitizer = s })

  unfoldable pub put_chars : Parser → List ℕ → Result Parser
  put_chars p [] = ok p
  put_chars p (c ∷ cs) = do q ← put_char p c; put_chars q cs

  -- A third byte of a possible mark: three bytes that are none are parsed.
  unfoldable pub end_bom : Parser → List ℕ → Result Parser
  end_bom p trailer =
      if Utf8.is_bom (get_or trailer 0 0) (get_or trailer 1 0) (get_or trailer 2 0)
      then ok p
      else put_chars p trailer

  -- The body of the loop over the range, on `bom` and `trailer`.
  unfoldable pub read_char : Reader → ℕ → Result Reader
  read_char r c =
      let p = r.parser in
      let bom = r.bom || (p.counter == 0 && c == 0xEF) in
      let trailer = set r.trailer p.counter c in
      if bom
      then (if p.counter == 2
          then (do
            q ← end_bom p trailer
            ok (record { bom = false; trailer = trailer; parser = count q }))
          else ok (record { bom = true; trailer = trailer; parser = count p }))
      else (do q ← put_char p c; ok (record { bom = false; trailer = r.trailer; parser = count q }))

  unfoldable pub read_chars : Reader → List ℕ → Result Reader
  read_chars r [] = ok r
  read_chars r (c ∷ cs) = do q ← read_char r c; read_chars q cs

  unfoldable pub read : Parser → List ℕ → Result Parser
  read p cs = do
    r ← read_chars (record { bom = false; trailer = 0 ∷ 0 ∷ 0 ∷ []; parser = p }) cs
    put_char r.parser b'\n'
