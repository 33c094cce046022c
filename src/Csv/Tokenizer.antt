-- ===== src/Csv/Tokenizer.antt =====
-- src/parse/src/csv/csv_tokenizer.cpp. A state function returns the tokenizer behind the code point, the
-- symbols for which it calls `cb_`, and whether the code point is consumed.
pub mod Progress
pub mod Validity
pub mod Escape
use cyng.Base.{
  ℕ, zero, suc, ◌+◌, ◌-◌, ◌*◌, ◌%◌, ◌^◌, Bool, true, false, not, ◌&&◌, ◌||◌, List, [], ◌∷◌, ◌++◌,
  Option, none, some, ltb, leb, ◌==◌, if◌then◌else◌, length, take, drop,
}
use cyng.Base.Result.{
  Result, ok, err, Fault, assertion, exception, length_error, ◌>>=◌, ◌>>◌, assert,
}

pub data State : Type 0 where
  error start string literal separator escape unicode eol : State

pub data SymbolType : Type 0 where
  sym_eof sym_eol unknown string literal nothing separator ws : SymbolType

pub record Symbol : Type 0 where
  pub type : SymbolType
  pub value : List ℕ

-- `sep` is a `char`, by the number of its bits modulo 256.
pub record Tokenizer : Type 0 where
  pub state : State
  pub sep : ℕ
  pub buffer : List ℕ

pub record Step : Type 0 where
  pub next : Tokenizer
  pub symbols : List Symbol
  pub advance : Bool

-- The UTF-8 text of a buffer, by the iterator of boost, which throws on what is no code point; with
-- the text `what()` of the exception.
pub data Conversion : Type 0 where
  converted : List ℕ → Conversion
  thrown : List ℕ → Conversion

abbrev pub or_throw : Conversion → Result (List ℕ)
or_throw (converted bytes) = ok bytes
or_throw (thrown what) = err (exception what)

abbrev pub init : ℕ → Tokenizer
init sep = record { state = State.start; sep = sep; buffer = [] }

abbrev pub stay : Tokenizer → Step
stay t = record { next = t; symbols = []; advance = true }

abbrev pub go : Tokenizer → State → Step
go t s = stay (record t { state = s })

-- Take the same code point again, as the first of a new token.
abbrev pub retry : Tokenizer → Step
retry t = record { next = record t { state = State.start }; symbols = []; advance = false }

abbrev pub append : Tokenizer → ℕ → State → Step
append t cp s = stay (record t { buffer = t.buffer ++ cp ∷ []; state = s })

-- `symbol(t, cp)` holds one `char`.
abbrev pub char_symbol : SymbolType → ℕ → Symbol
char_symbol type cp = record { type = type; value = cp % 256 ∷ [] }

-- The signed `char` as `sep_ == cp` compares it: it is extended by its sign to the 32 bits of a code point.
unfoldable pub widen : ℕ → ℕ
widen c = if ltb (c % 256) 0x80 then c % 256 else c % 256 + 2 ^ 32 - 256

pub state_start : Tokenizer → ℕ → Step
state_start t cp =
    if widen t.sep == cp
    then record (go t State.separator) { symbols = char_symbol SymbolType.separator cp ∷ [] }
    else if cp == b' ' || cp == b'\t'
    then stay t
    else if cp == b'\n' || cp == b'\r'
    then record (go t State.eol) { symbols = char_symbol SymbolType.sym_eol cp ∷ [] }
    else if cp == b'"'
    then go t State.string
    else append t cp State.literal

pub state_eol : Tokenizer → ℕ → Step
state_eol t cp = if cp == b'\n' || cp == b'\r' then stay t else retry t

-- The code points that end a literal.
unfoldable pub ends_literal : ℕ → Bool
ends_literal cp =
    cp == b'\n'
    || cp == b'\r'
    || cp == b'"'
    || cp == b'\''
    || cp == b'['
    || cp == b']'
    || cp == b'{'
    || cp == b'}'
    || cp == b','
    || cp == b':'

pub state_escape : Tokenizer → ℕ → Step
state_escape t cp =
    if cp == b'"' || cp == b'\\' || cp == b'/'
    then append t cp State.string
    else if cp == b'b'
    then append t 8 State.string
    else if cp == b'f'
    then append t 12 State.string
    else if cp == b'n'
    then append t b'\n' State.string
    else if cp == b'r'
    then append t b'\r' State.string
    else if cp == b't'
    then append t b'\t' State.string
    else if cp == b'u'
    then append t 1 State.unicode
    else go t State.string

-- `buffer_.find_last_of(1u)`
unfoldable pub find_last_of : ℕ → List ℕ → Option ℕ
find_last_of v [] = none
find_last_of v (x ∷ xs) = elim (find_last_of v xs) [
  | some i ↦ some (suc i)
  | none ↦ if x == v then some 0 else none
]

unfoldable pub hex_digit : ℕ → Option ℕ
hex_digit c =
    if leb b'0' c && leb c b'9'
    then some (c - b'0')
    else if leb b'a' c && leb c b'f'
    then some (c - b'a' + 10)
    else if leb b'A' c && leb c b'F'
    then some (c - b'A' + 10)
    else none

-- `ss << std::hex << text; ss >> n;` reads digits up to the first character that is none.
unfoldable pub read_hex : ℕ → List ℕ → ℕ
unfolding hex_digit
read_hex n [] = n
read_hex n (c ∷ cs) = elim (hex_digit c) [ none ↦ n | some d ↦ read_hex (n * 16 + d) cs ]

-- Where no marker is found, `pos` is `npos`: the size comes out one too large, and `resize` throws.
unfoldable pub convert_to_unicode : Tokenizer → Result Step
unfolding find_last_of read_hex
convert_to_unicode t = elim (find_last_of 1 t.buffer) [
  | none ↦ if ltb 4 (length t.buffer + 1) then err length_error else ok (stay t)
  | some pos ↦
      if ltb 4 (length t.buffer - pos)
      then ok (
          stay (record t {
            buffer = take pos t.buffer ++ read_hex 0 (drop (pos + 1) t.buffer) ∷ [];
            state = State.string;
          }))
      else ok (stay t)
]

abbrev pub is_hex : ℕ → Bool
is_hex c = elim (hex_digit c) [ none ↦ false | some d ↦ true ]

pub state_unicode : Tokenizer → ℕ → Result Step
unfolding hex_digit convert_to_unicode
state_unicode t cp =
    if is_hex cp
    then convert_to_unicode (record t { buffer = t.buffer ++ cp ∷ [] })
    else ok (go t State.error)

-- The `catch` takes the exception's text for the value.
pub string_symbol : Conversion → Symbol
string_symbol (converted bytes) = record { type = SymbolType.string; value = bytes }
string_symbol (thrown what) = record { type = SymbolType.string; value = what }

unfoldable pub is_empty : List ℕ → Bool
is_empty [] = true
is_empty (c ∷ cs) = false

-- The functions that make text of the buffer take its conversion as a parameter.
module _ (u32_to_u8 : List ℕ → Conversion) where
  pub state_string : Tokenizer → ℕ → Result Step
  state_string t cp =
      if cp == b'"'
      then (do
        text ← or_throw (u32_to_u8 t.buffer)
        ok (record {
          next = record t { buffer = []; state = State.start };
          symbols = record { type = SymbolType.string; value = text } ∷ [];
          advance = true;
        }))
      else if cp == b'\\'
      then ok (go t State.escape)
      else ok (append t cp State.string)

  build_literal : List ℕ → Result Symbol
  unfolding string_symbol
  build_literal [] = do
    text ← or_throw (u32_to_u8 [])
    ok (record { type = SymbolType.nothing; value = text })
  build_literal (c ∷ cs) = ok (string_symbol (u32_to_u8 (c ∷ cs)))

  pub state_literal : Tokenizer → ℕ → Result Step
  unfolding ends_literal build_literal
  state_literal t cp =
      if ends_literal cp
      then (do
        sym ← build_literal t.buffer
        ok (record (retry (record t { buffer = [] })) { symbols = sym ∷ [] }))
      else ok (append t cp State.literal)

  pub state_separator : Tokenizer → ℕ → Result Step
  unfolding is_empty
  state_separator t cp =
      if widen t.sep == cp
      then (do
        assert (is_empty t.buffer)
        text ← or_throw (u32_to_u8 t.buffer)
        ok (record (stay t) {
          symbols =
              record { type = SymbolType.nothing; value = text }
              ∷ char_symbol SymbolType.separator cp
              ∷ [];
        }))
      else ok (retry t)

  -- `switch (state_)`
  unfoldable pub put_in : State → Tokenizer → ℕ → Result Step
  unfolding state_start state_string state_literal state_escape state_separator state_unicode
      state_eol
  put_in State.start t cp = ok (state_start t cp)
  put_in State.string t cp = state_string t cp
  put_in State.literal t cp = state_literal t cp
  put_in State.escape t cp = ok (state_escape t cp)
  put_in State.separator t cp = state_separator t cp
  put_in State.unicode t cp = state_unicode t cp
  put_in State.eol t cp = ok (state_eol t cp)
  put_in State.error t cp = err assertion

  abbrev pub put : Tokenizer → ℕ → Result Step
  put t = put_in t.state t
