-- ===== src/Json/Tokenizer.antt =====
-- src/parse/src/json/json_tokenizer.cpp. A state function returns the tokenizer behind the code point,
-- the symbols for which it calls `cb_`, and whether the code point is consumed.
pub mod Progress
pub mod Escape
use cyng.Base.{
  ℕ, zero, suc, ◌+◌, ◌-◌, ◌%◌, Bool, true, false, ◌&&◌, ◌||◌, List, [], ◌∷◌, ◌++◌, Option, none,
  some, ltb, leb, ◌==◌, if◌then◌else◌, length, take, drop,
}
use cyng.Base.Result.{Result, ok, err, assertion, length_error, ◌>>=◌, ◌>>◌, assert}
use cyng.Store.Meta.{text_eq}
use cyng.Csv.Tokenizer.{
  Conversion, converted, thrown, or_throw, find_last_of, hex_digit, read_hex, is_hex,
}

pub data State : Type 0 where
  error start string literal number fraction exponent digits escape unicode : State

pub data SymbolType : Type 0 where
  sym_eof unknown string literal number float boolean nothing symbol ws : SymbolType

pub record Symbol : Type 0 where
  pub type : SymbolType
  pub value : List ℕ

pub record Tokenizer : Type 0 where
  pub state : State
  pub buffer : List ℕ

pub record Step : Type 0 where
  pub next : Tokenizer
  pub symbols : List Symbol
  pub advance : Bool

abbrev pub init : Tokenizer
init = record { state = State.start; buffer = [] }

abbrev pub stay : Tokenizer → Step
stay t = record { next = t; symbols = []; advance = true }

abbrev pub go : Tokenizer → State → Step
go t s = stay (record t { state = s })

abbrev pub append : Tokenizer → ℕ → State → Step
append t cp s = stay (record t { buffer = t.buffer ++ cp ∷ []; state = s })

abbrev pub is_space : ℕ → Bool
is_space cp = cp == b' ' || cp == b'\n' || cp == b'\r' || cp == b'\t'

abbrev pub is_mark : ℕ → Bool
is_mark cp = cp == b',' || cp == b':' || cp == b'[' || cp == b']' || cp == b'{' || cp == b'}'

abbrev pub is_digit : ℕ → Bool
is_digit cp = leb b'0' cp && leb cp b'9'

-- `symbol(t, cp)` holds one `char`.
abbrev pub mark_symbol : ℕ → Symbol
mark_symbol cp = record { type = SymbolType.symbol; value = cp % 256 ∷ [] }

-- A leading 0 is not put to the buffer.
pub state_start : Tokenizer → ℕ → Step
state_start t cp =
    if is_mark cp
    then record (stay t) { symbols = mark_symbol cp ∷ [] }
    else if is_space cp
    then stay t
    else if cp == b'"'
    then go t State.string
    else if cp == b'0'
    then go t State.exponent
    else if cp == b'-' || is_digit cp
    then append t cp State.number
    else append t cp State.literal

unfoldable pub state_escape : Tokenizer → ℕ → Step
state_escape t cp =
    if cp == b'"' || cp == b'\\' || cp == b'/'
    then append t cp State.string
    else if cp == b'b'
    then append t 8 State.string
    else if cp == b'f'
    then append t 12 State.string
    else if cp == b'n'
    then append t b'\n' State.string
    else if cp == b'r'
    then append t b'\r' State.string
    else if cp == b't'
    then append t b'\t' State.string
    else if cp == b'u'
    then append t 1 State.unicode
    else go t State.string

-- Where no marker is found, `pos` is `npos`: the size comes out one too large, and `resize` throws.
unfoldable pub convert_to_unicode : Tokenizer → Result Step
convert_to_unicode t = elim (find_last_of 1 t.buffer) [
  | none ↦ if ltb 4 (length t.buffer + 1) then err length_error else ok (stay t)
  | some pos ↦
      if ltb 4 (length t.buffer - pos)
      then (let n = read_hex 0 (drop (pos + 1) t.buffer) in
          ok (stay (record { buffer = take pos t.buffer ++ n ∷ []; state = State.string })))
      else ok (stay t)
]

pub state_unicode : Tokenizer → ℕ → Result Step
unfolding convert_to_unicode
state_unicode t cp =
    if is_hex cp
    then convert_to_unicode (record t { buffer = t.buffer ++ cp ∷ [] })
    else ok (go t State.error)

pub state_exponent : Tokenizer → ℕ → Step
state_exponent t cp =
    if cp == b'-' || cp == b'+'
    then append t cp State.digits
    else record (go t State.digits) { advance = false }

-- The end of a literal within a line, and the code points that are taken again.
abbrev pub ends_literal : ℕ → Bool
ends_literal cp = is_mark cp || cp == b'"' || cp == b'\''

abbrev pub null_text : List ℕ
null_text = b'n' ∷ b'u' ∷ b'l' ∷ b'l' ∷ []

abbrev pub true_text : List ℕ
true_text = b't' ∷ b'r' ∷ b'u' ∷ b'e' ∷ []

abbrev pub false_text : List ℕ
false_text = b'f' ∷ b'a' ∷ b'l' ∷ b's' ∷ b'e' ∷ []

abbrev pub make_symbol : SymbolType → List ℕ → Symbol
make_symbol type value = record { type = type; value = value }

-- The `catch` takes the exception's text for the value.
abbrev string_symbol : Conversion → Symbol
string_symbol (converted bytes) = make_symbol SymbolType.string bytes
string_symbol (thrown what) = make_symbol SymbolType.string what

module _ (u32_to_u8 : List ℕ → Conversion) where
  -- The buffer becomes the text of a symbol, and is cleared.
  abbrev emit : Tokenizer → SymbolType → Bool → Result Step
  emit t type advance = do
    value ← or_throw (u32_to_u8 t.buffer)
    ok (record { next = init; symbols = make_symbol type value ∷ []; advance = advance })

  pub state_string : Tokenizer → ℕ → Result Step
  state_string t cp =
      if cp == b'"'
      then emit t SymbolType.string true
      else if cp == b'\\'
      then ok (go t State.escape)
      else ok (append t cp State.string)

  pub build_literal : List ℕ → Result Symbol
  unfolding text_eq
  build_literal buffer =
      if text_eq buffer null_text
      then (do value ← or_throw (u32_to_u8 buffer); ok (make_symbol SymbolType.nothing value))
      else if text_eq buffer true_text || text_eq buffer false_text
      then (do value ← or_throw (u32_to_u8 buffer); ok (make_symbol SymbolType.boolean value))
      else ok (string_symbol (u32_to_u8 buffer))

  pub state_literal : Tokenizer → ℕ → Result Step
  unfolding build_literal
  state_literal t cp =
      if is_space cp || ends_literal cp
      then (do
        sym ← build_literal t.buffer
        ok (record { next = init; symbols = sym ∷ []; advance = is_space cp }))
      else ok (append t cp State.literal)

  pub state_number : Tokenizer → ℕ → Result Step
  state_number t cp =
      if cp == b'.'
      then ok (append t cp State.fraction)
      else if is_digit cp
      then ok (append t cp State.number)
      else if cp == b'e' || cp == b'E'
      then ok (stay (record { buffer = t.buffer ++ b'.' ∷ b'0' ∷ cp ∷ []; state = State.exponent }))
      else emit t SymbolType.number false

  pub state_fraction : Tokenizer → ℕ → Result Step
  state_fraction t cp =
      if is_digit cp
      then ok (append t cp State.fraction)
      else if cp == b'e' || cp == b'E'
      then ok (append t cp State.exponent)
      else emit t SymbolType.float false

  pub state_digits : Tokenizer → ℕ → Result Step
  state_digits t cp =
      if is_digit cp then ok (append t cp State.digits) else emit t SymbolType.float false

  -- `switch (state_)`
  unfoldable pub put_in : State → Tokenizer → ℕ → Result Step
  unfolding state_start state_string state_literal state_escape state_number state_fraction
      state_exponent state_digits state_unicode
  put_in State.start t cp = ok (state_start t cp)
  put_in State.string t cp = state_string t cp
  put_in State.literal t cp = state_literal t cp
  put_in State.escape t cp = ok (state_escape t cp)
  put_in State.number t cp = state_number t cp
  put_in State.fraction t cp = state_fraction t cp
  put_in State.exponent t cp = ok (state_exponent t cp)
  put_in State.digits t cp = state_digits t cp
  put_in State.unicode t cp = state_unicode t cp
  put_in State.error t cp = err assertion

  abbrev pub put : Tokenizer → ℕ → Result Step
  put t = put_in t.state t
