-- ===== src/Json/Parser.antt =====
-- src/parse/src/json/json_parser.cpp and `parser::read` of include/cyng/parse/json/json_parser.h. A
-- `Machine` is what stands behind the UTF-8 decoder; the calls of `cb_` are the objects in
-- `delivered`, in their order. The top of `stack` and of `states` is the head.
pub mod Progress
pub mod Run
pub mod Containers
pub mod Unread
pub mod Marks
pub mod Escape
pub mod Text
pub mod Bytes
use cyng.Base.{
  ℕ, zero, suc, ◌+◌, Bool, true, false, ◌&&◌, ◌||◌, List, [], ◌∷◌, ◌++◌, reverse, Option, none,
  some, ltb, ◌==◌, if◌then◌else◌, length, set, get_or,
}
use cyng.Base.Result.{Result, ok, err, assertion, out_of_range, undefined, ◌>>=◌, ◌>>◌, assert}
use cyng.Store.Meta.{text_eq}
use cyng.Utf8
use cyng.Utf8.{U8ToU32}
use cyng.Csv.Tokenizer.{Conversion}
use cyng.Json.Value.{
  Int64, Value, null, bool, integer, real, text, param, vector, param_map, eod, Fields, end,
  of_list, emplace, is_eod, as_text, is_text, as_param,
}
use cyng.Json.Tokenizer
use cyng.Json.Tokenizer.{Tokenizer, Symbol, SymbolType, Step, put, true_text}

pub data State : Type 0 where
  array object value : State

pub record Machine : Type 0 where
  pub tokenizer : Tokenizer
  pub stack : List Value
  pub states : List State
  pub delivered : List Value

abbrev pub init : Machine
init = record { tokenizer = Tokenizer.init; stack = []; states = []; delivered = [] }

abbrev push : Machine → Value → Machine
push m v = record m { stack = v ∷ m.stack }

-- `swap(state)`
abbrev swap : State → List State → List State
swap s [] = []
swap s (old ∷ states) = s ∷ states

-- `top()` and `pop()`, on an empty stack without a meaning.
abbrev pop_value : List Value → Result (Value × List Value)
pop_value [] = err undefined
pop_value (v ∷ stack) = ok (v, stack)

-- The branch of `build_object` for a value behind its name.
unfoldable pub build_param : List Value → Result (List Value)
unfolding is_text as_text
build_param stack =
    if ltb 2 (length stack)
    then (do
      (obj, below) ← pop_value stack
      (name, rest) ← pop_value below
      assert (is_text name)
      ok (param (as_text name) obj ∷ rest))
    else ok stack

unfoldable pub build_object_in : List State → Machine → Result Machine
unfolding build_param
build_object_in [] m = err undefined
build_object_in (State.value ∷ states) m = do
  stack ← build_param m.stack
  ok (record m { stack = stack; states = State.object ∷ states })
build_object_in (_ ∷ states) m = ok m

unfoldable pub build_object : Machine → Result Machine
unfolding build_object_in
build_object m = build_object_in m.states m

-- The loop of `build_array`, with what is left of the stack.
unfoldable pub collect_array : List Value → List Value → List Value × List Value
unfolding is_eod
collect_array vec [] = (vec, [])
collect_array vec (obj ∷ stack) =
    let rest = collect_array (vec ++ obj ∷ []) stack in
    if is_eod obj then (vec, obj ∷ stack) else rest

-- The loop of `build_member`.
unfoldable pub collect_member : Fields → List Value → Fields × List Value
unfolding is_eod as_param
collect_member pm [] = (pm, [])
collect_member pm (obj ∷ stack) =
    let (name, v) = as_param obj in
    let rest = collect_member (emplace name v pm) stack in
    if is_eod obj then (pm, obj ∷ stack) else rest

-- `swap(vec)` and `swap(pm)`: the container takes the place of the mark.
unfoldable pub swap_mark : Value → List Value → Result (List Value)
unfolding is_eod
swap_mark container stack = do
  (top, rest) ← pop_value stack
  assert (is_eod top)
  ok (container ∷ rest)

-- `assert(stack_.size() == 1)`, and the call of the callback.
unfoldable pub cleanup : Machine → Result Machine
cleanup m = do
  assert (length m.stack == 1)
  (obj, rest) ← pop_value m.stack
  ok (record m { stack = rest; delivered = m.delivered ++ obj ∷ [] })

-- `state_.pop()`, and the delivery of a complete object.
unfoldable pub leave : List State → Machine → Result Machine
unfolding cleanup
leave [] m = err undefined
leave (s ∷ []) m = cleanup (record m { states = [] })
leave (s ∷ outer ∷ states) m = ok (record m { states = outer ∷ states })

unfoldable pub not_empty : List Value → Bool
not_empty [] = false
not_empty (v ∷ stack) = true

unfoldable pub build_array : Machine → Result Machine
unfolding collect_array swap_mark leave not_empty of_list
build_array m = do
  assert (not_empty m.stack)
  let (vec, rest) = collect_array [] m.stack
  stack ← swap_mark (vector (of_list (reverse vec))) rest
  leave m.states (record m { stack = stack })

unfoldable pub build_member : Machine → Result Machine
unfolding collect_member swap_mark leave not_empty
build_member m = do
  assert (not_empty m.stack)
  let (pm, rest) = collect_member end m.stack
  stack ← swap_mark (param_map pm) rest
  leave m.states (record m { stack = stack })

-- The branch for a colon.
unfoldable pub expect_value : List State → Machine → Result Machine
expect_value [] m = err undefined
expect_value (State.object ∷ states) m = ok (record m { states = State.value ∷ states })
expect_value (_ ∷ states) m = err assertion

-- `switch (sym.value_.at(0))`
unfoldable pub process_mark : Machine → ℕ → Result Machine
unfolding build_array build_object build_member expect_value
process_mark m c =
    if c == b'['
    then ok (record m { stack = eod ∷ m.stack; states = State.array ∷ m.states })
    else if c == b'{'
    then ok (record m { stack = eod ∷ m.stack; states = State.object ∷ m.states })
    else if c == b':'
    then expect_value m.states m
    else if c == b']'
    then build_array m
    else if c == b'}'
    then (do n ← build_object m; build_member n)
    else if c == b','
    then build_object m
    else ok m

unfoldable pub process_symbol : Machine → List ℕ → Result Machine
unfolding process_mark
process_symbol m (c ∷ []) = process_mark m c
process_symbol m _ = err assertion

-- Conversion to a string stands in where there is no number.
abbrev or_text : List ℕ → Option Value → Value
or_text chars none = text chars
or_text chars (some v) = v

abbrev map_integer : Option Int64 → Option Value
map_integer none = none
map_integer (some n) = some (integer n)

abbrev map_real : Option ℕ → Option Value
map_real none = none
map_real (some x) = some (real x)

-- The variables of the loop in `read`.
pub record Reader : Type 0 where
  pub sanitizer : U8ToU32
  pub counter : ℕ
  pub line : ℕ
  pub bom : Bool
  pub trailer : List ℕ
  pub machine : Machine

-- A parser before its first call of `read`.
abbrev pub fresh : Reader
fresh = record {
  sanitizer = Utf8.init;
  counter = 0;
  line = 0;
  bom = false;
  trailer = 0 ∷ 0 ∷ 0 ∷ [];
  machine = init;
}

-- `++counter_`, and the count of the lines.
abbrev pub count : Reader → ℕ → Reader
count r c = record r { counter = r.counter + 1; line = if c == b'\n' then r.line + 1 else r.line }

-- `to_int64` and `to_double` are the conversions of boost, where they do not throw.
module _ (u32_to_u8 : List ℕ → Conversion) (to_int64 : List ℕ → Option Int64)
    (to_double : List ℕ → Option ℕ) where
  unfoldable pub symbol_in : SymbolType → Machine → List ℕ → Result Machine
  unfolding process_symbol text_eq
  symbol_in SymbolType.string m chars = ok (push m (text chars))
  symbol_in SymbolType.number m chars = ok (push m (or_text chars (map_integer (to_int64 chars))))
  symbol_in SymbolType.float m chars = ok (push m (or_text chars (map_real (to_double chars))))
  symbol_in SymbolType.boolean m chars = ok (push m (bool (text_eq chars true_text)))
  symbol_in SymbolType.nothing m chars = ok (push m null)
  symbol_in SymbolType.symbol m chars = process_symbol m chars
  symbol_in _ m chars = err assertion

  unfoldable pub next_symbol : Machine → Symbol → Result Machine
  unfolding symbol_in
  next_symbol m sym = symbol_in sym.type m sym.value

  unfoldable pub next_symbols : Machine → List Symbol → Result Machine
  unfolding next_symbol
  next_symbols m [] = ok m
  next_symbols m (sym ∷ syms) = do n ← next_symbol m sym; next_symbols n syms

  -- One call of `tokenizer_.put`, with the callbacks that it makes.
  unfoldable pub offer : Machine → ℕ → Result (Machine × Bool)
  unfolding next_symbols
  offer m tok = do
    st ← put u32_to_u8 m.tokenizer tok
    n ← next_symbols (record m { tokenizer = st.next }) st.symbols
    ok (n, st.advance)

  -- `while (!tokenizer_.put(tok) && limit != 0u) --limit;`
  unfoldable pub offer_up_to : ℕ → Machine → ℕ → Result Machine
  offer_up_to zero m tok = do (n, _) ← offer m tok; ok n
  offer_up_to (suc limit) m tok = do
    (n, advance) ← offer m tok
    elim advance [ true ↦ ok n | false ↦ offer_up_to limit n tok ]

  unfoldable pub next_code_point : Machine → ℕ → Result Machine
  next_code_point = offer_up_to 32

  -- `parser::put`: the sanitizer calls `next_code_point` for a complete code point.
  unfoldable pub put_char : Reader → ℕ → Result Reader
  put_char r c =
      let (s, tok, complete) = Utf8.put r.sanitizer c in
      if complete
      then (do m ← next_code_point r.machine tok; ok (record r { sanitizer = s; machine = m }))
      else ok (record r { sanitizer = s })

  unfoldable pub put_chars : Reader → List ℕ → Result Reader
  put_chars r [] = ok r
  put_chars r (c ∷ cs) = do q ← put_char r c; put_chars q cs

  -- The body of the loop over the range: three bytes that are no mark are parsed.
  unfoldable pub read_char : Reader → ℕ → Result Reader
  read_char r c =
      let bom = r.bom || (r.counter == 0 && c == 0xEF) in
      let trailer = set r.trailer r.counter c in
      if bom
      then (if r.counter == 2
          then (let mark =
                Utf8.is_bom (get_or trailer 0 0) (get_or trailer 1 0) (get_or trailer 2 0) in
              do
                q ←
                    put_chars (record r { bom = false; trailer = trailer })
                      (if mark then [] else trailer)
                ok (count q c))
          else ok (count (record r { bom = true; trailer = trailer }) c))
      else (do q ← put_char (record r { bom = false }) c; ok (count q c))

  unfoldable pub read_chars : Reader → List ℕ → Result Reader
  read_chars r [] = ok r
  read_chars r (c ∷ cs) = do q ← read_char r c; read_chars q cs

  -- `read` begins with no mark and an empty trailer.
  unfoldable pub read : Reader → List ℕ → Result Reader
  read r = read_chars (record r { bom = false; trailer = 0 ∷ 0 ∷ 0 ∷ [] })
