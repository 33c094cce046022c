-- ===== src/Json/Print.antt =====
-- src/io/src/serializer/json.cpp on the objects that JSON has, the decimal numbers and truth values of
-- serializer/plain.cpp that it calls, and `u8_to_u32_iterator` of include/cyng/io/parser/utf-8.hpp.
pub mod Digits
pub mod Iterator
use cyng.Base.{
  ℕ, zero, suc, ◌+◌, ◌-◌, ◌/◌, ◌%◌, Bool, true, false, not, ◌&&◌, List, [], ◌∷◌, ◌++◌, ltb, ◌==◌,
  if◌then◌else◌, length,
}
use cyng.Base.Result.{Result, ok, err, assertion, undefined, ◌>>=◌, ◌>>◌, assert}
use cyng.Utf8
use cyng.Utf8.{U8ToU32}
use cyng.Json.Value.{
  Int64, positive, negative, Value, null, bool, integer, real, text, param, vector, param_map, eod,
  Values, nil, cons, Fields, end, field,
}
use cyng.Json.Tokenizer.{null_text, true_text, false_text}

-- A digit below 16, as `std::hex` writes it.
unfoldable pub digit : ℕ → ℕ
digit d = if ltb d 10 then b'0' + d else b'a' + (d - 10)

-- A number in a base, on fuel: the number plus one is enough.
unfoldable pub digits : ℕ → ℕ → ℕ → List ℕ
unfolding digit
digits base zero n = []
digits base (suc fuel) n =
    let rest = digits base fuel (n / base) ++ digit (n % base) ∷ [] in
    if ltb n base then digit n ∷ [] else rest

abbrev pub natural : ℕ → ℕ → List ℕ
natural base n = digits base (suc n) n

-- `os << std::dec << v`
unfoldable pub decimal : Int64 → List ℕ
unfolding digits
decimal (positive n) = natural 10 n
decimal (negative n) = b'-' ∷ natural 10 (suc n)

-- `std::setw(4) << std::setfill('0')`
unfoldable pub pad_four : List ℕ → List ℕ
pad_four (a ∷ []) = b'0' ∷ b'0' ∷ b'0' ∷ a ∷ []
pad_four (a ∷ b ∷ []) = b'0' ∷ b'0' ∷ a ∷ b ∷ []
pad_four (a ∷ b ∷ c ∷ []) = b'0' ∷ a ∷ b ∷ c ∷ []
pad_four ds = ds

-- `u8_to_u32_iterator::dereference`, with the bytes behind the glyph: at the end of the text it runs on.
unfoldable pub glyph_from : U8ToU32 → List ℕ → Result (ℕ × List ℕ)
glyph_from s [] = err undefined
glyph_from s (c ∷ cs) =
    let (s', v, complete) = Utf8.put s c in
    let rest = glyph_from s' cs in if complete then ok (v, cs) else rest

-- `(*pos_ & 0xC0) != 0x80`
unfoldable pub starts_glyph : ℕ → Bool
starts_glyph c = not (c / 64 == 2)

-- The loop from `begin` to `end`, on fuel: the length of the text is enough.
unfoldable pub code_points_up_to : ℕ → List ℕ → Result (List ℕ)
unfolding glyph_from starts_glyph
code_points_up_to fuel [] = ok []
code_points_up_to zero (c ∷ cs) = err undefined
code_points_up_to (suc fuel) (c ∷ cs) = do
  assert (starts_glyph c)
  (v, rest) ← glyph_from Utf8.init (c ∷ cs)
  vs ← code_points_up_to fuel rest
  ok (v ∷ vs)

unfoldable pub code_points : List ℕ → Result (List ℕ)
code_points cs = code_points_up_to (length cs) cs

abbrev pub escaped : ℕ → List ℕ
escaped c = b'\\' ∷ c ∷ []

-- `switch (c)`
unfoldable pub print_code : ℕ → List ℕ
print_code c =
    if c == 7
    then escaped b'a'
    else if c == 8
    then escaped b'b'
    else if c == 12
    then escaped b'f'
    else if c == b'\n'
    then escaped b'n'
    else if c == b'\r'
    then escaped b'r'
    else if c == b'\t'
    then escaped b't'
    else if c == 11
    then escaped b'v'
    else if c == b'\\'
    then escaped b'\\'
    else if c == b'\''
    then escaped b'\''
    else if c == b'"'
    then escaped b'"'
    else if ltb 30 c && ltb c 127
    then c ∷ []
    else escaped b'u' ++ pad_four (natural 16 c)

unfoldable pub print_codes : List ℕ → List ℕ
print_codes [] = []
print_codes (c ∷ cs) = print_code c ++ print_codes cs

unfoldable pub print_text : List ℕ → Result (List ℕ)
unfolding code_points print_codes
print_text t = do cs ← code_points t; ok (b'"' ∷ (print_codes cs ++ b'"' ∷ []))

unfoldable pub print_bool : Bool → List ℕ
print_bool true = true_text
print_bool false = false_text

-- A key is written as it is, between quotes.
unfoldable pub print_key : List ℕ → List ℕ
print_key k = b'"' ∷ (k ++ b'"' ∷ b':' ∷ [])

-- An element that is a parameter stands in braces of its own.
unfoldable pub in_braces : Value → List ℕ → List ℕ
in_braces (param k v) cs = b'{' ∷ (cs ++ b'}' ∷ [])
in_braces v cs = cs

-- `print_double` is what `os << v` writes. The text of the mark is that of the template's default.
module _ (print_double : ℕ → List ℕ) where
  unfoldable mutual
    unfolding decimal print_text print_bool print_key in_braces

    pub print : Value → Result (List ℕ)
    print null = ok null_text
    print (bool b) = ok (print_bool b)
    print (integer n) = ok (decimal n)
    print (real x) = ok (print_double x)
    print (text t) = print_text t
    print (param k v) = do cs ← print v; ok (print_key k ++ b' ' ∷ in_braces v cs)
    print (vector nil) = ok null_text
    print (vector (cons v vs)) = do
      cs ← print v
      rest ← print_elements vs
      ok (b'[' ∷ (in_braces v cs ++ rest))
    print (param_map end) = ok null_text
    print (param_map (field k v fs)) = do
      cs ← print v
      rest ← print_fields fs
      ok (b'{' ∷ (print_key k ++ (cs ++ rest)))
    print eod = ok (b'"' ∷ b'e' ∷ b'o' ∷ b'd' ∷ b'"' ∷ [])

    -- The elements behind the first, and the bracket.
    pub print_elements : Values → Result (List ℕ)
    print_elements nil = ok (b']' ∷ [])
    print_elements (cons v vs) = do
      cs ← print v
      rest ← print_elements vs
      ok (b',' ∷ b' ' ∷ (in_braces v cs ++ rest))

    -- The parameters behind the first, and the brace.
    pub print_fields : Fields → Result (List ℕ)
    print_fields end = ok (b'}' ∷ [])
    print_fields (field k v fs) = do
      cs ← print v
      rest ← print_fields fs
      ok (b',' ∷ (print_key k ++ (cs ++ rest)))
