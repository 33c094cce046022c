-- ===== src/Json/Tests.antt =====
-- The JSON parser and serializer at concrete texts. The iterator of boost is a function that converts
-- what the encoder writes, and `lexical_cast` one that reads decimal digits behind a sign.
use Prim.Native.Char.{code}
use Prim.Native.String.{String}
use cyng.Base.{
  ℕ, zero, suc, ◌+◌, ◌-◌, ◌*◌, ◌/◌, ◌%◌, ◌≤◌, ◌<◌, ◌≡◌, ◌≢◌, refl, ◌∙◌, ap, List, [], ◌∷◌, ◌++◌,
  Option, some, none, inl, inr, true, false, ◌==◌, if◌then◌else◌, All, arith,
}
use native.Mathlib.Decide.{dec_lt}
use cyng.Base.Result.{ok}
use cyng.Utf8
use cyng.Utf8.{encode, encode_all}
use cyng.Utf8.RoundTrip.{Survives}
use cyng.Csv.Tokenizer.{Conversion, converted, thrown}
use cyng.Json.Value.{
  Int64, positive, negative, Value, null, bool, integer, text, vector, param_map, eod, nil, cons,
  end, field, text_lt, emplace,
}
use cyng.Json.Tokenizer.{State, put_in}
use cyng.Json.Parser
use cyng.Json.Parser.{
  Reader, fresh, read, read_chars, read_char, put_char, next_code_point, offer_up_to, offer,
}
use cyng.Json.Parser.Run.{at, run}
use cyng.Json.Parser.Marks.{marks, marks-run}
use cyng.Json.Parser.Unread.{}
use cyng.Json.Print.{
  digit, digits, natural, decimal, code_points, print, print_code, print_codes, pad_four,
  code_points_up_to,
}
use cyng.Json.Print.Digits.{decimal_parts}
use cyng.Json.Print.Iterator.{code_points-encode_all}
use cyng.Json.Printable.{Encodes, ReadsDecimal, IsCode, IsPrintable}
use cyng.Json.RoundTrip.{print_all, read-print_all}

abbrev codes : String → List ℕ
codes String.[] = []
codes (String.◌∷◌ c s) = code c ∷ codes s

abbrev u8 : List ℕ → Conversion
u8 cs = elim (encode_all cs) [ none ↦ thrown [] | some bs ↦ converted bs ]

u8-Encodes : Encodes u8
u8-Encodes cs bs h e = rw (e, u8) refl

abbrev no_double : List ℕ → Option ℕ
no_double cs = none

abbrev no_text : ℕ → List ℕ
no_text x = []

-- The number that digits stand for.
parse : ℕ → List ℕ → ℕ
parse n [] = n
parse n (c ∷ cs) = parse (n * 10 + (c - b'0')) cs

parse-append : (xs : List ℕ) (n d : ℕ) → parse n (xs ++ d ∷ []) ≡ parse n xs * 10 + (d - b'0')
unfolding parse
parse-append [] n d = refl
parse-append (x ∷ xs) n d = parse-append xs (n * 10 + (x - b'0')) d

digit_value : (d : ℕ) → d < 10 → digit d - b'0' ≡ d
unfolding digit
digit_value d h = ground arith

parse-digits : (fuel n : ℕ) → n < fuel → parse 0 (digits 10 fuel n) ≡ n
unfolding digits
parse-digits zero n h = elim h [ ]
parse-digits (suc fuel) n h = elim (dec_lt n 10) [
  | yes small ↦ unfold parse in ground (arith, digit_value n)
  | no large ↦ ground (
    arith,
    parse-append (digits 10 fuel (n / 10)) 0 (digit (n % 10)),
    digit_value (n % 10),
    parse-digits fuel (n / 10),
  )
]

int64 : List ℕ → Option Int64
unfolding parse
int64 [] = none
int64 (c ∷ cs) =
    if c == b'-' then some (negative (parse 0 cs - 1)) else some (positive (parse 0 (c ∷ cs)))

int64_plain : (c : ℕ) (cs : List ℕ) → c ≢ b'-' → int64 (c ∷ cs) ≡ some (positive (parse 0 (c ∷ cs)))
unfolding int64
int64_plain c cs h = ground arith

int64_minus : (cs : List ℕ) → int64 (b'-' ∷ cs) ≡ some (negative (parse 0 cs - 1))
unfolding int64
int64_minus cs = refl

suc-sub : (n : ℕ) → suc n - 1 ≡ n
suc-sub n = omega arith

int64-ReadsDecimal : ReadsDecimal int64
unfolding decimal
int64-ReadsDecimal (positive zero) h = unfold int64 digits digit parse in refl
int64-ReadsDecimal (positive (suc n)) h =
    let (c, cs, e, first, rest) = decimal_parts (suc (suc n)) (suc n) (omega arith) (omega arith) in
    let value = parse-digits (suc (suc n)) (suc n) (omega arith) in
    rw e (int64_plain c cs (omega arith) ∙ ap (λ k. some (positive k)) (rw e at value))
int64-ReadsDecimal (negative n) h =
    int64_minus (natural 10 (suc n))
    ∙ ap (λ k. some (negative k))
        (rw (parse-digits (suc (suc n)) (suc n) (omega arith)) (suc-sub n))

-- {"a":[1, -3, "it\nis €", null, true],"b":{"":false}}
abbrev sample : Value
sample = param_map (
    field (codes "a")
      (vector (
        cons (integer (positive 1)) (
          cons (integer (negative 2)) (
            cons (text (codes "it\nis " ++ 0xE2 ∷ 0x82 ∷ 0xAC ∷ []))
              (cons null (cons (bool true) nil))))))
      (field (codes "b") (param_map (field [] (bool false) end)) end))

sample_text :
    encode_all (codes "it\nis " ++ 0x20AC ∷ []) ≡ some (codes "it\nis " ++ 0xE2 ∷ 0x82 ∷ 0xAC ∷ [])
unfolding encode_all encode
sample_text = refl

low-IsCode : (c : ℕ) → c < 0x400 → c ≢ 7 → c ≢ 11 → c ≢ b'\'' → IsCode c
low-IsCode c h k l m = (inl h, k, l, m)

sample_codes : All IsCode (codes "it\nis " ++ 0x20AC ∷ [])
sample_codes = (
  low-IsCode _ (omega arith) (omega arith) (omega arith) (omega arith),
  (
    low-IsCode _ (omega arith) (omega arith) (omega arith) (omega arith),
    (
      low-IsCode _ (omega arith) (omega arith) (omega arith) (omega arith),
      (
        low-IsCode _ (omega arith) (omega arith) (omega arith) (omega arith),
        (
          low-IsCode _ (omega arith) (omega arith) (omega arith) (omega arith),
          (
            low-IsCode _ (omega arith) (omega arith) (omega arith) (omega arith),
            ((inr (inl (omega arith)), omega arith, omega arith, omega arith), tt),
          ),
        ),
      ),
    ),
  ),
)

sample-IsPrintable : IsPrintable sample
unfolding text_lt
sample-IsPrintable = (
  (omega arith),
  (
    (omega arith),
    ((omega arith), ((codes "it\nis " ++ 0x20AC ∷ [], sample_codes, sample_text), (tt, (tt, tt)))),
  ),
  refl,
  ((omega arith), (tt, tt, tt, tt), tt, tt),
)

read-print_all_example :
    (bs : List ℕ) × (print_all no_text (sample ∷ sample ∷ []) ≡ ok bs)
    × ((r : Reader) × (read u8 int64 no_double fresh bs ≡ ok r)
        × (r.machine ≡ at (sample ∷ sample ∷ []) [] State.start [] []))
read-print_all_example =
    read-print_all u8 int64 no_double no_text u8-Encodes int64-ReadsDecimal (sample ∷ sample ∷ [])
      ((tt, sample-IsPrintable), ((tt, sample-IsPrintable), tt))

sample-Survives : All Survives (codes "it\nis " ++ 0x20AC ∷ [])
sample-Survives = grind arith

code_points-encode_all_example :
    code_points (codes "it\nis " ++ 0xE2 ∷ 0x82 ∷ 0xAC ∷ []) ≡ ok (codes "it\nis " ++ 0x20AC ∷ [])
code_points-encode_all_example =
    code_points-encode_all (codes "it\nis " ++ 0x20AC ∷ [])
      (codes "it\nis " ++ 0xE2 ∷ 0x82 ∷ 0xAC ∷ []) sample-Survives sample_text

open_array :
    run u8 int64 no_double Parser.init (codes "[[1,")
    ≡ ok (
        at []
          (Parser.State.array ∷ Parser.State.array ∷ [])
          State.start
          []
          (integer (positive 1) ∷ eod ∷ eod ∷ []))
unfolding run next_code_point offer_up_to offer put_in encode_all encode int64 Parser.process_mark
open_array = refl

marks-run_example : marks (integer (positive 1) ∷ eod ∷ eod ∷ []) ≤ 2
marks-run_example =
    marks-run u8 int64 no_double (codes "[[1,")
      (at [] (Parser.State.array ∷ Parser.State.array ∷ []) State.start []
        (integer (positive 1) ∷ eod ∷ eod ∷ []))
      open_array

sample_printed :
    print no_text sample
    ≡ ok (codes "{\"a\":[1, -3, \"it\\nis \\u20ac\", null, true],\"b\":{\"\":false}}")
unfolding print digits digit code_points print_codes print_code pad_four Utf8.put code_points_up_to
sample_printed = refl

-- A literal in no quotes that is no word of JSON is a text; a parameter may stand twice.
loose_text :
    run u8 int64 no_double Parser.init (codes "{a:1.5, \"a\" : [-7 ,x]}")
    ≡ ok (
        at
          (param_map (
              field
                (codes "a")
                (vector (cons (integer (negative 6)) (cons (text (codes "x")) nil)))
                end)
            ∷ [])
          []
          State.start
          []
          [])
unfolding run next_code_point offer_up_to offer put_in encode_all encode int64 Parser.process_mark
    text_lt emplace Parser.build_object
loose_text = refl
