-- ===== src/Json/Parser/Text.antt =====
-- What the serializer writes between the quotes of a text, read back.
use cyng.Base.{
  ℕ, ◌+◌, ◌*◌, ◌/◌, ◌%◌, ◌<◌, List, [], ◌∷◌, ◌++◌, ◌≡◌, ◌≢◌, ◌∙◌, inl, inr, Option, ◌||◌, ◌&&◌, ltb,
  ◌==◌, if◌then◌else◌, Bool, true, false, arith, All, All-append, append-nil, append_assoc,
  Bool-cases,
}
use cyng.Csv.Tokenizer.{Conversion}
use cyng.Json.Value.{Int64, Value}
use cyng.Json.Tokenizer.{State, Tokenizer, append, put_in, state_escape}
use cyng.Json.Parser
use cyng.Json.Parser.{offer}
use cyng.Json.Parser.Run.{at, run, run_plain, run_escaped}
use cyng.Json.Parser.Escape.{run-unicode}
use cyng.Json.Print.{natural, pad_four, escaped, print_code, print_codes}
use cyng.Json.Print.Digits.{hex_four, pad_four-natural, hex_digit-digit, digit-lt}
use cyng.Json.Printable.{IsAscii}

-- A code point that makes the trip: it has at most four hexadecimal digits, and is none of those for
-- which the serializer writes an escape that the parser does not know.
abbrev pub IsReadable : ℕ → Type 0
IsReadable c = (c < 0x10000) × (c ≢ 7) × (c ≢ 11) × (c ≢ b'\'')

abbrev is_short : ℕ → Bool
is_short c = c == 8 || c == 12 || c == b'\n' || c == b'\r' || c == b'\t' || c == b'\\' || c == b'"'

-- The letter behind the backslash.
abbrev letter : ℕ → ℕ
letter c =
    if c == 8
    then b'b'
    else if c == 12
    then b'f'
    else if c == b'\n'
    then b'n'
    else if c == b'\r'
    then b'r'
    else if c == b'\t'
    then b't'
    else c

print_short : (c : ℕ) → is_short c ≡ true → print_code c ≡ escaped (letter c)
unfolding print_code
print_short c h = ground arith

escape_short :
    (t : Tokenizer) (c : ℕ)
    → is_short c ≡ true
    → state_escape t (letter c) ≡ append t c State.string
unfolding state_escape
escape_short t c h = ground arith

print_plain :
    (c : ℕ)
    → IsReadable c
    → is_short c ≡ false
    → (ltb 30 c && ltb c 127) ≡ true
    → print_code c ≡ c ∷ []
unfolding print_code
print_plain c code h k = ground arith

print_long :
    (c : ℕ)
    → IsReadable c
    → is_short c ≡ false
    → (ltb 30 c && ltb c 127) ≡ false
    → print_code c ≡ escaped b'u' ++ pad_four (natural 16 c)
unfolding print_code
print_long c code h k = ground arith

letter-lt : (c : ℕ) → is_short c ≡ true → letter c < 0x80
letter-lt c h = ground arith

hex_four-IsAscii : (c : ℕ) → c < 0x10000 → All IsAscii (hex_four c)
hex_four-IsAscii c h = (
  digit-lt (c / 4096) (omega arith),
  (
    digit-lt (c / 256 % 16) (omega arith),
    (digit-lt (c / 16 % 16) (omega arith), (digit-lt (c % 16) (omega arith), tt)),
  ),
)

print_code-IsAscii : (c : ℕ) → IsReadable c → All IsAscii (print_code c)
print_code-IsAscii c h = elim (Bool-cases (is_short c)) [
  | inl short ↦ rw (print_short c short) (omega arith, (letter-lt c short, tt))
  | inr long ↦ elim (Bool-cases (ltb 30 c && ltb c 127)) [
    | inl plain ↦ rw (print_plain c h long plain) (ground arith, tt)
    | inr coded ↦
        rw (print_long c h long coded, pad_four-natural c h.0)
          (omega arith, (omega arith, hex_four-IsAscii c h.0))
  ]
]

-- The text between the quotes is ASCII.
pub print_codes-IsAscii : (cs : List ℕ) → All IsReadable cs → All IsAscii (print_codes cs)
unfolding print_codes
print_codes-IsAscii [] h = tt
print_codes-IsAscii (c ∷ cs) h =
    All-append IsAscii (print_code c) (print_codes cs) (print_code-IsAscii c h.0)
      (print_codes-IsAscii cs h.1)

hex_value : (c : ℕ) → c / 4096 * 4096 + c / 256 % 16 * 256 + c / 16 % 16 * 16 + c % 16 ≡ c
hex_value c = omega arith

module _ (u32_to_u8 : List ℕ → Conversion) (to_int64 : List ℕ → Option Int64)
    (to_double : List ℕ → Option ℕ) (d : List Value) (ss : List Parser.State)
    (st : List Value) where
  abbrev string_at : List ℕ → Parser.Machine
  string_at b = at d ss State.string b st

  run-short :
      (c : ℕ) (b rest : List ℕ)
      → is_short c ≡ true
      → run u32_to_u8 to_int64 to_double (string_at b) (escaped (letter c) ++ rest)
        ≡ run u32_to_u8 to_int64 to_double (string_at (b ++ c ∷ [])) rest
  run-short c b rest h =
      let t : Tokenizer = record { state = State.escape; buffer = b } in
      run_escaped u32_to_u8 to_int64 to_double d ss st (letter c) c b rest
        (unfold offer put_in in rw (escape_short t c h))

  run-long :
      (c : ℕ) (b rest : List ℕ)
      → c < 0x10000
      → run u32_to_u8 to_int64 to_double (string_at b) (escaped b'u' ++ (hex_four c ++ rest))
        ≡ run u32_to_u8 to_int64 to_double (string_at (b ++ c ∷ [])) rest
  run-long c b rest h =
      run-unicode u32_to_u8 to_int64 to_double d ss st b rest _ _ _ _
        (hex_digit-digit (c / 4096) (omega arith)) (hex_digit-digit (c / 256 % 16) (omega arith))
        (hex_digit-digit (c / 16 % 16) (omega arith)) (hex_digit-digit (c % 16) (omega arith))
      ∙ rw (hex_value c)

  run-print_code :
      (c : ℕ) (b rest : List ℕ)
      → IsReadable c
      → run u32_to_u8 to_int64 to_double (string_at b) (print_code c ++ rest)
        ≡ run u32_to_u8 to_int64 to_double (string_at (b ++ c ∷ [])) rest
  run-print_code c b rest h = elim (Bool-cases (is_short c)) [
    | inl short ↦ rw (print_short c short) (run-short c b rest short)
    | inr long ↦ elim (Bool-cases (ltb 30 c && ltb c 127)) [
      | inl plain ↦
          rw (print_plain c h long plain)
            (run_plain u32_to_u8 to_int64 to_double d ss st c b rest (ground arith) (ground arith))
      | inr coded ↦ rw (print_long c h long coded, pad_four-natural c h.0) (run-long c b rest h.0)
    ]
  ]

  -- The code points of a text are put to the buffer as they were before they were escaped.
  pub run-print_codes :
      (cs b rest : List ℕ)
      → All IsReadable cs
      → run u32_to_u8 to_int64 to_double (string_at b) (print_codes cs ++ rest)
        ≡ run u32_to_u8 to_int64 to_double (string_at (b ++ cs)) rest
  unfolding print_codes
  run-print_codes [] b rest h = rw append-nil
  run-print_codes (c ∷ cs) b rest h = rw append_assoc (
      run-print_code c b (print_codes cs ++ rest) h.0
      ∙ run-print_codes cs (b ++ c ∷ []) rest h.1
      ∙ rw append_assoc)
