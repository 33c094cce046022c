-- ===== src/Json/Parser/Unread.antt =====
-- Texts that the serializer writes and the parser reads otherwise, and marks where nothing is open.
use cyng.Base.{
  ℕ, ◌+◌, ◌*◌, ◌/◌, ◌%◌, ◌≤◌, ◌<◌, List, [], ◌∷◌, ◌++◌, ◌≡◌, ◌≢◌, refl, ◌∙◌, ◌⊎◌, inl, inr, Option,
  none, ◌||◌, ◌==◌, false, append_assoc, arith,
}
use cyng.Base.Result.{Fault, err, undefined}
use cyng.Csv.Tokenizer.{Conversion, converted}
use cyng.Json.Value.{Int64, Value, text}
use cyng.Json.Tokenizer.{State, put_in, is_digit}
use cyng.Json.Parser
use cyng.Json.Parser.{offer, offer_up_to, next_code_point, build_object, build_array, process_mark}
use cyng.Json.Parser.Run.{at, run, run-accept, run-refuse_twice, run_plain}
use cyng.Json.Parser.Escape.{run-unicode}
use cyng.Json.Print.{digit, natural, pad_four, escaped, print_code}
use cyng.Json.Print.Digits.{hex_digit-digit, pad_four-five}

module _ (u32_to_u8 : List ℕ → Conversion) (to_int64 : List ℕ → Option Int64)
    (to_double : List ℕ → Option ℕ) (d : List Value) (ss : List Parser.State)
    (st : List Value) where
  abbrev runs : State → List ℕ → List Value → List ℕ → Parser.Result Parser.Machine
  runs s b st = run u32_to_u8 to_int64 to_double (at d ss s b st)

  -- A number that begins with 0, and goes on with neither a digit nor a sign, is read as an empty
  -- text; what stands behind the 0, a decimal point or a mark, begins the next token. It is expected
  -- that the conversion of an empty text to a number fails.
  run-zero :
      (c : ℕ) (rest : List ℕ)
      → u32_to_u8 [] ≡ converted []
      → to_double [] ≡ none
      → is_digit c ≡ false
      → (c == b'-' || c == b'+') ≡ false
      → runs State.start [] st (b'0' ∷ c ∷ rest) ≡ runs State.start [] (text [] ∷ st) (c ∷ rest)
  run-zero c rest e f h k =
      run-accept u32_to_u8 to_int64 to_double (at d ss State.start [] st)
        (at d ss State.exponent [] st) b'0' (c ∷ rest) (unfold offer put_in in refl)
      ∙ run-refuse_twice u32_to_u8 to_int64 to_double _ (at d ss State.digits [] st) d ss []
          (text [] ∷ st) c rest (unfold offer put_in in rw k refl)
          (unfold offer put_in in ground arith)

  dropped :
      (e : ℕ) (b rest : List ℕ)
      → ((e ≡ b'a') ⊎ (e ≡ b'v')) ⊎ (e ≡ b'\'')
      → runs State.string b st (escaped e ++ rest) ≡ runs State.string b st rest
  dropped e b rest h =
      run-accept u32_to_u8 to_int64 to_double (at d ss State.string b st)
        (at d ss State.escape b st) b'\\' (e ∷ rest) (unfold offer put_in in ground arith)
      ∙ run-accept u32_to_u8 to_int64 to_double (at d ss State.escape b st)
          (at d ss State.string b st) e rest (unfold offer put_in in ground arith)

  -- The code points 7, 11 and 39, an apostrophe, are written with an escape that the parser drops:
  -- they are missing from the text that is read back.
  run-print_code_dropped :
      (c : ℕ) (b rest : List ℕ)
      → ((c ≡ 7) ⊎ (c ≡ 11)) ⊎ (c ≡ b'\'')
      → runs State.string b st (print_code c ++ rest) ≡ runs State.string b st rest
  run-print_code_dropped c b rest (inl (inl e)) =
      rw e (unfold print_code in dropped b'a' b rest (inl (inl refl)))
  run-print_code_dropped c b rest (inl (inr e)) =
      rw e (unfold print_code in dropped b'v' b rest (inl (inr refl)))
  run-print_code_dropped c b rest (inr e) =
      rw e (unfold print_code in dropped b'\'' b rest (inr refl))

  print_wide : (c : ℕ) → 0x10000 ≤ c → print_code c ≡ escaped b'u' ++ pad_four (natural 16 c)
  unfolding print_code
  print_wide c h = ground arith

  four_value :
      (n : ℕ) → n < 65536 → n / 4096 * 4096 + n / 256 % 16 * 256 + n / 16 % 16 * 16 + n % 16 ≡ n
  four_value n h = omega arith

  digit_plain : (v : ℕ) → v < 16 → (digit v ≢ b'"') × (digit v ≢ b'\\')
  unfolding digit
  digit_plain v h = (ground arith, ground arith)

  -- A code point of five hexadecimal digits is written with all five behind one `u`, and read back as
  -- two: the one with the first four digits, and the fifth digit.
  run-print_code_wide :
      (c : ℕ) (b rest : List ℕ)
      → 0x10000 ≤ c
      → c < 0x100000
      → runs State.string b st (print_code c ++ rest)
        ≡ runs State.string (b ++ c / 16 ∷ digit (c % 16) ∷ []) st rest
  run-print_code_wide c b rest h k =
      let n = c / 16 in
      let plain = digit_plain (c % 16) (omega arith) in
      rw (print_wide c h, pad_four-five c h k)
        (run-unicode u32_to_u8 to_int64 to_double d ss st b (digit (c % 16) ∷ rest) _ _ _ _
            (hex_digit-digit (n / 4096) (omega arith))
            (hex_digit-digit (n / 256 % 16) (omega arith))
            (hex_digit-digit (n / 16 % 16) (omega arith)) (hex_digit-digit (n % 16) (omega arith))
          ∙ rw (four_value n (omega arith)) (
              run_plain u32_to_u8 to_int64 to_double d ss st (digit (c % 16)) (b ++ n ∷ []) rest
                plain.0 plain.1
              ∙ rw append_assoc refl))

module _ (u32_to_u8 : List ℕ → Conversion) (to_int64 : List ℕ → Option Int64)
    (to_double : List ℕ → Option ℕ) (d st : List Value) where
  run-fault :
      (m : Parser.Machine) (c : ℕ) (rest : List ℕ) (fault : Fault)
      → offer u32_to_u8 to_int64 to_double m c ≡ err fault
      → run u32_to_u8 to_int64 to_double m (c ∷ rest) ≡ err fault
  unfolding run next_code_point offer_up_to
  run-fault m c rest fault e = rw e refl

  -- Where no container is open, a comma, a colon or a closing brace reads the top of an empty stack
  -- of states, whatever has been read before.
  run-mark_outside :
      (c : ℕ) (rest : List ℕ)
      → ((c ≡ b',') ⊎ (c ≡ b':')) ⊎ (c ≡ b'}')
      → run u32_to_u8 to_int64 to_double (at d [] State.start [] st) (c ∷ rest) ≡ err undefined
  run-mark_outside c rest h =
      run-fault (at d [] State.start [] st) c rest undefined
        (unfold offer put_in process_mark build_object in ground arith)
