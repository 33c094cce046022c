-- ===== src/Json/RoundTrip/Scalars.antt =====
-- What is printed for a truth value, a number or a text, read back.
use cyng.Base.{
  ℕ, suc, ◌≤◌, List, [], ◌∷◌, ◌++◌, ◌≡◌, refl, ◌∙◌, ◌⊎◌, inl, inr, Option, some, true, false, arith,
  All, All-append, append_assoc,
}
use cyng.Base.Result.{ok}
use cyng.Csv.Tokenizer.{Conversion, converted}
use cyng.Utf8.{encode_all}
use cyng.Utf8.RoundTrip.{Survives}
use cyng.Json.Value.{Int64, positive, negative, Value, null, bool, integer, text, is_eod}
use cyng.Json.Tokenizer.{State, is_mark, null_text, true_text, false_text}
use cyng.Json.Parser
use cyng.Json.Parser.Run.{
  at, run, open_text, close_text, open_number, run_digits, close_number, run_null, run_true,
  run_false,
}
use cyng.Json.Parser.Text.{IsReadable, run-print_codes, print_codes-IsAscii}
use cyng.Json.Print.{decimal, print_codes, print_text, print, print_bool, in_braces}
use cyng.Json.Print.Digits.{IsDigit, decimal_parts}
use cyng.Json.Print.Iterator.{code_points-encode_all}
use cyng.Json.Printable.{
  IsAscii, Encodes, ReadsDecimal, IsInt64, IsNonzero, IsCode, IsScalar, encode_all-ascii,
}

codes-Survives : (cs : List ℕ) → All IsCode cs → All Survives cs
codes-Survives [] h = tt
codes-Survives (c ∷ cs) h = (ground arith, codes-Survives cs h.1)

codes-IsScalar : (cs : List ℕ) → All IsCode cs → All IsScalar cs
codes-IsScalar [] h = tt
codes-IsScalar (c ∷ cs) h = (ground arith, codes-IsScalar cs h.1)

codes-IsReadable : (cs : List ℕ) → All IsCode cs → All IsReadable cs
codes-IsReadable [] h = tt
codes-IsReadable (c ∷ cs) h = (ground arith, codes-IsReadable cs h.1)

digits-IsAscii : (cs : List ℕ) → All IsDigit cs → All IsAscii cs
digits-IsAscii [] h = tt
digits-IsAscii (c ∷ cs) h = (omega arith, digits-IsAscii cs h.1)

module _ (u32_to_u8 : List ℕ → Conversion) (to_int64 : List ℕ → Option Int64)
    (to_double : List ℕ → Option ℕ) (print_double : ℕ → List ℕ) where
  -- The printed object is read as the object, inside of a container and up to the mark behind it.
  pub record Reads (v : Value) : Type 0 where
    pub written : List ℕ
    pub printed : print print_double v ≡ ok written
    pub low : All IsAscii written
    pub element : is_eod v ≡ false
    pub bare : (cs : List ℕ) → in_braces v cs ≡ cs
    pub reads :
        (d st : List Value) (s : Parser.State) (ss : List Parser.State) (c : ℕ) (rest : List ℕ)
        → is_mark c ≡ true
        → run u32_to_u8 to_int64 to_double (at d (s ∷ ss) State.start [] st) (written ++ c ∷ rest)
          ≡ run u32_to_u8 to_int64 to_double (at d (s ∷ ss) State.start [] (v ∷ st)) (c ∷ rest)

  module _ (encodes : Encodes u32_to_u8) where
    ascii : (cs : List ℕ) → All IsAscii cs → u32_to_u8 cs ≡ converted cs
    ascii cs h = let (e, s) = encode_all-ascii cs h in encodes cs cs s e

    pub Reads-null : Reads null
    Reads-null = record {
      written = null_text;
      printed = unfold print in refl;
      low = (omega arith);
      element = unfold is_eod in refl;
      bare = λ cs. unfold in_braces in refl;
      reads = λ d st s ss c rest mark.
          run_null u32_to_u8 to_int64 to_double d (s ∷ ss) st c rest mark
            (ascii null_text (omega arith));
    }

    pub Reads-true : Reads (bool true)
    Reads-true = record {
      written = true_text;
      printed = unfold print print_bool in refl;
      low = (omega arith);
      element = unfold is_eod in refl;
      bare = λ cs. unfold in_braces in refl;
      reads = λ d st s ss c rest mark.
          run_true u32_to_u8 to_int64 to_double d (s ∷ ss) st c rest mark
            (ascii true_text (omega arith));
    }

    pub Reads-false : Reads (bool false)
    Reads-false = record {
      written = false_text;
      printed = unfold print print_bool in refl;
      low = (omega arith);
      element = unfold is_eod in refl;
      bare = λ cs. unfold in_braces in refl;
      reads = λ d st s ss c rest mark.
          run_false u32_to_u8 to_int64 to_double d (s ∷ ss) st c rest mark
            (ascii false_text (omega arith));
    }

    -- A first character, and digits behind it.
    run_number :
        (n : Int64) (first : ℕ) (ds : List ℕ)
        → (first ≡ b'-') ⊎ ((b'1' ≤ first) × (first ≤ b'9'))
        → All IsDigit ds
        → to_int64 (first ∷ ds) ≡ some n
        → (d st : List Value) (s : Parser.State) (ss : List Parser.State) (c : ℕ) (rest : List ℕ)
        → is_mark c ≡ true
        → run u32_to_u8 to_int64 to_double
            (at d (s ∷ ss) State.start [] st)
            (first ∷ (ds ++ c ∷ rest))
          ≡ run u32_to_u8 to_int64 to_double
              (at d (s ∷ ss) State.start [] (integer n ∷ st))
              (c ∷ rest)
    run_number n first ds h k e d st s ss c rest mark =
        open_number u32_to_u8 to_int64 to_double d (s ∷ ss) st first _ h
        ∙ run_digits u32_to_u8 to_int64 to_double d (s ∷ ss) st ds (first ∷ []) (c ∷ rest) k
        ∙ close_number u32_to_u8 to_int64 to_double d (s ∷ ss) st c (first ∷ ds) rest n mark
            (ascii (first ∷ ds) (ground arith, digits-IsAscii ds k)) e

    module _ (reads_decimal : ReadsDecimal to_int64) where
      abbrev IsNumeral : Int64 → ℕ → List ℕ → Type 0
      IsNumeral n first ds =
          (decimal n ≡ first ∷ ds)
          × ((first ≡ b'-') ⊎ ((b'1' ≤ first) × (first ≤ b'9')))
          × All IsDigit ds

      numeral : (n : Int64) → IsNonzero n → (first : ℕ) × (ds : List ℕ) × IsNumeral n first ds
      unfolding decimal
      numeral (positive n) h =
          let (c, cs, e, first, digits) = decimal_parts (suc n) n h (omega arith) in
          (c, cs, (e, inr first, digits))
      numeral (negative n) h =
          let (c, cs, e, first, digits) =
            decimal_parts (suc (suc n)) (suc n) (omega arith) (omega arith) in
          (b'-', c ∷ cs, (rw e refl, inl refl, ((omega arith, omega arith), digits)))

      pub Reads-integer : (n : Int64) → IsInt64 n → IsNonzero n → Reads (integer n)
      Reads-integer n h k =
          let (first, ds, (e, start, digits)) = numeral n k in
          record {
            written = first ∷ ds;
            printed = unfold print in rw e refl;
            low = (ground arith, digits-IsAscii ds digits);
            element = unfold is_eod in refl;
            bare = λ cs. unfold in_braces in refl;
            reads = run_number n first ds start digits (rw (← e) (reads_decimal n h));
          }

    pub Reads-text : (t cs : List ℕ) → All IsCode cs → encode_all cs ≡ some t → Reads (text t)
    Reads-text t cs h e = record {
      written = b'"' ∷ (print_codes cs ++ b'"' ∷ []);
      printed =
          unfold print print_text in rw (code_points-encode_all cs t (codes-Survives cs h) e) refl;
      low = (
        omega arith,
        All-append IsAscii (print_codes cs) (b'"' ∷ [])
            (print_codes-IsAscii cs (codes-IsReadable cs h)) (omega arith, tt),
      );
      element = unfold is_eod in refl;
      bare = λ cs. unfold in_braces in refl;
      reads = λ d st s ss c rest mark.
          open_text u32_to_u8 to_int64 to_double d (s ∷ ss) st _
          ∙ rw append_assoc (
              run-print_codes u32_to_u8 to_int64 to_double d (s ∷ ss) st cs [] (b'"' ∷ c ∷ rest)
                (codes-IsReadable cs h))
          ∙ close_text u32_to_u8 to_int64 to_double d (s ∷ ss) st cs t (c ∷ rest)
              (encodes cs t (codes-IsScalar cs h) e);
    }
