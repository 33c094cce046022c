-- ===== src/Csv/Tests.antt =====
-- The CSV reader at concrete texts. The iterator of boost is a function that converts what the
-- encoder writes, and throws an empty text otherwise.
use Prim.Native.Char.{code}
use Prim.Native.String.{String}
use cyng.Base.{ℕ, ◌+◌, ◌≡◌, refl, List, [], ◌∷◌, some, none, inl, inr, arith}
use cyng.Base.Result.{ok, ◌>>=◌}
use cyng.Utf8
use cyng.Utf8.{encode, encode_all, sanitize, state_after}
use cyng.Csv.Tokenizer.{
  widen, State, Tokenizer, Conversion, converted, thrown, put, put_in, find_last_of, ends_literal,
}
use cyng.Csv.Tokenizer.Validity.{GoesWell, put-GoesWell}
use cyng.Csv.Parser.{
  Parser, init, read, read_chars, read_char, end_bom, put_chars, put_char, offer, offer_up_to,
  next_code_point,
}
use cyng.Csv.Parser.Run.{at, finished, run}
use cyng.Csv.Parser.Progress.{}
use cyng.Csv.Parser.Printed.{printed, Line}
use cyng.Csv.Parser.Bytes.{with_bytes, read-run}
use cyng.Csv.Parser.RoundTrip.{read-printed}
use cyng.Csv.Parser.Literal.{run-words_joined}

abbrev codes : String → List ℕ
codes String.[] = []
codes (String.◌∷◌ c s) = code c ∷ codes s

abbrev u8 : List ℕ → Conversion
u8 cs = elim (encode_all cs) [ none ↦ thrown [] | some bs ↦ converted bs ]

abbrev text : List ℕ → List ℕ
text cs = elim (encode_all cs) [ none ↦ [] | some bs ↦ bs ]

read_lines :
    (p : Parser) × (read u8 (init b',') (codes "a,,\"b\\\"\"\n,c") ≡ ok p)
    × (p.lines ≡ (codes "a" ∷ [] ∷ codes "b\"" ∷ []) ∷ ([] ∷ codes "c" ∷ []) ∷ [])
unfolding read read_chars read_char end_bom put_chars put_char next_code_point offer_up_to offer
    put_in widen encode_all encode Utf8.put
read_lines = (_, refl, refl)

-- With a semicolon the cells of a line without quotes are not separated, and a last cell that is
-- empty is lost.
semicolon :
    (p : Parser) × (read u8 (init b';') (codes "a;b\n\"c\";\n") ≡ ok p)
    × (p.lines ≡ (codes "a;b" ∷ []) ∷ (codes "c" ∷ []) ∷ [])
unfolding read read_chars read_char end_bom put_chars put_char next_code_point offer_up_to offer
    put_in widen encode_all encode Utf8.put
semicolon = (_, refl, refl)

abbrev table : List Line
table = (codes "a;\"b", [] ∷ []) ∷ (codes "c\\", []) ∷ []

read-printed_example :
    (bs : List ℕ) × (encode_all (printed b';' table) ≡ some bs)
    × ((q : Parser) × (read u8 (init b';') bs ≡ ok q)
        × (q.lines ≡ (codes "a;\"b" ∷ [] ∷ []) ∷ (codes "c\\" ∷ []) ∷ []))
unfolding encode_all encode
read-printed_example =
    read-printed u8 text b';' table (omega arith)
      (record { ne_quote = omega arith; ne_newline = omega arith })
      ((refl, (refl, tt)), ((refl, tt), tt)) (omega arith)

read-run_example : read u8 (init b',') (codes "a") ≡ (
    run u8 (init b',') (sanitize Utf8.init (codes "a\n")) >>= λ q.
    ok (with_bytes q (state_after Utf8.init (codes "a\n")) (0 + 1)))
read-run_example = read-run u8 (init b',') (codes "a") (inr (omega arith))

abbrev in_unicode : Tokenizer
in_unicode = record { state = State.unicode; sep = b','; buffer = 1 ∷ codes "0" }

put-GoesWell_example : GoesWell (put u8 in_unicode b'1')
unfolding find_last_of
put-GoesWell_example = put-GoesWell u8 in_unicode b'1' (0, refl, omega arith) (λ e. cc)

run-words_joined_example :
    run u8 (at (init b';') State.start [] []) (codes "a;b\n")
    ≡ run u8 (at (finished (init b';') (codes "a;b" ∷ [])) State.eol [] []) []
unfolding ends_literal widen encode_all encode
run-words_joined_example =
    run-words_joined u8 text (init b';') State.start (b'a', []) (b'b', []) [] refl (inl refl)
      ((refl, omega arith, omega arith, omega arith), tt)
      ((refl, omega arith, omega arith, omega arith), tt) refl
