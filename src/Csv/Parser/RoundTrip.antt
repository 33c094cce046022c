-- ===== src/Csv/Parser/RoundTrip.antt =====
-- A table that is written as quoted cells in UTF-8 is read back from its bytes.
use cyng.Base.{
  ℕ, List, [], ◌∷◌, ◌++◌, ◌≡◌, refl, ◌∙◌, inl, inr, some, arith, All, subst, length, ◌+◌, ◌<◌,
  All-append,
}
use mathlib.Core.Option.{some-injective}
use cyng.Base.Result.{ok}
use cyng.Utf8
use cyng.Utf8.{encode_all, state_after}
use cyng.Utf8.Encode.{encode_one}
use cyng.Utf8.RoundTrip.{
  Survives, sanitize-encode_all_from, encode_all-total, encode_all-append, encode_all_first,
  init-IsIdle,
}
use cyng.Csv.Tokenizer.{Conversion, widen}
use cyng.Csv.Parser.{Parser, init, read}
use cyng.Csv.Parser.Printed.{Line, printed, Converts, texts, IsSeparator, run-printed_newline}
use cyng.Csv.Parser.Bytes.{with_bytes, StartsNoMark, read-run}

starts :
    (sep : ℕ) (table : List Line) (bs : List ℕ)
    → encode_all (printed sep table) ≡ some bs
    → StartsNoMark 0 bs
unfolding encode_all
starts sep [] bs e = subst (StartsNoMark 0) (some-injective [] bs e) tt
starts sep ((f, fs) ∷ table) bs e =
    let (r, first) = encode_all_first b'"' _ bs (omega arith) e in rw first (inr (omega arith))

-- A separator of ASCII is compared as it is.
widen_ascii : (sep : ℕ) → sep < 128 → widen sep ≡ sep
unfolding widen
widen_ascii sep h = ground arith

read-printed_code :
    (u32_to_u8 : List ℕ → Conversion) (text : List ℕ → List ℕ) (sep : ℕ) (table : List Line)
    → IsSeparator (widen sep)
    → Converts u32_to_u8 text table
    → All Survives (printed (widen sep) table)
    → (bs : List ℕ) × (encode_all (printed (widen sep) table) ≡ some bs)
      × ((q : Parser) × (read u32_to_u8 (init sep) bs ≡ ok q) × (q.lines ≡ texts text table))
read-printed_code u32_to_u8 text sep table h all survive =
    let (bs, e) = encode_all-total (printed (widen sep) table) survive in
    let newline : encode_all (b'\n' ∷ []) ≡ some (b'\n' ∷ []) =
      unfold encode_all in rw (encode_one b'\n' (omega arith)) in
    let whole =
      encode_all-append (printed (widen sep) table) (b'\n' ∷ []) bs (b'\n' ∷ []) e newline in
    let decoded =
      sanitize-encode_all_from (printed (widen sep) table ++ b'\n' ∷ []) (bs ++ b'\n' ∷ [])
        Utf8.init init-IsIdle
        (All-append Survives (printed (widen sep) table) (b'\n' ∷ []) survive
          ((omega arith, inl (omega arith)), tt))
        whole in
    let (q, runs, lines) =
      run-printed_newline u32_to_u8 text (init sep) table
        (record { between = inl refl; no_buffer = refl; no_stack = refl; separates = h }) all in
    (
      bs,
      e,
      (
        with_bytes q (state_after Utf8.init (bs ++ b'\n' ∷ [])) (0 + length bs),
        read-run u32_to_u8 (init sep) bs (starts (widen sep) table bs e) ∙ rw (decoded, runs),
        lines,
      ),
    )

-- Let a table of lines, each with at least one cell, be written with every cell in quotes, as UTF-8.
-- The reader delivers its lines in order, each with the texts of its cells; if the separator is an
-- ASCII character, below 128, that is neither a quote nor a newline, no conversion of a cell throws,
-- and every code point written is one that the decoder reads back.
pub read-printed :
    (u32_to_u8 : List ℕ → Conversion) (text : List ℕ → List ℕ) (sep : ℕ) (table : List Line)
    → sep < 128
    → IsSeparator sep
    → Converts u32_to_u8 text table
    → All Survives (printed sep table)
    → (bs : List ℕ) × (encode_all (printed sep table) ≡ some bs)
      × ((q : Parser) × (read u32_to_u8 (init sep) bs ≡ ok q) × (q.lines ≡ texts text table))
read-printed u32_to_u8 text sep table ascii h all survive =
    subst
      (λ c.
        (bs : List ℕ) × (encode_all (printed c table) ≡ some bs)
        × ((q : Parser) × (read u32_to_u8 (init sep) bs ≡ ok q) × (q.lines ≡ texts text table)))
      (widen_ascii sep ascii)
      (read-printed_code u32_to_u8 text sep table (rw (widen_ascii sep ascii) h) all
        (rw (widen_ascii sep ascii) survive))
