-- ===== src/Json/Printable.antt =====
-- The objects that the serializer writes as a text from which the parser makes the same object, and
-- what is expected of the conversions of boost.
use cyng.Base.{
  ℕ, ◌≤◌, ◌<◌, ◌^◌, List, [], ◌∷◌, ◌≡◌, ◌≢◌, refl, ◌⊎◌, inl, Option, some, true, arith, All,
}
use cyng.Csv.Tokenizer.{Conversion, converted}
use cyng.Utf8.{encode_all}
use cyng.Utf8.Encode.{encode_one}
use cyng.Json.Value.{
  Int64, positive, negative, Value, null, bool, integer, real, text, param, vector, param_map, eod,
  Values, nil, cons, Fields, end, field, text_lt,
}
use cyng.Json.Print.{decimal}

abbrev pub IsAscii : ℕ → Type 0
IsAscii c = c < 0x80

-- A code point that is no surrogate.
abbrev pub IsScalar : ℕ → Type 0
IsScalar c = (c < 0xD800) ⊎ ((0xE000 ≤ c) × (c < 0x110000))

-- The iterator of boost writes a text as UTF-8.
abbrev pub Encodes : (List ℕ → Conversion) → Type 0
Encodes u32_to_u8 =
    (cs bs : List ℕ) → All IsScalar cs → encode_all cs ≡ some bs → u32_to_u8 cs ≡ converted bs

abbrev pub IsInt64 : Int64 → Type 0
IsInt64 (positive n) = n < 2 ^ 63
IsInt64 (negative n) = n < 2 ^ 63

-- The conversion of boost reads every number of 64 bits in decimal notation.
abbrev pub ReadsDecimal : (List ℕ → Option Int64) → Type 0
ReadsDecimal to_int64 = (n : Int64) → IsInt64 n → to_int64 (decimal n) ≡ some n

-- A code point that makes the trip: of at most four hexadecimal digits, none that the iterator of the
-- serializer misreads, no surrogate, and none of those that are written with an escape that the
-- parser does not know.
abbrev pub IsCode : ℕ → Type 0
IsCode c =
    ((c < 0x400) ⊎ ((0x800 ≤ c) × (c < 0xD800)) ⊎ ((0xE000 ≤ c) × (c < 0x10000)))
    × (c ≢ 7)
    × (c ≢ 11)
    × (c ≢ b'\'')

-- A character of a name, which is written as it is.
abbrev pub IsKeyChar : ℕ → Type 0
IsKeyChar c = (c < 0x80) × (c ≢ b'"') × (c ≢ b'\\')

-- The names stand in rising order.
abbrev pub Below : List ℕ → Fields → Type 0
Below k end = Unit
Below k (field j v fs) = text_lt k j ≡ true

abbrev pub IsNonzero : Int64 → Type 0
IsNonzero (positive n) = 0 < n
IsNonzero (negative n) = Unit

-- Texts of such code points, numbers but 0, and containers that are not empty.
abbrev mutual
  pub IsPrintable : Value → Type 0
  IsPrintable null = Unit
  IsPrintable (bool b) = Unit
  IsPrintable (integer n) = IsInt64 n × IsNonzero n
  IsPrintable (real x) = ⊥
  IsPrintable (text t) = (cs : List ℕ) × All IsCode cs × (encode_all cs ≡ some t)
  IsPrintable (param k v) = ⊥
  IsPrintable (vector nil) = ⊥
  IsPrintable (vector (cons v vs)) = IsPrintable v × ArePrintable vs
  IsPrintable (param_map end) = ⊥
  IsPrintable (param_map (field k v fs)) =
      All IsKeyChar k × IsPrintable v × Below k fs × AreParams fs
  IsPrintable eod = ⊥

  pub ArePrintable : Values → Type 0
  ArePrintable nil = Unit
  ArePrintable (cons v vs) = IsPrintable v × ArePrintable vs

  pub AreParams : Fields → Type 0
  AreParams end = Unit
  AreParams (field k v fs) = All IsKeyChar k × IsPrintable v × Below k fs × AreParams fs

-- A text of ASCII characters is its own UTF-8.
pub encode_all-ascii : (cs : List ℕ) → All IsAscii cs → (encode_all cs ≡ some cs) × All IsScalar cs
unfolding encode_all
encode_all-ascii [] h = (refl, tt)
encode_all-ascii (c ∷ cs) h =
    let (e, s) = encode_all-ascii cs h.1 in (rw (encode_one c h.0, e), (inl (omega arith), s))
