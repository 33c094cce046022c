-- ===== src/Json/RoundTrip.antt =====
-- A container that the serializer writes is read by the parser as the same container.
pub mod Scalars
pub mod Containers
use cyng.Base.{
  ℕ, List, [], ◌∷◌, ◌++◌, ◌≡◌, refl, ◌∙◌, Option, true, false, arith, All, All-append, append-nil,
  append_assoc, ap, ◌<◌, inr,
}
use cyng.Base.Result.{Result, ok, ◌>>=◌, >>=-eq-ok}
use cyng.Csv.Tokenizer.{Conversion}
use cyng.Json.Value.{
  Int64, Value, null, bool, integer, real, text, param, vector, param_map, eod, Values, nil, cons,
  Fields, end, field, is_eod,
}
use cyng.Json.Tokenizer.{State}
use cyng.Json.Parser
use cyng.Json.Parser.{Machine, Reader, leave, read, fresh}
use cyng.Json.Parser.Bytes.{read-run}
use cyng.Csv.Parser.Bytes.{StartsNoMark}
use cyng.Utf8
use cyng.Utf8.{U8ToU32, sanitize}
use cyng.Json.Parser.Run.{at, run}
use cyng.Json.Parser.Containers.{AreSorted}
use cyng.Json.Print.{print, in_braces}
use cyng.Json.Printable.{IsAscii, Encodes, ReadsDecimal, IsPrintable, ArePrintable, AreParams}
use cyng.Json.RoundTrip.Scalars.{
  Reads, Reads-null, Reads-true, Reads-false, Reads-integer, Reads-text,
}
use cyng.Json.RoundTrip.Containers.{
  ReadsElements, ReadsElements-nil, ReadsElements-cons, run-vector, ReadsFields, ReadsFields-end,
  ReadsFields-field, run-param_map,
}

params-AreSorted : (fs : Fields) → AreParams fs → AreSorted fs
params-AreSorted end h = tt
params-AreSorted (field k v fs) h = (h.2, params-AreSorted fs h.3)

abbrev pub IsContainer : Value → Type 0
IsContainer (vector vs) = Unit
IsContainer (param_map fs) = Unit
IsContainer _ = ⊥

-- The texts of several objects, one after the other.
unfoldable pub print_all : (ℕ → List ℕ) → List Value → Result (List ℕ)
print_all print_double [] = ok []
print_all print_double (v ∷ vs) = do
  cs ← print print_double v
  rest ← print_all print_double vs
  ok (cs ++ rest)

put-ascii :
    (s : U8ToU32) (c : ℕ) → s.size ≡ 0 → c < 0x80 → Utf8.put s c ≡ (record s { value = c }, c, true)
unfolding Utf8.put
put-ascii s c h k = ground arith

sanitize-ascii : (cs : List ℕ) (s : U8ToU32) → s.size ≡ 0 → All IsAscii cs → sanitize s cs ≡ cs
unfolding sanitize
sanitize-ascii [] s h k = refl
sanitize-ascii (c ∷ cs) s h k =
    rw (put-ascii s c h k.0) (ap (◌∷◌ c) (sanitize-ascii cs (record s { value = c }) h k.1))

ascii-StartsNoMark : (k : ℕ) (cs : List ℕ) → All IsAscii cs → StartsNoMark k cs
ascii-StartsNoMark k [] h = tt
ascii-StartsNoMark k (c ∷ cs) h = inr (omega arith)

module _ (u32_to_u8 : List ℕ → Conversion) (to_int64 : List ℕ → Option Int64)
    (to_double : List ℕ → Option ℕ) (print_double : ℕ → List ℕ) (encodes : Encodes u32_to_u8)
    (reads_decimal : ReadsDecimal to_int64) where
  abbrev runs : Machine → List ℕ → Result Machine
  runs = run u32_to_u8 to_int64 to_double

  -- Inside of another container, a container is left on the stack.
  vector-Reads :
      (v : Value) (vs : Values)
      → Reads u32_to_u8 to_int64 to_double print_double v
      → ReadsElements u32_to_u8 to_int64 to_double print_double vs
      → Reads u32_to_u8 to_int64 to_double print_double (vector (cons v vs))
  vector-Reads v vs h k =
      let (written, printed, low, reads) =
        run-vector u32_to_u8 to_int64 to_double print_double v vs h k in
      record {
        written = written;
        printed = printed;
        low = low;
        element = unfold is_eod in refl;
        bare = λ cs. unfold in_braces in refl;
        reads = λ d st s ss c rest mark.
            reads d st (s ∷ ss) (c ∷ rest) (at d (s ∷ ss) State.start [] (vector (cons v vs) ∷ st))
              (unfold leave in refl);
      }

  param_map-Reads :
      (k : List ℕ) (v : Value) (fs : Fields)
      → IsPrintable (param_map (field k v fs))
      → Reads u32_to_u8 to_int64 to_double print_double v
      → ReadsFields u32_to_u8 to_int64 to_double print_double fs
      → Reads u32_to_u8 to_int64 to_double print_double (param_map (field k v fs))
  param_map-Reads k v fs p h more =
      let (written, printed, low, reads) =
        run-param_map u32_to_u8 to_int64 to_double print_double encodes k v fs p.0 h more
          (params-AreSorted (field k v fs) p) in
      record {
        written = written;
        printed = printed;
        low = low;
        element = unfold is_eod in refl;
        bare = λ cs. unfold in_braces in refl;
        reads = λ d st s ss c rest mark.
            reads d st (s ∷ ss) (c ∷ rest)
              (at d (s ∷ ss) State.start [] (param_map (field k v fs) ∷ st)) (unfold leave in refl);
      }

  mutual
    pub value-Reads :
        (v : Value) → IsPrintable v → Reads u32_to_u8 to_int64 to_double print_double v
    value-Reads null h = Reads-null u32_to_u8 to_int64 to_double print_double encodes
    value-Reads (bool true) h = Reads-true u32_to_u8 to_int64 to_double print_double encodes
    value-Reads (bool false) h = Reads-false u32_to_u8 to_int64 to_double print_double encodes
    value-Reads (integer n) h =
        Reads-integer u32_to_u8 to_int64 to_double print_double encodes reads_decimal n h.0 h.1
    value-Reads (real x) h = absurd h
    value-Reads (text t) h =
        Reads-text u32_to_u8 to_int64 to_double print_double encodes t h.0 h.1 h.2
    value-Reads (param k v) h = absurd h
    value-Reads (vector nil) h = absurd h
    value-Reads (vector (cons v vs)) h =
        vector-Reads v vs (value-Reads v h.0) (values-ReadsElements vs h.1)
    value-Reads (param_map end) h = absurd h
    value-Reads (param_map (field k v fs)) h =
        param_map-Reads k v fs h (value-Reads v h.1) (fields-ReadsFields fs h.3)
    value-Reads eod h = absurd h

    values-ReadsElements :
        (vs : Values) → ArePrintable vs → ReadsElements u32_to_u8 to_int64 to_double print_double vs
    values-ReadsElements nil h = ReadsElements-nil u32_to_u8 to_int64 to_double print_double
    values-ReadsElements (cons v vs) h =
        ReadsElements-cons u32_to_u8 to_int64 to_double print_double v vs (value-Reads v h.0)
          (values-ReadsElements vs h.1)

    fields-ReadsFields :
        (fs : Fields) → AreParams fs → ReadsFields u32_to_u8 to_int64 to_double print_double fs
    fields-ReadsFields end h = ReadsFields-end u32_to_u8 to_int64 to_double print_double encodes
    fields-ReadsFields (field k v fs) h =
        ReadsFields-field u32_to_u8 to_int64 to_double print_double encodes k v fs h.0
          (value-Reads v h.1) (fields-ReadsFields fs h.3)

  -- Where nothing is open, a container is delivered.
  record IsDelivered (v : Value) : Type 0 where
    written : List ℕ
    printed : print print_double v ≡ ok written
    low : All IsAscii written
    delivers :
        (d : List Value) (rest : List ℕ)
        → runs (at d [] State.start [] []) (written ++ rest)
          ≡ runs (at (d ++ v ∷ []) [] State.start [] []) rest

  container-IsDelivered : (v : Value) → IsPrintable v → IsContainer v → IsDelivered v
  container-IsDelivered (vector nil) h k = absurd h
  container-IsDelivered (vector (cons v vs)) h k =
      let (written, printed, low, reads) =
        run-vector u32_to_u8 to_int64 to_double print_double v vs (value-Reads v h.0)
          (values-ReadsElements vs h.1) in
      record {
        written = written;
        printed = printed;
        low = low;
        delivers = λ d rest.
            reads d [] [] rest (at (d ++ vector (cons v vs) ∷ []) [] State.start [] [])
              (unfold leave in refl);
      }
  container-IsDelivered (param_map end) h k = absurd h
  container-IsDelivered (param_map (field k v fs)) h c =
      let (written, printed, low, reads) =
        run-param_map u32_to_u8 to_int64 to_double print_double encodes k v fs h.0
          (value-Reads v h.1) (fields-ReadsFields fs h.3) (params-AreSorted (field k v fs) h) in
      record {
        written = written;
        printed = printed;
        low = low;
        delivers = λ d rest.
            reads d [] [] rest (at (d ++ param_map (field k v fs) ∷ []) [] State.start [] [])
              (unfold leave in refl);
      }
  container-IsDelivered null h k = absurd k
  container-IsDelivered (bool b) h k = absurd k
  container-IsDelivered (integer n) h k = absurd k
  container-IsDelivered (real x) h k = absurd k
  container-IsDelivered (text t) h k = absurd k
  container-IsDelivered (param n v) h k = absurd k
  container-IsDelivered eod h k = absurd k

  All-IsDelivered :
      (vs d : List Value)
      → All (λ v. IsContainer v × IsPrintable v) vs
      → (bs : List ℕ) × (print_all print_double vs ≡ ok bs)
        × All IsAscii bs
        × (runs (at d [] State.start [] []) bs ≡ ok (at (d ++ vs) [] State.start [] []))
  unfolding print_all run
  All-IsDelivered [] d h = ([], refl, tt, rw append-nil refl)
  All-IsDelivered (v ∷ vs) d h =
      let w = container-IsDelivered v h.0.1 h.0.0 in
      let (bs, printed, low, runs_to) = All-IsDelivered vs (d ++ v ∷ []) h.1 in
      (
        w.written ++ bs,
        rw (w.printed, printed) refl,
        All-append IsAscii w.written bs w.low low,
        w.delivers d bs ∙ runs_to ∙ rw append_assoc refl,
      )

  -- Containers that are printed one after the other are read and delivered one after the other, each
  -- once, and the parser is between two objects again; if they are printable, and the conversions of
  -- boost write UTF-8 and read decimal numbers.
  pub read-print_all :
      (vs : List Value)
      → All (λ v. IsContainer v × IsPrintable v) vs
      → (bs : List ℕ) × (print_all print_double vs ≡ ok bs)
        × ((r : Reader) × (read u32_to_u8 to_int64 to_double fresh bs ≡ ok r)
            × (r.machine ≡ at vs [] State.start [] []))
  read-print_all vs h =
      let (bs, printed, low, runs_to) = All-IsDelivered vs [] h in
      let decoded = sanitize-ascii bs Utf8.init refl low in
      let whole =
        read-run u32_to_u8 to_int64 to_double bs fresh (ascii-StartsNoMark 0 bs low)
        ∙ ap (runs Parser.init) decoded
        ∙ runs_to in
      let (r, e, f) =
        >>=-eq-ok (read u32_to_u8 to_int64 to_double fresh bs) (λ r. ok r.machine) whole in
      (bs, printed, (r, e, cc))
