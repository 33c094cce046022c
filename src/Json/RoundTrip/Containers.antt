-- ===== src/Json/RoundTrip/Containers.antt =====
-- What is printed for a vector or a map of parameters, read back.
use cyng.Base.{
  ℕ, List, [], ◌∷◌, ◌++◌, ◌≡◌, refl, ◌∙◌, Option, true, arith, All, All-append, append-nil,
  append_assoc,
}
use cyng.Base.Result.{Result, ok}
use cyng.Csv.Tokenizer.{Conversion}
use cyng.Json.Value.{
  Int64, Value, text, param, vector, param_map, eod, Values, nil, cons, Fields, end, field,
}
use cyng.Json.Tokenizer.{State, is_mark}
use cyng.Json.Parser
use cyng.Json.Parser.{Machine, build_array, build_member, build_object, leave, process_mark}
use cyng.Json.Parser.Run.{at, run, open_text, close_text, run_plain, skip_space, run_mark}
use cyng.Json.Parser.Containers.{
  push_values, push_fields, AreElements, AreSorted, build_array-push, build_member-push,
}
use cyng.Json.Print.{print, print_elements, print_fields, print_key}
use cyng.Json.Printable.{IsAscii, Encodes, IsKeyChar, encode_all-ascii}
use cyng.Json.RoundTrip.Scalars.{Reads}

keys-IsAscii : (k : List ℕ) → All IsKeyChar k → All IsAscii k
keys-IsAscii [] h = tt
keys-IsAscii (c ∷ k) h = (h.0.0, keys-IsAscii k h.1)

print_key-IsAscii : (k : List ℕ) → All IsKeyChar k → All IsAscii (print_key k)
unfolding print_key
print_key-IsAscii k h =
    (omega arith, All-append IsAscii k (b'"' ∷ b':' ∷ []) (keys-IsAscii k h) (omega arith))

module _ (u32_to_u8 : List ℕ → Conversion) (to_int64 : List ℕ → Option Int64)
    (to_double : List ℕ → Option ℕ) (print_double : ℕ → List ℕ) where
  abbrev runs : Machine → List ℕ → Result Machine
  runs = run u32_to_u8 to_int64 to_double

  abbrev pub ReadsValue : Value → Type 0
  ReadsValue = Reads u32_to_u8 to_int64 to_double print_double

  -- What stands behind the first element of a vector ends the vector.
  pub record ReadsElements (vs : Values) : Type 0 where
    pub first : ℕ
    pub tail : List ℕ
    pub printed : print_elements print_double vs ≡ ok (first ∷ tail)
    pub low : All IsAscii (first ∷ tail)
    pub mark : is_mark first ≡ true
    pub elements : AreElements vs
    pub reads :
        (d st : List Value) (ss : List Parser.State) (rest : List ℕ) (n : Machine)
        → let ss' = Parser.State.array ∷ ss in
          build_array (at d ss' State.start [] (push_values vs st)) ≡ ok n
          → runs (at d ss' State.start [] st) (first ∷ (tail ++ rest)) ≡ runs n rest

  -- A parameter that is complete on the stack, behind a value and its name.
  pub record ReadsFields (fs : Fields) : Type 0 where
    pub first : ℕ
    pub tail : List ℕ
    pub printed : print_fields print_double fs ≡ ok (first ∷ tail)
    pub low : All IsAscii (first ∷ tail)
    pub mark : is_mark first ≡ true
    pub reads :
        (d st : List Value) (x v : Value) (k : List ℕ) (ss : List Parser.State) (rest : List ℕ)
        (n : Machine)
        → build_member
            (at d (Parser.State.object ∷ ss) State.start [] (push_fields fs (param k v ∷ x ∷ st)))
          ≡ ok n
        → runs
            (at d (Parser.State.value ∷ ss) State.start [] (v ∷ text k ∷ x ∷ st))
            (first ∷ (tail ++ rest))
          ≡ runs n rest

  pub ReadsElements-nil : ReadsElements nil
  ReadsElements-nil = record {
    first = b']';
    tail = [];
    low = (omega arith);
    printed = unfold print_elements in refl;
    mark = refl;
    elements = tt;
    reads = λ d st ss rest n e.
        run_mark u32_to_u8 to_int64 to_double d (Parser.State.array ∷ ss) st b']' n rest refl
          (unfold process_mark push_values in e);
  }

  pub ReadsElements-cons :
      (v : Value) (vs : Values) → ReadsValue v → ReadsElements vs → ReadsElements (cons v vs)
  ReadsElements-cons v vs h k = record {
    first = b',';
    tail = b' ' ∷ (h.written ++ k.first ∷ k.tail);
    low = (omega arith, (omega arith, All-append IsAscii h.written (k.first ∷ k.tail) h.low k.low));
    printed = unfold print_elements in rw (h.printed, k.printed, h.bare h.written) refl;
    mark = refl;
    elements = (h.element, k.elements);
    reads = λ d st ss rest n e.
        let ss' = Parser.State.array ∷ ss in
        run_mark u32_to_u8 to_int64 to_double d ss' st b',' (at d ss' State.start [] st) _ refl
          (unfold process_mark build_object in refl)
        ∙ skip_space u32_to_u8 to_int64 to_double d ss' st _
        ∙ rw append_assoc (h.reads d st Parser.State.array ss k.first (k.tail ++ rest) k.mark)
        ∙ k.reads d (v ∷ st) ss rest n (unfold push_values in e);
  }

  -- A vector is read up to its last bracket, whatever is left of it then.
  pub run-vector :
      (v : Value) (vs : Values)
      → ReadsValue v
      → ReadsElements vs
      → (written : List ℕ) × (print print_double (vector (cons v vs)) ≡ ok written)
        × All IsAscii written
        × ((d st : List Value) (ss : List Parser.State) (rest : List ℕ) (n : Machine)
            → leave
                (Parser.State.array ∷ ss)
                (at d (Parser.State.array ∷ ss) State.start [] (vector (cons v vs) ∷ st))
              ≡ ok n
            → runs (at d ss State.start [] st) (written ++ rest) ≡ runs n rest)
  unfolding push_values
  run-vector v vs h k = (
    b'[' ∷ (h.written ++ k.first ∷ k.tail),
    unfold print in rw (h.printed, k.printed, h.bare h.written) refl,
    (omega arith, All-append IsAscii h.written (k.first ∷ k.tail) h.low k.low),
    λ d st ss rest n e.
        let ss' = Parser.State.array ∷ ss in
        run_mark u32_to_u8 to_int64 to_double d ss st b'[' (at d ss' State.start [] (eod ∷ st)) _
          refl (unfold process_mark in refl)
        ∙ rw append_assoc
            (h.reads d (eod ∷ st) Parser.State.array ss k.first (k.tail ++ rest) k.mark)
        ∙ k.reads d (v ∷ eod ∷ st) ss rest n
            (build_array-push d ss' st (cons v vs) (h.element, k.elements) ∙ e),
  )

  module _ (encodes : Encodes u32_to_u8) where
    run-key :
        (k b rest : List ℕ) (d st : List Value) (ss : List Parser.State)
        → All IsKeyChar k
        → runs (at d ss State.string b st) (k ++ rest)
          ≡ runs (at d ss State.string (b ++ k) st) rest
    run-key [] b rest d st ss h = rw append-nil
    run-key (c ∷ k) b rest d st ss h =
        run_plain u32_to_u8 to_int64 to_double d ss st c b (k ++ rest) h.0.1 h.0.2
        ∙ run-key k (b ++ c ∷ []) rest d st ss h.1
        ∙ rw append_assoc

    -- A name and its colon.
    run-print_key :
        (k rest : List ℕ) (d st : List Value) (ss : List Parser.State)
        → All IsKeyChar k
        → runs (at d (Parser.State.object ∷ ss) State.start [] st) (print_key k ++ rest)
          ≡ runs (at d (Parser.State.value ∷ ss) State.start [] (text k ∷ st)) rest
    unfolding print_key
    run-print_key k rest d st ss h =
        let ss' = Parser.State.object ∷ ss in
        let (e, s) = encode_all-ascii k (keys-IsAscii k h) in
        open_text u32_to_u8 to_int64 to_double d ss' st _
        ∙ rw append_assoc (run-key k [] (b'"' ∷ b':' ∷ rest) d st ss' h)
        ∙ close_text u32_to_u8 to_int64 to_double d ss' st k k (b':' ∷ rest) (encodes k k s e)
        ∙ run_mark u32_to_u8 to_int64 to_double d ss' (text k ∷ st) b':'
            (at d (Parser.State.value ∷ ss) State.start [] (text k ∷ st)) rest refl
            (unfold process_mark in refl)

    -- The name and the value of a parameter become the parameter at the next comma or brace.
    build_object-param :
        (d st : List Value) (x v : Value) (k : List ℕ) (ss : List Parser.State)
        → build_object (at d (Parser.State.value ∷ ss) State.start [] (v ∷ text k ∷ x ∷ st))
          ≡ ok (at d (Parser.State.object ∷ ss) State.start [] (param k v ∷ x ∷ st))
    unfolding build_object
    build_object-param d st x v k ss = ground arith

    pub ReadsFields-end : ReadsFields end
    ReadsFields-end = record {
      first = b'}';
      tail = [];
      low = (omega arith);
      printed = unfold print_fields in refl;
      mark = refl;
      reads = λ d st x v k ss rest n e.
          run_mark u32_to_u8 to_int64 to_double d (Parser.State.value ∷ ss) (v ∷ text k ∷ x ∷ st)
            b'}' n rest refl
            (unfold process_mark push_fields in rw (build_object-param d st x v k ss) e);
    }

    pub ReadsFields-field :
        (k : List ℕ) (v : Value) (fs : Fields)
        → All IsKeyChar k
        → ReadsValue v
        → ReadsFields fs
        → ReadsFields (field k v fs)
    ReadsFields-field k v fs key h more = record {
      first = b',';
      tail = print_key k ++ (h.written ++ more.first ∷ more.tail);
      low = (
        omega arith,
        All-append IsAscii (print_key k) (h.written ++ more.first ∷ more.tail)
            (print_key-IsAscii k key)
            (All-append IsAscii h.written (more.first ∷ more.tail) h.low more.low),
      );
      printed = unfold print_fields in rw (h.printed, more.printed) refl;
      mark = refl;
      reads = λ d st x v' k' ss rest n e.
          run_mark u32_to_u8 to_int64 to_double d (Parser.State.value ∷ ss) (v' ∷ text k' ∷ x ∷ st)
            b',' (at d (Parser.State.object ∷ ss) State.start [] (param k' v' ∷ x ∷ st)) _ refl
            (unfold process_mark in build_object-param d st x v' k' ss)
          ∙ rw (append_assoc, append_assoc)
              (run-print_key k (h.written ++ more.first ∷ (more.tail ++ rest)) d
                (param k' v' ∷ x ∷ st) ss key)
          ∙ h.reads d (text k ∷ param k' v' ∷ x ∷ st) Parser.State.value ss more.first
              (more.tail ++ rest) more.mark
          ∙ more.reads d (x ∷ st) (param k' v') v k ss rest n (unfold push_fields in e);
    }

    -- A map is read up to its last brace, whatever is left of it then.
    pub run-param_map :
        (k : List ℕ) (v : Value) (fs : Fields)
        → All IsKeyChar k
        → ReadsValue v
        → ReadsFields fs
        → AreSorted (field k v fs)
        → (written : List ℕ) × (print print_double (param_map (field k v fs)) ≡ ok written)
          × All IsAscii written
          × ((d st : List Value) (ss : List Parser.State) (rest : List ℕ) (n : Machine)
              → leave
                  (Parser.State.object ∷ ss)
                  (at d (Parser.State.object ∷ ss) State.start [] (param_map (field k v fs) ∷ st))
                ≡ ok n
              → runs (at d ss State.start [] st) (written ++ rest) ≡ runs n rest)
    unfolding push_fields
    run-param_map k v fs key h more sorted = (
      b'{' ∷ (print_key k ++ (h.written ++ more.first ∷ more.tail)),
      unfold print in rw (h.printed, more.printed) refl,
      (
        omega arith,
        All-append IsAscii (print_key k) (h.written ++ more.first ∷ more.tail)
            (print_key-IsAscii k key)
            (All-append IsAscii h.written (more.first ∷ more.tail) h.low more.low),
      ),
      λ d st ss rest n e.
          let ss' = Parser.State.object ∷ ss in
          run_mark u32_to_u8 to_int64 to_double d ss st b'{' (at d ss' State.start [] (eod ∷ st)) _
            refl (unfold process_mark in refl)
          ∙ rw (append_assoc, append_assoc)
              (run-print_key k (h.written ++ more.first ∷ (more.tail ++ rest)) d (eod ∷ st) ss key)
          ∙ h.reads d (text k ∷ eod ∷ st) Parser.State.value ss more.first (more.tail ++ rest)
              more.mark
          ∙ more.reads d st eod v k ss rest n
              (build_member-push d ss' st (field k v fs) sorted ∙ e),
    )
