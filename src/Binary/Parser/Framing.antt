-- ===== src/Binary/Parser/Framing.antt =====
-- The parser on what is written as type, length and value.
use cyng.Base.{
  ℕ, suc, ◌+◌, ◌-◌, ◌%◌, ◌^◌, ◌<◌, List, [], ◌∷◌, ◌++◌, ◌≡◌, ◌≢◌, refl, sym, ap, ◌∙◌, true, false,
  arith, ltb, ◌==◌, if◌then◌else◌, length, length-append, append_assoc,
}
use native.Mathlib.Decide.{dec_lt}
use cyng.Base.Result.{Result, ok, ◌>>=◌}
use cyng.Vm.Value.{Value}
use cyng.Binary.Number.{to_buffer, length-to_buffer}
use cyng.Binary.Parser.{
  Parser, State, deserialize, deliver, put_length, put_value, put_in, read, length_of,
  size_of_length_field, set_length,
}
use cyng.Binary.Parser.Length.{
  serialize_length-one, serialize_length-three, serialize_length-nine, size_of_length_field-one,
  length_of-one, length_of-three, length_of-nine,
}
use cyng.Binary.Serializer.{serialize_length, serialize_tlv}

-- A parser with its fields.
abbrev pub at : List Value → State → List ℕ → ℕ → ℕ → Parser
at delivered s buffer tag n = record {
  state = s;
  buffer = buffer;
  type = tag;
  length = n;
  delivered = delivered;
}

module _ (make_foreign : ℕ → List ℕ → Result Value) where
  abbrev reads : Parser → List ℕ → Result Parser
  reads = read make_foreign

  module _ (d : List Value) where
    read_type :
        (tag old n : ℕ) (rest : List ℕ)
        → tag < 65536
        → reads (at d State.type [] old n) (to_buffer 2 tag ++ rest)
          ≡ reads (at d State.length [] tag 0) rest
    unfolding read put_in to_buffer
    read_type tag old n rest h = ap (λ t. reads (at d State.length [] t 0) rest) (omega arith)

    value_more :
        (buffer : List ℕ) (tag c n : ℕ)
        → suc (suc n) < 2 ^ 63
        → put_value make_foreign (at d State.value buffer tag (suc (suc n))) c
          ≡ ok (at d State.value (buffer ++ c ∷ []) tag (suc n))
    unfolding put_value
    value_more buffer tag c n h =
        let fewer : (suc (suc n) + 2 ^ 64 - 1) % 2 ^ 64 ≡ suc n = omega arith in
        let open_value : (suc n == 0) ≡ false = ground arith in rw (fewer, open_value) refl

    -- The rest of a value, up to its last byte.
    read_value :
        (cs buffer rest : List ℕ) (tag c : ℕ) {v : Value}
        → length (c ∷ cs) < 2 ^ 63
        → deserialize make_foreign tag (buffer ++ c ∷ cs) ≡ ok v
        → reads (at d State.value buffer tag (length (c ∷ cs))) (c ∷ (cs ++ rest))
          ≡ reads (at (d ++ v ∷ []) State.type [] tag 0) rest
    unfolding read put_in
    read_value [] buffer rest tag c h e = rw e refl
    read_value (c' ∷ cs) buffer rest tag c h e = rw (value_more buffer tag c (length cs) h) (
        read_value cs (buffer ++ c ∷ []) rest tag c' (omega arith)
          (rw (sym (append_assoc buffer (c ∷ []) (c' ∷ cs))) at e))

    -- The parser behind a length field.
    abbrev measured : ℕ → ℕ → List ℕ → List ℕ → Result Parser
    measured size tag buffer rest =
        set_length size (at d State.length buffer tag 0)
        >>= (λ q.
            if q.length == 0 then deliver make_foreign q else ok (record q { state = State.value }))
        >>= (λ q. reads q rest)

    field_more :
        (done : List ℕ) (tag first c : ℕ)
        → size_of_length_field first ≢ length (first ∷ (done ++ c ∷ []))
        → put_length make_foreign (at d State.length (first ∷ done) tag 0) c
          ≡ ok (at d State.length (first ∷ (done ++ c ∷ [])) tag 0)
    unfolding put_length
    field_more done tag first c h =
        let test : (size_of_length_field first == length (first ∷ (done ++ c ∷ []))) ≡ false =
          ground arith in
        rw test refl

    field_last :
        (done rest : List ℕ) (tag first c : ℕ)
        → size_of_length_field first ≡ length (first ∷ (done ++ c ∷ []))
        → (put_length make_foreign (at d State.length (first ∷ done) tag 0) c >>= λ q. reads q rest)
          ≡ measured (size_of_length_field first) tag (first ∷ (done ++ c ∷ [])) rest
    unfolding put_length
    field_last done rest tag first c h =
        let test : (size_of_length_field first == length (first ∷ (done ++ c ∷ []))) ≡ true =
          ground arith in
        rw test refl

    read_field :
        (cs done rest : List ℕ) (tag first c : ℕ)
        → size_of_length_field first ≡ length (first ∷ (done ++ c ∷ cs))
        → reads (at d State.length (first ∷ done) tag 0) (c ∷ (cs ++ rest))
          ≡ measured (size_of_length_field first) tag (first ∷ (done ++ c ∷ cs)) rest
    unfolding read put_in
    read_field [] done rest tag first c e = field_last done rest tag first c e
    read_field (c' ∷ cs) done rest tag first c e =
        rw
          (field_more done tag first c
            (omega (arith, length-append done (c ∷ []), length-append done (c ∷ c' ∷ cs))))
          (rw (append_assoc done (c ∷ []) (c' ∷ cs)) at (
            read_field cs (done ++ c ∷ []) rest tag first c' (
              omega (
                arith,
                length-append (done ++ c ∷ []) (c' ∷ cs),
                length-append done (c ∷ []),
                length-append done (c ∷ c' ∷ cs),
              ))))

    measured_ok :
        (size n tag : ℕ) (buffer rest : List ℕ)
        → length_of size buffer ≡ n
        → n < 2 ^ 63
        → measured size tag buffer rest ≡ (
            (if n == 0
              then deliver make_foreign (at d State.length [] tag n)
              else ok (at d State.value [] tag n))
            >>= λ q. reads q rest)
    unfolding set_length
    measured_ok size n tag buffer rest e h =
        let test : ltb n (2 ^ 63) ≡ true = ground arith in rw (e, test) refl

    single_field :
        (rest : List ℕ) (tag first : ℕ)
        → size_of_length_field first ≡ 1
        → reads (at d State.length [] tag 0) (first ∷ rest) ≡ measured 1 tag (first ∷ []) rest
    unfolding read put_in put_length
    single_field rest tag first h = rw h refl

    long_field :
        (cs rest : List ℕ) (tag first : ℕ)
        → 0 < length cs
        → size_of_length_field first ≡ suc (length cs)
        → reads (at d State.length [] tag 0) (first ∷ (cs ++ rest))
          ≡ measured (size_of_length_field first) tag (first ∷ cs) rest
    long_field [] rest tag first h e = elim h [ ]
    long_field (c ∷ cs) rest tag first h e =
        let test : (size_of_length_field first == 1) ≡ false = ground arith in
        let begun : put_length make_foreign (at d State.length [] tag 0) first
            ≡ ok (at d State.length (first ∷ []) tag 0) =
          unfold put_length in rw test refl in
        begin_field (first ∷ []) (c ∷ (cs ++ rest)) tag first begun
        ∙ read_field cs [] rest tag first c e
      where
        begin_field :
            (buffer rest : List ℕ) (tag first : ℕ)
            → put_length make_foreign (at d State.length [] tag 0) first
              ≡ ok (at d State.length buffer tag 0)
            → reads (at d State.length [] tag 0) (first ∷ rest)
              ≡ reads (at d State.length buffer tag 0) rest
        begin_field buffer rest tag first e = unfold read put_in in rw e refl

    -- The length field, in each of its three forms.
    read_length :
        (n tag : ℕ) (rest : List ℕ)
        → n < 2 ^ 63
        → reads (at d State.length [] tag 0) (serialize_length n ++ rest) ≡ (
            (if n == 0
              then deliver make_foreign (at d State.length [] tag n)
              else ok (at d State.value [] tag n))
            >>= λ q. reads q rest)
    unfolding size_of_length_field
    read_length n tag rest h = elim (dec_lt n 0x7e) [
      | yes one ↦ rw (serialize_length-one n one) (
          single_field rest tag n (size_of_length_field-one n one)
          ∙ measured_ok 1 n tag (n ∷ []) rest (length_of-one n one) h)
      | no more ↦ elim (dec_lt n 0xFFFF) [
        | yes three ↦ rw (serialize_length-three n (omega arith) three) (
            long_field (to_buffer 2 n) rest tag 0x7e (rw (length-to_buffer 2 n) (omega arith))
              (rw (length-to_buffer 2 n) (unfold size_of_length_field in refl))
            ∙ measured_ok 3 n tag (0x7e ∷ to_buffer 2 n) rest (length_of-three n three) h)
        | no nine ↦ rw (serialize_length-nine n (omega arith)) (
            long_field (to_buffer 8 n) rest tag 0x7f (rw (length-to_buffer 8 n) (omega arith))
              (rw (length-to_buffer 8 n) (unfold size_of_length_field in refl))
            ∙ measured_ok 9 n tag (0x7f ∷ to_buffer 8 n) rest (length_of-nine n h) h)
      ]
    ]

    -- An object that is written as type, length and value is read as what the parser makes of its tag
    -- and its bytes, and the parser is between two objects again, whichever of the three forms its
    -- length has.
    pub read-serialize_tlv :
        (tag old n : ℕ) (bytes rest : List ℕ) (v : Value)
        → tag < 65536
        → length bytes < 2 ^ 63
        → deserialize make_foreign tag bytes ≡ ok v
        → read make_foreign (at d State.type [] old n) (serialize_tlv tag bytes ++ rest)
          ≡ read make_foreign (at (d ++ v ∷ []) State.type [] tag 0) rest
    unfolding serialize_tlv
    read-serialize_tlv tag old n [] rest v h k e =
        rw
          (
            append_assoc (to_buffer 2 tag) (serialize_length 0 ++ []) rest,
            append_assoc (serialize_length 0) [] rest,
          )
          (read_type tag old n (serialize_length 0 ++ rest) h
            ∙ read_length 0 tag rest (omega arith)
            ∙ unfold deliver in rw e refl)
    read-serialize_tlv tag old n (c ∷ cs) rest v h k e =
        let some_bytes : (length (c ∷ cs) == 0) ≡ false = ground arith in
        rw
          (
            append_assoc (to_buffer 2 tag) (serialize_length (length (c ∷ cs)) ++ c ∷ cs) rest,
            append_assoc (serialize_length (length (c ∷ cs))) (c ∷ cs) rest,
          )
          (read_type tag old n (serialize_length (length (c ∷ cs)) ++ (c ∷ (cs ++ rest))) h
            ∙ read_length (length (c ∷ cs)) tag (c ∷ (cs ++ rest)) k
            ∙ rw some_bytes (read_value cs [] rest tag c k e))
