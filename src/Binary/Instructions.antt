-- ===== src/Binary/Instructions.antt =====
-- The bytes of src/io/src/serializer/binary.cpp, read by src/io/src/parser/parser.cpp as instructions.
use cyng.Base.{
  ℕ, ◌<◌, ◌^◌, List, [], ◌∷◌, ◌++◌, ◌≡◌, refl, ap, ◌∙◌, inl, inr, true, false, arith, length,
  append-nil, append_assoc,
}
use cyng.Base.Result.{Result, ok}
use cyng.Vm.Value.{
  Op, Value, size_value, text_value, op_value, attr_value, param_value, tuple_value, vector_value,
  deque_value, other_value, Values, nil, cons,
}
use cyng.Binary.Number.{to_buffer, to_numeric, to_numeric-to_buffer}
use cyng.Binary.Tag.{tc_uint64, tc_string, tc_op, op_code, to_op, exact_size}
use cyng.Binary.Parser.{State, deserialize, make_object, is_refused, read}
use cyng.Binary.Parser.Framing.{at, read-serialize_tlv}
use cyng.Binary.Serializer.{
  serialize, serialize_all, serialize_tlv, serialize_size, serialize_op, serialize_attr,
  serialize_param,
}
use cyng.Binary.Data.{is_kept, IsBinary, IsData, AreData, program, program_all}

module _ (make_foreign : ℕ → List ℕ → Result Value) where
  deserialize-size :
      (n : ℕ) → n < 2 ^ 64 → deserialize make_foreign tc_uint64 (to_buffer 8 n) ≡ ok (size_value n)
  unfolding deserialize make_object exact_size to_numeric to_buffer
  deserialize-size n h = ap (λ k. ok (size_value k)) (to_numeric-to_buffer 8 n (omega arith))

  deserialize-op :
      (code : Op)
      → op_code code < 65536
      → to_op (op_code code) ≡ code
      → deserialize make_foreign tc_op (to_buffer 2 (op_code code)) ≡ ok (op_value code)
  unfolding deserialize make_object exact_size to_numeric to_buffer
  deserialize-op code h e =
      ap (λ k. ok (op_value (to_op k))) (to_numeric-to_buffer 2 (op_code code) (omega arith))
      ∙ ap (λ o. ok (op_value o)) e

  deserialize-text : (t : List ℕ) → deserialize make_foreign tc_string t ≡ ok (text_value t)
  unfolding deserialize make_object exact_size
  deserialize-text t = refl

  make_object-kept :
      (tag : ℕ) (bytes : List ℕ)
      → is_kept tag ≡ true
      → make_object make_foreign tag bytes ≡ ok (other_value tag bytes)
  unfolding make_object
  make_object-kept tag bytes h = ground arith

  kept-ne-refused : (tag : ℕ) → is_kept tag ≡ true → is_refused tag ≡ false
  kept-ne-refused tag h = ground arith

  deserialize-binary :
      (tag : ℕ) (bytes : List ℕ)
      → IsBinary tag bytes
      → deserialize make_foreign tag bytes ≡ ok (other_value tag bytes)
  unfolding deserialize
  deserialize-binary tag bytes (inl (kept, sized)) =
      rw (kept-ne-refused tag kept, sized, make_object-kept tag bytes kept) refl
  deserialize-binary tag bytes (inr (bool, inl zero)) =
      rw (bool, zero) (unfold make_object exact_size in refl)
  deserialize-binary tag bytes (inr (bool, inr one)) =
      rw (bool, one) (unfold make_object exact_size in refl)

  -- Bytes that the parser reads as a sequence of objects.
  abbrev pub Reads : List ℕ → List Value → Type 0
  Reads bytes code =
      (d : List Value) (old n : ℕ) (rest : List ℕ)
      → (tag : ℕ) × (m : ℕ) × (read make_foreign (at d State.type [] old n) (bytes ++ rest)
          ≡ read make_foreign (at (d ++ code) State.type [] tag m) rest)

  Reads-append :
      (bs cs : List ℕ) (xs ys : List Value)
      → Reads bs xs
      → Reads cs ys
      → Reads (bs ++ cs) (xs ++ ys)
  Reads-append bs cs xs ys h k d old n rest =
      let (tag, m, e) = h d old n (cs ++ rest) in
      let (tag', m', f) = k (d ++ xs) tag m rest in
      (tag', m', rw (append_assoc bs cs rest) (e ∙ f ∙ rw (append_assoc d xs ys) refl))

  tlv-Reads :
      (tag : ℕ) (bytes : List ℕ) (v : Value)
      → tag < 65536
      → length bytes < 2 ^ 63
      → deserialize make_foreign tag bytes ≡ ok v
      → Reads (serialize_tlv tag bytes) (v ∷ [])
  tlv-Reads tag bytes v h k e d old n rest =
      (tag, 0, read-serialize_tlv make_foreign d tag old n bytes rest v h k e)

  size-Reads : (n : ℕ) → n < 2 ^ 64 → Reads (serialize_size n) (size_value n ∷ [])
  unfolding serialize_size
  size-Reads n h =
      tlv-Reads tc_uint64 (to_buffer 8 n) (size_value n) (omega arith) (omega arith)
        (deserialize-size n h)

  op-Reads :
      (code : Op)
      → op_code code < 65536
      → to_op (op_code code) ≡ code
      → Reads (serialize_op code) (op_value code ∷ [])
  unfolding serialize_op
  op-Reads code h e =
      tlv-Reads tc_op (to_buffer 2 (op_code code)) (op_value code) (omega arith) (omega arith)
        (deserialize-op code h e)

  -- The count of the elements, and the operation that builds the container.
  build-Reads :
      (n : ℕ) (code : Op)
      → n < 2 ^ 64
      → op_code code < 65536
      → to_op (op_code code) ≡ code
      → Reads (serialize_size n ++ serialize_op code) (size_value n ∷ op_value code ∷ [])
  build-Reads n code h k e =
      Reads-append (serialize_size n) (serialize_op code) (size_value n ∷ []) (op_value code ∷ [])
        (size-Reads n h) (op-Reads code k e)

  mutual
    unfolding serialize serialize_attr serialize_param program op_code to_op

    pub serialize-Reads : (v : Value) → IsData v → Reads (serialize v) (program v)
    serialize-Reads (size_value n) h = size-Reads n h
    serialize-Reads (text_value t) h =
        tlv-Reads tc_string t (text_value t) (omega arith) h (deserialize-text t)
    serialize-Reads (op_value code) h = absurd h
    serialize-Reads (attr_value idx v) h =
        Reads-append (serialize v) _ (program v) _ (serialize-Reads v h.1)
          (build-Reads idx Op.make_attr h.0 (omega arith) refl)
    serialize-Reads (param_value key v) h =
        Reads-append (serialize v) _ (program v) _ (serialize-Reads v h.1) (
          Reads-append (serialize_tlv tc_string key) (serialize_op Op.make_param)
            (text_value key ∷ []) _
            (tlv-Reads tc_string key (text_value key) (omega arith) h.0 (deserialize-text key))
            (op-Reads Op.make_param (omega arith) refl))
    serialize-Reads (tuple_value vs) h =
        Reads-append (serialize_all vs) _ (program_all vs) _ (serialize_all-Reads vs h.1)
          (build-Reads _ Op.make_tuple h.0 (omega arith) refl)
    serialize-Reads (vector_value vs) h =
        Reads-append (serialize_all vs) _ (program_all vs) _ (serialize_all-Reads vs h.1)
          (build-Reads _ Op.make_vector h.0 (omega arith) refl)
    serialize-Reads (deque_value vs) h =
        Reads-append (serialize_all vs) _ (program_all vs) _ (serialize_all-Reads vs h.1)
          (build-Reads _ Op.make_deque h.0 (omega arith) refl)
    serialize-Reads (other_value tag bytes) h =
        tlv-Reads tag bytes (other_value tag bytes) h.0 h.1 (deserialize-binary tag bytes h.2)

    serialize_all-Reads : (vs : Values) → AreData vs → Reads (serialize_all vs) (program_all vs)
    serialize_all-Reads nil h = λ d old n rest. (old, n, rw append-nil refl)
    serialize_all-Reads (cons v vs) h =
        Reads-append (serialize v) (serialize_all vs) (program v) (program_all vs)
          (serialize-Reads v h.0) (serialize_all-Reads vs h.1)
