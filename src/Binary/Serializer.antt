-- ===== src/Binary/Serializer.antt =====
-- src/io/src/serializer/binary.cpp: what the serializer writes for an object. An object of another type is
-- known by its binary form.
use cyng.Base.{ℕ, List, [], ◌∷◌, ◌++◌, ltb, if◌then◌else◌, length}
use cyng.Vm.Value.{
  Op, Value, size_value, text_value, op_value, attr_value, param_value, tuple_value, vector_value,
  deque_value, other_value, Values, nil, cons, to_list,
}
use cyng.Binary.Number.{to_buffer}
use cyng.Binary.Tag.{tc_uint64, tc_string, tc_op, op_code}

unfoldable pub serialize_length : ℕ → List ℕ
unfolding to_buffer
serialize_length size =
    if ltb size 0x7e
    then to_buffer 1 size
    else if ltb size 0xFFFF
    then 0x7e ∷ to_buffer 2 size
    else 0x7f ∷ to_buffer 8 size

-- Type, length and value.
unfoldable pub serialize_tlv : ℕ → List ℕ → List ℕ
unfolding to_buffer serialize_length
serialize_tlv tag bytes = to_buffer 2 tag ++ (serialize_length (length bytes) ++ bytes)

-- `make_object(n)` for a `std::size_t`, and `make_object(op)`.
unfoldable pub serialize_size : ℕ → List ℕ
unfolding serialize_tlv
serialize_size n = serialize_tlv tc_uint64 (to_buffer 8 n)

unfoldable pub serialize_op : Op → List ℕ
unfolding serialize_tlv op_code
serialize_op code = serialize_tlv tc_op (to_buffer 2 (op_code code))

-- The value is written first.
unfoldable pub serialize_attr : ℕ → List ℕ → List ℕ
unfolding serialize_size serialize_op
serialize_attr idx value = value ++ (serialize_size idx ++ serialize_op Op.make_attr)

unfoldable pub serialize_param : List ℕ → List ℕ → List ℕ
unfolding serialize_tlv serialize_op
serialize_param key value = value ++ (serialize_tlv tc_string key ++ serialize_op Op.make_param)

unfoldable mutual
  unfolding serialize_tlv serialize_size serialize_op serialize_attr serialize_param to_list

  pub serialize : Value → List ℕ
  serialize (size_value n) = serialize_size n
  serialize (text_value t) = serialize_tlv tc_string t
  serialize (op_value code) = serialize_op code
  serialize (attr_value idx v) = serialize_attr idx (serialize v)
  serialize (param_value key v) = serialize_param key (serialize v)
  serialize (tuple_value vs) =
      serialize_all vs ++ (serialize_size (length (to_list vs)) ++ serialize_op Op.make_tuple)
  serialize (vector_value vs) =
      serialize_all vs ++ (serialize_size (length (to_list vs)) ++ serialize_op Op.make_vector)
  serialize (deque_value vs) =
      serialize_all vs ++ (serialize_size (length (to_list vs)) ++ serialize_op Op.make_deque)
  serialize (other_value tag bytes) = serialize_tlv tag bytes

  pub serialize_all : Values → List ℕ
  serialize_all nil = []
  serialize_all (cons v vs) = serialize v ++ serialize_all vs
