-- ===== src/Binary/Data.antt =====
-- The objects that include/cyng/io/serializer/binary.hpp writes, and the instructions that stand for
-- them.
use cyng.Base.{ℕ, ◌<◌, ◌^◌, Bool, List, [], ◌∷◌, ◌++◌, ◌≡◌, ◌⊎◌, true, not, ◌||◌, ◌==◌, length}
use cyng.Vm.Value.{
  Op, Value, size_value, text_value, op_value, attr_value, param_value, tuple_value, vector_value,
  deque_value, other_value, Values, nil, cons, to_list, of_list,
}
use cyng.Binary.Tag.{tc_bool, exact_size}
use cyng.Binary.Parser.{is_refused, is_foreign, has_size}

-- The types whose objects are made of exactly the bytes that are read.
abbrev pub is_kept : ℕ → Bool
is_kept tag = not (
    is_refused tag
    || is_foreign tag
    || tag == 1
    || tag == 9
    || tag == 14
    || tag == 24
    || tag == 25
    || tag == 26
    || tag == 32
    || tag == 35
    || tag == 44
    || tag == 56)

-- The binary form of a truth value, or of an object of another type, of its size.
abbrev pub IsBinary : ℕ → List ℕ → Type 0
IsBinary tag bytes =
    ((is_kept tag ≡ true) × (has_size (exact_size tag) bytes ≡ true))
    ⊎ ((tag ≡ tc_bool) × ((bytes ≡ 0 ∷ []) ⊎ (bytes ≡ 1 ∷ [])))

-- Objects without operation codes, of sizes that a computer can hold.
abbrev mutual
  pub IsData : Value → Type 0
  IsData (size_value n) = n < 2 ^ 64
  IsData (text_value t) = length t < 2 ^ 63
  IsData (op_value code) = ⊥
  IsData (attr_value idx v) = (idx < 2 ^ 64) × IsData v
  IsData (param_value key v) = (length key < 2 ^ 63) × IsData v
  IsData (tuple_value vs) = (length (to_list vs) < 2 ^ 64) × AreData vs
  IsData (vector_value vs) = (length (to_list vs) < 2 ^ 64) × AreData vs
  IsData (deque_value vs) = (length (to_list vs) < 2 ^ 64) × AreData vs
  IsData (other_value tag bytes) = (tag < 65536) × (length bytes < 2 ^ 63) × IsBinary tag bytes

  pub AreData : Values → Type 0
  AreData nil = Unit
  AreData (cons v vs) = IsData v × AreData vs

-- The elements of every container in reverse order.
unfoldable mutual
  unfolding to_list of_list

  pub mirror : Value → Value
  mirror (attr_value idx v) = attr_value idx (mirror v)
  mirror (param_value key v) = param_value key (mirror v)
  mirror (tuple_value vs) = tuple_value (mirror_all nil vs)
  mirror (vector_value vs) = vector_value (mirror_all nil vs)
  mirror (deque_value vs) = deque_value (mirror_all nil vs)
  mirror (size_value n) = size_value n
  mirror (text_value t) = text_value t
  mirror (op_value code) = op_value code
  mirror (other_value tag bytes) = other_value tag bytes

  -- The mirrored elements, before those that are there.
  pub mirror_all : Values → Values → Values
  mirror_all done nil = done
  mirror_all done (cons v vs) = mirror_all (cons (mirror v) done) vs

-- The instructions that stand for an object.
unfoldable mutual
  unfolding to_list

  pub program : Value → List Value
  program (attr_value idx v) = program v ++ (size_value idx ∷ op_value Op.make_attr ∷ [])
  program (param_value key v) = program v ++ (text_value key ∷ op_value Op.make_param ∷ [])
  program (tuple_value vs) =
      program_all vs ++ (size_value (length (to_list vs)) ∷ op_value Op.make_tuple ∷ [])
  program (vector_value vs) =
      program_all vs ++ (size_value (length (to_list vs)) ∷ op_value Op.make_vector ∷ [])
  program (deque_value vs) =
      program_all vs ++ (size_value (length (to_list vs)) ∷ op_value Op.make_deque ∷ [])
  program (size_value n) = size_value n ∷ []
  program (text_value t) = text_value t ∷ []
  program (op_value code) = op_value code ∷ []
  program (other_value tag bytes) = other_value tag bytes ∷ []

  pub program_all : Values → List Value
  program_all nil = []
  program_all (cons v vs) = program v ++ program_all vs
