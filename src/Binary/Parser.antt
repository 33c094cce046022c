-- ===== src/Binary/Parser.antt =====
-- src/io/src/parser/parser.cpp and include/cyng/io/parser/parser.h. The calls of the callback `cb_` are
-- the objects in `delivered`, in their order. A `char` is the number 0 to 255 of its bit pattern.
pub mod Length
pub mod Framing
pub mod Unread
pub mod Types
use cyng.Base.{
  ℕ, zero, suc, ◌+◌, ◌-◌, ◌%◌, ◌^◌, Bool, true, false, ◌&&◌, ◌||◌, List, [], ◌∷◌, ◌++◌, Option,
  none, some, ltb, leb, ◌==◌, if◌then◌else◌, drop, get_or,
}
use cyng.Base
use cyng.Base.Result.{Result, ok, err, assertion, length_error, ◌>>=◌, ◌>>◌, assert}
use cyng.Vm.Value.{Value, size_value, text_value, op_value, other_value}
use cyng.Binary.Number.{to_numeric, to_buffer}
use cyng.Binary.Tag.{
  tc_bool, tc_uint64, tc_string, tc_buffer, tc_op, tc_color_16, to_op, exact_size,
}

pub data State : Type 0 where
  failure type length value : State

pub record Parser : Type 0 where
  pub state : State
  pub buffer : List ℕ
  pub type : ℕ
  pub length : ℕ
  pub delivered : List Value

abbrev pub init : Parser
init = record { state = State.type; buffer = []; type = 0; length = 0; delivered = [] }

-- `size_of_length_field`
unfoldable pub size_of_length_field : ℕ → ℕ
size_of_length_field c = if c == 126 then 3 else if c == 127 then 9 else 1

-- A `char` on its way to `std::uint64_t` is extended by its sign.
abbrev sign_extend : ℕ → ℕ
sign_extend c = if ltb c 0x80 then c else c + 2 ^ 64 - 256

unfoldable pub length_of : ℕ → List ℕ → ℕ
unfolding to_numeric
length_of size buffer =
    if size == 1
    then sign_extend (get_or buffer 0 0)
    else if size == 3
    then to_numeric 2 (drop 1 buffer)
    else to_numeric 8 (drop 1 buffer)

-- `reserve` throws for more than a vector can hold.
unfoldable pub set_length : ℕ → Parser → Result Parser
unfolding length_of
set_length size p =
    let n = length_of size p.buffer in
    if ltb n (2 ^ 63) then ok (record p { buffer = []; length = n }) else err length_error

-- The tags of what is written as a sequence of instructions, of `object`, and what is no tag.
abbrev pub is_refused : ℕ → Bool
is_refused tag = tag == 43 || (leb 45 tag && leb tag 54) || leb 62 tag

-- The tags of the types that are made by libraries: path, times, pid, error code and addresses.
abbrev pub is_foreign : ℕ → Bool
is_foreign tag =
    tag == 15 || (leb 16 tag && leb tag 22) || tag == 30 || tag == 55 || (leb 57 tag && leb tag 60)

abbrev pub has_size : Option ℕ → List ℕ → Bool
has_size none buffer = true
has_size (some n) buffer = Base.length buffer == n

-- The object of an unsigned number that a buffer of any size gives.
abbrev resized : ℕ → ℕ → List ℕ → Value
resized tag size buffer = other_value tag (to_buffer size (to_numeric size buffer))

-- `make_uuid`
unfoldable pub make_uuid : List ℕ → List ℕ
unfolding to_buffer
make_uuid buffer = if Base.length buffer == 16 then buffer else to_buffer 16 0

-- `make_foreign` makes the objects of the types of other libraries.
module _ (make_foreign : ℕ → List ℕ → Result Value) where
  -- `make_color16` reads at the offsets 4, 8 and 12 of its eight bytes.
  unfoldable pub make_object : ℕ → List ℕ → Result Value
  make_object tag buffer =
      if tag == tc_bool
      then ok (other_value tag ((if get_or buffer 0 0 == 1 then 1 else 0) ∷ []))
      else if tag == tc_uint64
      then ok (size_value (to_numeric 8 buffer))
      else if tag == tc_string
      then ok (text_value buffer)
      else if tag == tc_op
      then ok (op_value (to_op (to_numeric 2 buffer)))
      else if tag == tc_color_16
      then err assertion
      else if tag == 24
      then ok (resized tag 4 buffer)
      else if tag == 25
      then ok (resized tag 8 buffer)
      else if tag == 32
      then (do assert (Base.length buffer % 6 == 0); ok (other_value tag buffer))
      else if tag == 44
      then (do assert (ltb 2 (Base.length buffer)); ok (other_value tag buffer))
      else if tag == 56
      then ok (other_value tag (make_uuid buffer))
      else if is_foreign tag
      then make_foreign tag buffer
      else ok (other_value tag buffer)

  unfoldable pub deserialize : ℕ → List ℕ → Result Value
  deserialize tag buffer =
      if is_refused tag
      then err assertion
      else (do assert (has_size (exact_size tag) buffer); make_object tag buffer)

  -- `cb_(deserialize())`
  unfoldable pub deliver : Parser → Result Parser
  unfolding deserialize
  deliver p = do
    obj ← deserialize p.type p.buffer
    ok (record p { state = State.type; buffer = []; delivered = p.delivered ++ obj ∷ [] })

  unfoldable pub put_type : Parser → ℕ → Parser
  unfolding to_numeric
  put_type p c =
      let buffer = p.buffer ++ c ∷ [] in
      if Base.length buffer == 2
      then record p { state = State.length; buffer = []; type = to_numeric 2 buffer; length = 0 }
      else record p { buffer = buffer }

  unfoldable pub put_length : Parser → ℕ → Result Parser
  unfolding size_of_length_field set_length deliver
  put_length p c =
      let buffer = p.buffer ++ c ∷ [] in
      let size = size_of_length_field (get_or buffer 0 0) in
      if size == Base.length buffer
      then (do
        q ← set_length size (record p { buffer = buffer })
        if q.length == 0 then deliver q else ok (record q { state = State.value }))
      else ok (record p { buffer = buffer })

  -- `--length_`, on 64 bits.
  unfoldable pub put_value : Parser → ℕ → Result Parser
  unfolding deliver
  put_value p c =
      let n = (p.length + 2 ^ 64 - 1) % 2 ^ 64 in
      let q = record p { buffer = p.buffer ++ c ∷ []; length = n } in
      if n == 0 then deliver q else ok q

  unfoldable pub put_in : State → Parser → ℕ → Result Parser
  unfolding put_type put_length put_value
  put_in State.failure p c = err assertion
  put_in State.type p c = ok (put_type p c)
  put_in State.length p c = put_length p c
  put_in State.value p c = put_value p c

  abbrev put : Parser → ℕ → Result Parser
  put p = put_in p.state p

  unfoldable pub read : Parser → List ℕ → Result Parser
  unfolding put_in
  read p [] = ok p
  read p (c ∷ cs) = do q ← put p c; read q cs
