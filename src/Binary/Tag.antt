-- ===== src/Binary/Tag.antt =====
-- The type tags of include/cyng/obj/tag.hpp, the index of a type in `tag_t`, and the codes of the
-- operations in include/cyng/obj/intrinsics/op.h.
use cyng.Base.{ℕ, ◌==◌, ◌||◌, if◌then◌else◌, Option, none, some}
use cyng.Vm.Value.{Op}

abbrev pub tc_null : ℕ
tc_null = 0

abbrev pub tc_bool : ℕ
tc_bool = 1

abbrev pub tc_uint64 : ℕ
tc_uint64 = 9

abbrev pub tc_string : ℕ
tc_string = 14

abbrev pub tc_buffer : ℕ
tc_buffer = 23

abbrev pub tc_op : ℕ
tc_op = 26

abbrev pub tc_color_16 : ℕ
tc_color_16 = 35

abbrev pub tc_eod : ℕ
tc_eod = 61

-- `op` as a number.
unfoldable pub op_code : Op → ℕ
op_code Op.esba = 0xF9
op_code Op.reba = 0xFA
op_code Op.pull = 0xFB
op_code Op.frm = 0xFC
op_code Op.make_attr = 0x108
op_code Op.make_param = 0x109
op_code Op.make_tuple = 0x10E
op_code Op.make_vector = 0x10F
op_code Op.make_deque = 0x110
op_code Op.split = 0x112
op_code Op.tidy = 0x116
op_code Op.halt = 0xFFFD
op_code Op.noop = 0xFFFE
op_code (Op.unknown code) = code

-- `static_cast<op>`
unfoldable pub to_op : ℕ → Op
to_op n =
    if n == 0xF9
    then Op.esba
    else if n == 0xFA
    then Op.reba
    else if n == 0xFB
    then Op.pull
    else if n == 0xFC
    then Op.frm
    else if n == 0x108
    then Op.make_attr
    else if n == 0x109
    then Op.make_param
    else if n == 0x10E
    then Op.make_tuple
    else if n == 0x10F
    then Op.make_vector
    else if n == 0x110
    then Op.make_deque
    else if n == 0x112
    then Op.split
    else if n == 0x116
    then Op.tidy
    else if n == 0xFFFD
    then Op.halt
    else if n == 0xFFFE
    then Op.noop
    else Op.unknown n

-- The size that an object's binary form must have, by an assertion of the parser or of the function
-- that it calls.
unfoldable pub exact_size : ℕ → Option ℕ
exact_size tag =
    if tag == 0 || tag == 61
    then some 0
    else if tag == 1 || tag == 2 || tag == 6 || tag == 10 || tag == 27
    then some 1
    else if tag == 7 || tag == 11 || tag == 26
    then some 2
    else if tag == 33
    then some 3
    else if tag == 3 || tag == 8 || tag == 12 || tag == 34
    then some 4
    else if tag == 28 || tag == 31
    then some 6
    else if tag == 4 || tag == 9 || tag == 13 || tag == 29 || tag == 35
    then some 8
    else if tag == 5 || tag == 36 || tag == 40
    then some 16
    else if tag == 37
    then some 20
    else if tag == 41
    then some 24
    else if tag == 38 || tag == 42
    then some 32
    else if tag == 39
    then some 64
    else none
