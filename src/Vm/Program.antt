-- ===== src/Vm/Program.antt =====
-- src/vm/src/memory.cpp and the loop of src/vm/src/vm.cpp, for the operations that work on the stack.
pub mod Loop
use cyng.Base.{
  ℕ, zero, suc, ◌+◌, ◌-◌, Bool, true, false, List, [], ◌∷◌, Option, none, some, ltb, if◌then◌else◌,
  length, get_elem?,
}
use cyng.Base.Result.{Result, ok, err, ◌>>=◌, ◌>>◌}
use cyng.Vm.Value.{Value, Op, op_value, tuple_value, vector_value, deque_value}
use cyng.Vm.Stack
use cyng.Vm.Stack.{Stack, check, push, make}

pub record Context : Type 0 where
  pub mem : List Value
  pub pc : ℕ
  pub stack : Stack

-- `memory::operator bool`
unfoldable pub has_more : Context → Bool
has_more ctx = ltb ctx.pc (length ctx.mem)

-- `memory::op_count`
unfoldable pub op_count : Context → ℕ
op_count ctx = length ctx.mem - ctx.pc

module _ (checked : Bool) where
  -- `vm_base::exec` of an operation code.
  unfoldable pub exec_op : Op → Stack → Result Stack
  exec_op Op.esba st = ok (Stack.esba st)
  exec_op Op.reba st = Stack.reba checked st
  exec_op Op.pull st = Stack.pull checked st
  exec_op Op.frm st = Stack.frm checked st
  exec_op Op.make_attr st = Stack.make_attr checked st
  exec_op Op.make_param st = Stack.make_param checked st
  exec_op Op.make_tuple st = make checked tuple_value st
  exec_op Op.make_vector st = make checked vector_value st
  exec_op Op.make_deque st = make checked deque_value st
  exec_op Op.split st = Stack.split checked st
  exec_op Op.noop st = ok st
  exec_op Op.halt st = ok st
  exec_op Op.tidy st = ok st
  exec_op (Op.unknown code) st = do check checked false; ok st

  -- An object that is no operation code is pushed.
  unfoldable pub exec : Value → Stack → Result Stack
  exec (op_value code) st = exec_op code st
  exec v st = ok (push v st)

  -- `while (ctx_) { exec(ctx_()); ctx_.step(); }`, on the rounds left.
  unfoldable pub run_rounds : ℕ → Context → Result Context
  unfolding exec
  run_rounds zero ctx = ok ctx
  run_rounds (suc n) ctx = elim (get_elem? ctx.mem ctx.pc) [
    | none ↦ ok ctx
    | some v ↦ do st ← exec v ctx.stack; run_rounds n (record ctx { pc = ctx.pc + 1; stack = st })
  ]

  unfoldable pub run : Context → Result Context
  unfolding run_rounds op_count
  run ctx = run_rounds (op_count ctx) ctx
