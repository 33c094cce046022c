-- ===== src/Vm/Memory.antt =====
-- The program counter of src/vm/src/memory.cpp.
use cyng.Base.{ℕ, ◌+◌, ◌-◌, ◌%◌, ◌^◌, ◌≤◌, ◌≡◌, Bool, true, ltb, if◌then◌else◌, arith}
use cyng.Base.Result.{Result, ok, ◌>>◌}
use cyng.Vm.Stack.{check}

-- The counter and the number of instructions.
pub record Memory : Type 0 where
  pub pc : ℕ
  pub size : ℕ

pub data Move : Type 0 where
  step : Move
  ja : ℕ → Move
  jrf : ℕ → Move
  jrb : ℕ → Move

module _ (checked : Bool) where
  -- A step on, a jump to a place, and jumps forward and backward by a distance.
  unfoldable pub move : Move → Memory → Result Memory
  move step m = do
    check checked (ltb m.pc m.size)
    ok (if ltb m.pc m.size then record m { pc = m.pc + 1 } else m)
  move (ja pos) m = do check checked (ltb pos m.size); ok (record m { pc = pos })
  move (jrf n) m = do
    let to = (m.pc + n) % 2 ^ 64
    check checked (ltb to m.size)
    ok (record m { pc = to })
  move (jrb n) m = do
    check checked (ltb n m.pc)
    ok (if ltb n m.pc then record m { pc = m.pc - n } else m)

-- With assertions compiled in, a move that returns leaves the counter inside the memory or just behind
-- it, if it was there before, and the size as it was.
move-le :
    (v : Move) (m : Memory) {m' : Memory}
    → m.pc ≤ m.size
    → move true v m ≡ ok m'
    → (m'.pc ≤ m'.size) × (m'.size ≡ m.size)
unfolding move
move-le step m h e = ground arith
move-le (ja pos) m h e = ground arith
move-le (jrf n) m h e = ground arith
move-le (jrb n) m h e = ground arith
