-- ===== src/Vm/Program/Loop.antt =====
-- Running a program to its end.
use cyng.Base.{
  length-reverse, get_elem?-append, ◌+◌, ◌-◌, ◌<◌, ◌≡◌, refl, sym, ap, ◌∙◌, ◌^◌, Bool, true, false,
  List, [], ◌∷◌, ◌++◌, reverse, arith, length, length-append, append_assoc, append-nil, All,
}
use cyng.Base.Result.{Result, Result-cases, ok, ◌>>=◌}
use cyng.Base.{inl, inr}
use cyng.Vm.Value.{Value, Op, op_value, size_value, tuple_value, of_list}
use cyng.Vm.Stack
use cyng.Vm.Stack.{Stack, push, push_all, make}
use cyng.Vm.Stack.Frames.{framed, push_all-esba, pull-framed, frm-framed}
use cyng.Vm.Stack.Containers.{make_lem}
use cyng.Vm.Program.{Context, exec, exec_op, run_rounds, op_count, run}

-- Everything but an operation code.
abbrev pub is_literal : Value → Bool
is_literal (op_value code) = false
is_literal v = true

module _ (checked : Bool) where
  -- The instructions one by one.
  abbrev pub exec_all : List Value → Stack → Result Stack
  exec_all [] st = ok st
  exec_all (v ∷ code) st = exec checked v st >>= exec_all code

  -- The context at the end of its memory.
  abbrev pub finished : List Value → Stack → Result Context
  finished mem st = ok (record { mem = mem; pc = length mem; stack = st })

  run_rounds-append :
      (done code : List Value) (st : Stack)
      → run_rounds checked
          (length code)
          (record { mem = done ++ code; pc = length done; stack = st })
        ≡ (exec_all code st >>= finished (done ++ code))
  unfolding run_rounds
  run_rounds-append done [] st =
      ap (λ (l : List Value). ok (record { mem = done ++ []; pc = length l; stack = st }))
        (sym (append-nil done))
  run_rounds-append done (v ∷ code) st = elim (Result-cases (exec checked v st)) [
    | inl (st', e) ↦
        rw (run_rounds, get_elem?-append done code v, e)
          (let further : length (done ++ v ∷ []) ≡ length done + 1 =
              omega (arith, length-append done (v ∷ [])) in
            rw (append_assoc done (v ∷ []) code, further) at
              (run_rounds-append (done ++ v ∷ []) code st'))
    | inr (f, e) ↦ rw (run_rounds, get_elem?-append done code v, e)
  ]

  -- The loop carries out the instructions of the memory in their order and ends behind the last one,
  -- or fails with the first one that fails.
  pub run-exec_all :
      (mem : List Value) (st : Stack)
      → run checked (record { mem = mem; pc = 0; stack = st }) ≡ (exec_all mem st >>= finished mem)
  unfolding run op_count
  run-exec_all mem st =
      let all : length mem - 0 ≡ length mem = omega arith in rw all (run_rounds-append [] mem st)

  pub exec_all-append :
      (xs ys : List Value) (st : Stack) → exec_all (xs ++ ys) st ≡ (exec_all xs st >>= exec_all ys)
  exec_all-append [] ys st = refl
  exec_all-append (x ∷ xs) ys st = elim (Result-cases (exec checked x st)) [
    | inl (st', e) ↦ rw e (exec_all-append xs ys st')
    | inr (f, e) ↦ rw e
  ]

  exec-literal : (v : Value) (st : Stack) → is_literal v ≡ true → exec checked v st ≡ ok (push v st)
  unfolding exec
  exec-literal (op_value c) st h = cc
  exec-literal v st h = refl

  exec_all-literals :
      (vs : List Value) (st : Stack)
      → All (λ v. is_literal v ≡ true) vs
      → exec_all vs st ≡ ok (push_all vs st)
  unfolding push_all
  exec_all-literals [] st h = refl
  exec_all-literals (v ∷ vs) st h =
      rw (exec-literal v st h.0) (exec_all-literals vs (push v st) h.1)

  exec_all-frame :
      (above : List Value) (st : Stack)
      → length above < 2 ^ 64
      → exec_all
          (op_value Op.frm ∷ op_value Op.make_tuple ∷ op_value Op.pull ∷ [])
          (framed above st)
        ≡ ok (push (tuple_value (of_list above)) st)
  unfolding exec exec_op push
  exec_all-frame above st small = rw (
    frm-framed checked above st small,
    make_lem checked tuple_value above (size_value st.bp ∷ st.items) (length st.items),
    pull-framed checked (tuple_value (of_list above) ∷ []) st,
  )

  -- A program that opens a frame, pushes values, measures the frame, builds a tuple and closes the frame.
  abbrev pub tuple_program : List Value → List Value
  tuple_program vs =
      op_value Op.esba ∷ (vs ++ (op_value Op.frm ∷ op_value Op.make_tuple ∷ op_value Op.pull ∷ []))

  -- For values that are no operation codes, fewer than 2 ^ 64, the program that opens a frame, pushes the
  -- values and makes a tuple of the frame runs to its end, and leaves the stack as it was with one tuple
  -- on it, of the values in reverse order.
  pub run-tuple_program :
      (vs : List Value) (st : Stack)
      → All (λ v. is_literal v ≡ true) vs
      → length vs < 2 ^ 64
      → run checked (record { mem = tuple_program vs; pc = 0; stack = st })
        ≡ finished (tuple_program vs) (push (tuple_value (of_list (reverse vs))) st)
  unfolding exec exec_op push
  run-tuple_program vs st h small =
      run-exec_all (tuple_program vs) st
      ∙ ap (λ r. r >>= finished (tuple_program vs))
          (exec_all-append vs _ (Stack.esba st)
            ∙ ap
                (λ r.
                  r >>= exec_all (op_value Op.frm ∷ op_value Op.make_tuple ∷ op_value Op.pull ∷ []))
                (exec_all-literals vs (Stack.esba st) h ∙ ap ok (push_all-esba vs st))
            ∙ exec_all-frame (reverse vs) st (omega (arith, length-reverse vs)))
