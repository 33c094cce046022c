-- ===== src/Binary/RoundTrip.antt =====
-- What the serializer writes for an object, read by the parser and carried out by the virtual machine.
use cyng.Base.{
  ℕ, suc, ◌+◌, Bool, List, [], ◌∷◌, ◌++◌, ◌≡◌, refl, sym, ap, ◌∙◌, true, arith, ltb, length,
  append-nil,
}
use cyng.Base.Result.{Result, ok, ◌>>=◌}
use cyng.Vm.Value.{
  Op, Value, size_value, text_value, op_value, attr_value, param_value, tuple_value, vector_value,
  deque_value, other_value, Values, nil, cons, to_list, of_list,
}
use cyng.Vm.Stack
use cyng.Vm.Stack.{Stack, push}
use cyng.Vm.Program.{run, exec, exec_op}
use cyng.Vm.Program.Loop.{exec_all, exec_all-append, finished, run-exec_all}
use cyng.Vm.Stack.Frames.{check-true}
use cyng.Vm.Stack.Containers.{make_lem}
use cyng.Binary.Parser.{Parser, State, init, read}
use cyng.Binary.Parser.Framing.{at}
use cyng.Binary.Serializer.{serialize}
use cyng.Binary.Data.{IsData, AreData, mirror, mirror_all, program, program_all}
use cyng.Binary.Instructions.{serialize-Reads}

of_list-to_list : (vs : Values) → of_list (to_list vs) ≡ vs
unfolding of_list to_list
of_list-to_list nil = refl
of_list-to_list (cons v vs) = ap (cons v) (of_list-to_list vs)

length-mirror_all :
    (done vs : Values)
    → length (to_list (mirror_all done vs)) ≡ length (to_list vs) + length (to_list done)
unfolding mirror_all to_list
length-mirror_all done nil = omega arith
length-mirror_all done (cons v vs) = omega (arith, length-mirror_all (cons (mirror v) done) vs)

module _ (checked : Bool) where
  abbrev above : Values → Stack → Stack
  above vs st = record { items = to_list vs ++ st.items; bp = st.bp }

  -- The count and the operation behind the elements of a container.
  exec-build :
      (build : Values → Value) (code : Op) (n : ℕ) (vs : Values) (st : Stack)
      → ((s : Stack) → exec checked (op_value code) s ≡ Stack.make checked build s)
      → n ≡ length (to_list vs)
      → exec_all checked (size_value n ∷ op_value code ∷ []) (above vs st) ≡ ok (push (build vs) st)
  unfolding push exec
  exec-build build code n vs st h e =
      let count : ◌≡◌ {A = Value} (size_value n) (size_value (length (to_list vs))) =
        ap size_value e in
      let built : Stack.make checked build (push (size_value n) (above vs st))
          ≡ ok (record { items = build (of_list (to_list vs)) ∷ st.items; bp = st.bp }) =
        rw count (make_lem checked build (to_list vs) st.items st.bp) in
      ap (λ r. r >>= λ s. ok s) (h (push (size_value n) (above vs st)) ∙ built)
      ∙ ap (λ w. ok (record { items = build w ∷ st.items; bp = st.bp })) (of_list-to_list vs)

  make_attr_lem :
      (idx : ℕ) (v : Value) (st : Stack)
      → Stack.make_attr checked (push (size_value idx) (push v st))
        ≡ ok (push (attr_value idx v) st)
  unfolding Stack.make_attr push Stack.pop_value Stack.remove Stack.as_size
  make_attr_lem idx v st =
      let two : ltb 1 (suc (suc (length st.items))) ≡ true = ground arith in
      rw (two, check-true checked) refl

  make_param_lem :
      (key : List ℕ) (v : Value) (st : Stack)
      → Stack.make_param checked (push (text_value key) (push v st))
        ≡ ok (push (param_value key v) st)
  unfolding Stack.make_param push Stack.pop_value Stack.remove Stack.as_text
  make_param_lem key v st =
      let two : ltb 1 (suc (suc (length st.items))) ≡ true = ground arith in
      rw (two, check-true checked) refl

  mutual
    unfolding program mirror exec push exec_op

    exec-program :
        (v : Value) (st : Stack)
        → IsData v
        → exec_all checked (program v) st ≡ ok (push (mirror v) st)
    exec-program (size_value n) st h = refl
    exec-program (text_value t) st h = refl
    exec-program (op_value code) st h = absurd h
    exec-program (attr_value idx v) st h =
        exec_all-append checked (program v) _ st
        ∙ rw (exec-program v st h.1) (ap (λ r. r >>= λ s. ok s) (make_attr_lem idx (mirror v) st))
    exec-program (param_value key v) st h =
        exec_all-append checked (program v) _ st
        ∙ rw (exec-program v st h.1) (ap (λ r. r >>= λ s. ok s) (make_param_lem key (mirror v) st))
    exec-program (tuple_value vs) st h =
        exec_all-append checked (program_all vs) _ st
        ∙ rw (exec-program_all vs nil st h.1) (
            exec-build tuple_value Op.make_tuple _ (mirror_all nil vs) st (λ s. refl)
              (omega (arith, length-mirror_all nil vs)))
    exec-program (vector_value vs) st h =
        exec_all-append checked (program_all vs) _ st
        ∙ rw (exec-program_all vs nil st h.1) (
            exec-build vector_value Op.make_vector _ (mirror_all nil vs) st (λ s. refl)
              (omega (arith, length-mirror_all nil vs)))
    exec-program (deque_value vs) st h =
        exec_all-append checked (program_all vs) _ st
        ∙ rw (exec-program_all vs nil st h.1) (
            exec-build deque_value Op.make_deque _ (mirror_all nil vs) st (λ s. refl)
              (omega (arith, length-mirror_all nil vs)))
    exec-program (other_value tag bytes) st h = refl

    exec-program_all :
        (vs done : Values) (st : Stack)
        → AreData vs
        → exec_all checked (program_all vs) (above done st) ≡ ok (above (mirror_all done vs) st)
    exec-program_all nil done st h = refl
    exec-program_all (cons v vs) done st h =
        exec_all-append checked (program v) (program_all vs) (above done st)
        ∙ rw (exec-program v (above done st) h.0)
            (exec-program_all vs (cons (mirror v) done) st h.1)

  -- The bytes of an object that has no operation codes, only sizes that a computer can hold, and plain
  -- objects in the binary form of their type are read to the end by a new parser. The objects that the
  -- parser delivers are a program that the virtual machine carries out: it puts the object on the stack,
  -- whatever is there, with the elements of its containers in reverse order.
  pub transfer :
      (make_foreign : ℕ → List ℕ → Result Value) (v : Value) (st : Stack)
      → IsData v
      → (p : Parser) × (read make_foreign init (serialize v) ≡ ok p)
        × (p.state ≡ State.type)
        × (run checked (record { mem = p.delivered; pc = 0; stack = st })
            ≡ finished checked p.delivered (push (mirror v) st))
  transfer make_foreign v st h =
      let (tag, n, e) = serialize-Reads make_foreign v h [] 0 0 [] in
      let p = at (program v) State.type [] tag n in
      (
        p,
        rw (sym (append-nil (serialize v))) (e ∙ unfold read in refl),
        refl,
        run-exec_all checked (program v) st
            ∙ ap (λ r. r >>= finished checked (program v)) (exec-program v st h),
      )
