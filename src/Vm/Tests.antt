-- ===== src/Vm/Tests.antt =====
-- The virtual machine on a small program.
use cyng.Base.{◌≡◌, refl, true, List, [], ◌∷◌, arith}
use cyng.Base.Result.{ok, ◌>>=◌}
use cyng.Vm.Value.{Value, size_value, text_value, tuple_value, of_list, to_list-of_list, nil, cons}
use cyng.Vm.Stack.{Stack, push, make, split, elements}
use cyng.Vm.Stack.Containers.{split-make}
use cyng.Vm.Program.{run}
use cyng.Vm.Program.Loop.{tuple_program, finished, run-tuple_program}
use mathlib.Core.Path.{ap}
use mathlib.Core.Option

abbrev two : List Value
two = size_value 7 ∷ text_value (b'a' ∷ []) ∷ []

abbrev base : Stack
base = record { items = size_value 1 ∷ []; bp = 0 }

run-tuple_program_example :
    run true (record { mem = tuple_program true two; pc = 0; stack = base })
    ≡ finished true (tuple_program true two) (record {
      items =
          tuple_value (cons (text_value (b'a' ∷ [])) (cons (size_value 7) nil)) ∷ size_value 1 ∷ [];
      bp = 0;
    })
unfolding push of_list
run-tuple_program_example = run-tuple_program true two base (refl, (refl, tt)) (omega arith)

tuple_whole : (vs : List Value) → elements (tuple_value (of_list vs)) ≡ Option.some vs
unfolding elements
tuple_whole vs = ap Option.some (to_list-of_list vs)

split-make_example :
    ((make true tuple_value (record { items = size_value 1 ∷ size_value 7 ∷ []; bp = 0 })
        >>= split true)
      ≡ ok (record { items = size_value 1 ∷ size_value 7 ∷ []; bp = 0 }))
    × ((make true tuple_value (record { items = size_value 1 ∷ size_value 7 ∷ []; bp = 0 })
          >>= split true
          >>= make true tuple_value
          >>= split true)
        ≡ ok (record { items = size_value 1 ∷ size_value 7 ∷ []; bp = 0 }))
split-make_example = split-make true tuple_value (size_value 7 ∷ []) [] 0 tuple_whole
