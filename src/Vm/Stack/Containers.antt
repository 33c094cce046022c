-- ===== src/Vm/Stack/Containers.antt =====
-- Building a container from the top of the stack, and taking it apart.
use cyng.Base.{
  length-reverse, ℕ, suc, ◌≡◌, sym, ap, ◌∙◌, Bool, true, List, [], ◌∷◌, ◌++◌, reverse, some, ltb,
  arith, length, length-append, append_assoc, append-nil,
}
use mathlib.Core.List.{reverse-reverse}
use cyng.Base.Result.{ok, ◌>>=◌}
use cyng.Vm.Value.{Value, Values, size_value, of_list}
use cyng.Vm.Stack.{Stack, push, pop, top_value, as_size, collect, make, elements, split}
use cyng.Vm.Stack.Frames.{items-push_all, bp-push_all, check-true}

module _ (checked : Bool) where
  collect-append :
      (xs ys taken : List Value) (bp : ℕ)
      → collect checked (length xs) taken (record { items = xs ++ ys; bp = bp })
        ≡ ok (taken ++ xs, record { items = ys; bp = bp })
  unfolding collect
  collect-append [] ys taken bp =
      ap (λ l. ok (l, record { items = ys; bp = bp })) (sym (append-nil taken))
  collect-append (x ∷ xs) ys taken bp =
      collect-append xs ys (taken ++ x ∷ []) bp
      ∙ ap (λ l. ok (l, record { items = ys; bp = bp })) (append_assoc taken (x ∷ []) xs)

  -- The elements below their number become one container, the first of them the one that was on top.
  pub make_lem :
      (build : Values → Value) (xs ys : List Value) (bp : ℕ)
      → make checked build (record { items = size_value (length xs) ∷ xs ++ ys; bp = bp })
        ≡ ok (record { items = build (of_list xs) ∷ ys; bp = bp })
  unfolding make top_value pop as_size push
  make_lem build xs ys bp =
      let tall : ltb (length xs) (suc (length (xs ++ ys))) ≡ true =
        ground (arith, length-append xs ys) in
      let some_item : ltb 0 (suc (length (xs ++ ys))) ≡ true = ground arith in
      rw (some_item, check-true checked, tall, check-true checked, collect-append xs ys [] bp)

  split_lem :
      (build : Values → Value) (xs ys : List Value) (bp : ℕ)
      → elements (build (of_list xs)) ≡ some xs
      → split checked (record { items = build (of_list xs) ∷ ys; bp = bp })
        ≡ ok (record { items = size_value (length xs) ∷ reverse xs ++ ys; bp = bp })
  unfolding split push
  split_lem build xs ys bp e =
      let st : Stack = record { items = ys; bp = bp } in
      let down = items-push_all xs st in
      let base = bp-push_all xs st in
      rw (split, e) (ap ok (λ i. record { items = size_value (length xs) ∷ down i; bp = base i }))

  split-make_once :
      (build : Values → Value) (xs ys : List Value) (bp : ℕ)
      → ((vs : List Value) → elements (build (of_list vs)) ≡ some vs)
      → (make checked build (record { items = size_value (length xs) ∷ xs ++ ys; bp = bp })
          >>= split checked)
        ≡ ok (record { items = size_value (length xs) ∷ reverse xs ++ ys; bp = bp })
  split-make_once build xs ys bp whole =
      rw (make_lem build xs ys bp) (split_lem build xs ys bp (whole xs))

  split-make_again :
      (build : Values → Value) (xs ys : List Value) (bp : ℕ)
      → ((vs : List Value) → elements (build (of_list vs)) ≡ some vs)
      → (make checked build (record { items = size_value (length xs) ∷ reverse xs ++ ys; bp = bp })
          >>= split checked)
        ≡ ok (record { items = size_value (length xs) ∷ xs ++ ys; bp = bp })
  split-make_again build xs ys bp whole =
      rw (length-reverse xs, reverse-reverse xs) at (split-make_once build (reverse xs) ys bp whole)

  -- A container that is built from the stack and split again, twice, gives the stack as it was; once
  -- gives its elements in reverse order. `build` is the constructor of any of the three containers.
  pub split-make :
      (build : Values → Value) (xs ys : List Value) (bp : ℕ)
      → ((vs : List Value) → elements (build (of_list vs)) ≡ some vs)
      → let st : Stack = record { items = size_value (length xs) ∷ xs ++ ys; bp = bp } in
        ((make checked build st >>= split checked)
          ≡ ok (record { items = size_value (length xs) ∷ reverse xs ++ ys; bp = bp }))
        × ((make checked build st >>= split checked >>= make checked build >>= split checked)
            ≡ ok st)
  split-make build xs ys bp whole =
      let once = split-make_once build xs ys bp whole in
      (
        once,
        ap (λ r. r >>= make checked build >>= split checked) once
            ∙ split-make_again build xs ys bp whole,
      )
