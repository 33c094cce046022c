-- ===== src/Vm/Stack/Frames.antt =====
-- Frames: `esba` opens one, `frm` measures it, `pull` and `reba` close it.
use cyng.Base.{
  get_elem?-append, suc, ◌+◌, ◌-◌, ◌<◌, ◌≤◌, ◌%◌, ◌^◌, ◌≡◌, refl, sym, ap, ◌∙◌, Bool, true, false,
  List, [], ◌∷◌, ◌++◌, reverse, ltb, arith, length, length-append, drop, append_assoc,
}
use mathlib.Core.List.{reverse-cons}
use cyng.Base.Result.{ok, err, assertion}
use cyng.Vm.Value.{Value, size_value}
use cyng.Vm.Stack.{Stack, push, esba, saved_bp, reba, pull, erase_at, frm, push_all, check}

-- The elements in the order of a stack, the last one on top.
pub items-push_all :
    (vs : List Value) (st : Stack) → (push_all vs st).items ≡ reverse vs ++ st.items
unfolding push_all push
items-push_all [] st = refl
items-push_all (v ∷ vs) st = items-push_all vs (push v st) ∙ simp (reverse-cons, append_assoc)

pub bp-push_all : (vs : List Value) (st : Stack) → (push_all vs st).bp ≡ st.bp
unfolding push_all push
bp-push_all [] st = refl
bp-push_all (v ∷ vs) st = bp-push_all vs (push v st)

drop-append : (xs ys : List Value) (v : Value) → drop (suc (length xs)) (xs ++ v ∷ ys) ≡ ys
drop-append [] ys v = refl
drop-append (x ∷ xs) ys v = drop-append xs ys v

erase_at-append : (xs ys : List Value) (v : Value) → erase_at (length xs) (xs ++ v ∷ ys) ≡ xs ++ ys
unfolding erase_at
erase_at-append [] ys v = refl
erase_at-append (x ∷ xs) ys v = ap (◌∷◌ x) (erase_at-append xs ys v)

-- A stack within a frame: what stands above the saved base pointer, which stands at `bp`.
abbrev pub framed : List Value → Stack → Stack
framed above st = record { items = above ++ size_value st.bp ∷ st.items; bp = length st.items }

height :
    (above : List Value) (st : Stack)
    → length (framed above st).items ≡ length above + suc (length st.items)
height above st = length-append above (size_value st.bp ∷ st.items)

pub check-true : (checked : Bool) → check checked true ≡ ok tt
check-true true = refl
check-true false = refl

module _ (checked : Bool) (above : List Value) (st : Stack) where
  saved_bp-framed : saved_bp checked (framed above st) ≡ ok st.bp
  unfolding saved_bp
  saved_bp-framed =
      let tall : ltb (length st.items) (length (framed above st).items) ≡ true =
        ground (arith, height above st) in
      let index : length (framed above st).items - 1 - length st.items ≡ length above =
        omega (arith, height above st) in
      rw (tall, index, get_elem?-append above st.items (size_value st.bp), check-true checked)

  -- `pull` takes the saved base pointer out of the stack and leaves what stands above it.
  pub pull-framed : pull checked (framed above st) ≡ ok (record st { items = above ++ st.items })
  unfolding pull
  pull-framed =
      let tall : ltb (length st.items) (length (framed above st).items) ≡ true =
        ground (arith, height above st) in
      let index : length (framed above st).items - 1 - length st.items ≡ length above =
        omega (arith, height above st) in
      rw (
        saved_bp-framed,
        tall,
        index,
        erase_at-append above st.items (size_value st.bp),
        check-true checked,
      )

  -- The number of elements above the saved base pointer, below 2 ^ 64.
  pub frm-framed :
      length above < 2 ^ 64
      → frm checked (framed above st) ≡ ok (push (size_value (length above)) (framed above st))
  unfolding frm
  frm-framed small =
      let tall : ltb (length st.items) (length (framed above st).items) ≡ true =
        ground (arith, height above st) in
      let number : (length (framed above st).items + 2 ^ 65 - length st.items - 1) % 2 ^ 64
          ≡ length above =
        omega (arith, height above st) in
      rw (tall, number, check-true checked)

module _ (above : List Value) (st : Stack) where
  -- Without the assertions, `reba` gives back the stack as it was before the frame.
  pub reba-framed : reba false (framed above st) ≡ ok st
  unfolding reba
  reba-framed =
      let shrink : length (framed above st).items - length st.items ≡ suc (length above) =
        omega (arith, height above st) in
      rw (saved_bp-framed false above st, shrink, drop-append above st.items (size_value st.bp))

  -- With the assertions, `reba` fails in each frame whose saved base pointer is not above its own.
  pub reba-framed_checked : st.bp ≤ length st.items → reba true (framed above st) ≡ err assertion
  unfolding reba
  reba-framed_checked low =
      let wrong : ltb (length st.items) st.bp ≡ false = ground arith in
      rw (saved_bp-framed true above st, wrong)

-- Behind `esba` and any pushes the stack is within a frame.
pub push_all-esba : (vs : List Value) (st : Stack) → push_all vs (esba st) ≡ framed (reverse vs) st
unfolding esba push
push_all-esba vs st =
    let down = items-push_all vs (esba st) in
    let base = bp-push_all vs (esba st) in λ i. record { items = down i; bp = base i }

-- Behind `esba` and any pushes, `pull` gives the stack with the pushes alone.
pull-push_all :
    (checked : Bool) (vs : List Value) (st : Stack)
    → pull checked (push_all vs (esba st)) ≡ ok (push_all vs st)
pull-push_all checked vs st =
    let down = items-push_all vs st in
    let base = bp-push_all vs st in
    ap (pull checked) (push_all-esba vs st)
    ∙ pull-framed checked (reverse vs) st
    ∙ ap ok (λ i. record { items = sym down i; bp = sym base i })

-- Behind `esba` and any pushes, `reba` gives back the stack as it was, if assertions are not compiled in.
pub reba-push_all : (vs : List Value) (st : Stack) → reba false (push_all vs (esba st)) ≡ ok st
reba-push_all vs st = ap (reba false) (push_all-esba vs st) ∙ reba-framed (reverse vs) st

-- With assertions compiled in, `reba` fails behind `esba` and any pushes, on each stack whose base
-- pointer is not above its size.
reba-push_all_checked :
    (vs : List Value) (st : Stack)
    → st.bp ≤ length st.items
    → reba true (push_all vs (esba st)) ≡ err assertion
reba-push_all_checked vs st low =
    ap (reba true) (push_all-esba vs st) ∙ reba-framed_checked (reverse vs) st low
