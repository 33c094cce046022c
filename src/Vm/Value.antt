-- ===== src/Vm/Value.antt =====
-- What the virtual machine computes with: include/cyng/obj/intrinsics/op.h and the types of objects that
-- the stack tells apart.
use cyng.Base.{ℕ, ◌≡◌, refl, ap, List, [], ◌∷◌}

-- Of the codes that `exec` handles, those that need the stack alone, less the ones for properties, maps,
-- programs and the two assertions; and `unknown`, a code that `exec` does not handle.
pub data Op : Type 0 where
  esba reba pull frm : Op
  make_attr make_param make_tuple make_vector make_deque : Op
  split noop halt tidy : Op
  unknown : ℕ → Op

-- An object: a `std::size_t`, a text, an operation code, an attribute, a parameter, one of the
-- containers, or an object of another type, known by its type and its binary form.
mutual
  pub data Value : Type 0 where
    size_value : ℕ → Value
    text_value : List ℕ → Value
    op_value : Op → Value
    attr_value : ℕ → Value → Value
    param_value : List ℕ → Value → Value
    tuple_value : Values → Value
    vector_value : Values → Value
    deque_value : Values → Value
    other_value : ℕ → List ℕ → Value

  pub data Values : Type 0 where
    nil : Values
    cons : Value → Values → Values

unfoldable pub of_list : List Value → Values
of_list [] = nil
of_list (v ∷ vs) = cons v (of_list vs)

unfoldable pub to_list : Values → List Value
to_list nil = []
to_list (cons v vs) = v ∷ to_list vs

pub to_list-of_list : (vs : List Value) → to_list (of_list vs) ≡ vs
unfolding to_list of_list
to_list-of_list [] = refl
to_list-of_list (v ∷ vs) = ap (◌∷◌ v) (to_list-of_list vs)
