-- ===== src/Json/Value.antt =====
-- The objects that the JSON parser makes, those it keeps on its stack, and the maps of parameters.
use cyng.Base.{ℕ, Bool, true, false, List, [], ◌∷◌, ltb, ◌==◌, if◌then◌else◌, ◌≡◌, refl, ap}

-- A `std::int64_t`; `negative n` is -(n + 1).
pub data Int64 : Type 0 where
  positive : ℕ → Int64
  negative : ℕ → Int64

-- `text` holds the bytes of a `std::string`, `real` the bit pattern of a `double`; `eod` marks the
-- start of a container on the stack.
mutual
  pub data Value : Type 0 where
    null : Value
    bool : Bool → Value
    integer : Int64 → Value
    real : ℕ → Value
    text : List ℕ → Value
    param : List ℕ → Value → Value
    vector : Values → Value
    param_map : Fields → Value
    eod : Value

  pub data Values : Type 0 where
    nil : Values
    cons : Value → Values → Values

  -- A `std::map` by rising key.
  pub data Fields : Type 0 where
    end : Fields
    field : List ℕ → Value → Fields → Fields

unfoldable pub of_list : List Value → Values
of_list [] = nil
of_list (v ∷ vs) = cons v (of_list vs)

unfoldable pub to_list : Values → List Value
to_list nil = []
to_list (cons v vs) = v ∷ to_list vs

pub of_list-to_list : (vs : Values) → of_list (to_list vs) ≡ vs
unfolding of_list to_list
of_list-to_list nil = refl
of_list-to_list (cons v vs) = ap (cons v) (of_list-to_list vs)

-- `operator<` of two strings.
unfoldable pub text_lt : List ℕ → List ℕ → Bool
text_lt s [] = false
text_lt [] (d ∷ t) = true
text_lt (c ∷ s) (d ∷ t) =
    let rest = text_lt s t in if ltb c d then true else if c == d then rest else false

-- `std::map::emplace`, which keeps the value of a key that is there.
unfoldable pub emplace : List ℕ → Value → Fields → Fields
unfolding text_lt
emplace k v end = field k v end
emplace k v (field j w fs) =
    let rest = emplace k v fs in
    if text_lt k j
    then field k v (field j w fs)
    else if text_lt j k
    then field j w rest
    else field j w fs

unfoldable pub is_eod : Value → Bool
is_eod eod = true
is_eod _ = false

-- `value_cast<std::string>`, with the empty string for any other object.
unfoldable pub as_text : Value → List ℕ
as_text (text t) = t
as_text _ = []

unfoldable pub is_text : Value → Bool
is_text (text t) = true
is_text _ = false

-- `container_cast<param_t>`, with an empty parameter for any other object.
unfoldable pub as_param : Value → List ℕ × Value
as_param (param k v) = (k, v)
as_param _ = ([], null)
