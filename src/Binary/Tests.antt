-- ===== src/Binary/Tests.antt =====
-- The binary serializer and parser at concrete bytes.
use cyng.Base.{ℕ, List, [], ◌∷◌, ◌++◌, ◌≡◌, refl, inr, true, arith}
use cyng.Base.Result.{Result, ok, err, assertion}
use cyng.Vm.Value.{Value, size_value, text_value, attr_value, tuple_value, other_value, nil, cons}
use cyng.Vm.Stack.{push}
use cyng.Vm.Program.{run}
use cyng.Vm.Program.Loop.{finished}
use cyng.Binary.Parser.{Parser, State, deserialize, read, init}
use cyng.Binary.Parser.Framing.{at, read-serialize_tlv}
use cyng.Binary.Serializer.{serialize, serialize_tlv}
use cyng.Binary.Data.{mirror}
use cyng.Binary.RoundTrip.{transfer}
use cyng.Binary.Number.{to_numeric, from_bytes}
use cyng.Binary.Tag.{exact_size}
use cyng.Binary.Parser.{
  put_in, put_type, put_length, put_value, set_length, length_of, size_of_length_field, deliver,
  make_object,
}
use cyng.Binary.Parser.Types.{IsTyped, read-IsTyped}

abbrev no_foreign : ℕ → List ℕ → Result Value
no_foreign tag bytes = err assertion

-- The tuple of an attribute and a truth value.
abbrev sample : Value
sample =
    tuple_value
      (cons (attr_value 7 (text_value (97 ∷ 98 ∷ []))) (cons (other_value 1 (1 ∷ [])) nil))

-- The text "ab": its type, its length and its characters.
serialize_text : serialize (text_value (97 ∷ 98 ∷ [])) ≡ 0 ∷ 14 ∷ 2 ∷ 97 ∷ 98 ∷ []
unfolding serialize
serialize_text = refl

transfer_example :
    (p : Parser) × (read no_foreign init (serialize sample) ≡ ok p)
    × (p.state ≡ State.type)
    × (run true (record { mem = p.delivered; pc = 0; stack = record { items = []; bp = 0 } })
        ≡ finished true p.delivered (push (mirror sample) (record { items = []; bp = 0 })))
unfolding cyng.Vm.Value.to_list
transfer_example =
    transfer true no_foreign sample (record { items = []; bp = 0 })
      (
        omega arith,
        ((omega arith, omega arith), ((omega arith, omega arith, inr (refl, inr refl)), tt)),
      )

text_kept : deserialize no_foreign 14 (97 ∷ 98 ∷ []) ≡ ok (text_value (97 ∷ 98 ∷ []))
unfolding deserialize cyng.Binary.Tag.exact_size cyng.Binary.Parser.make_object
text_kept = refl

read-serialize_tlv_example :
    read no_foreign (at [] State.type [] 0 0) (serialize_tlv 14 (97 ∷ 98 ∷ []) ++ 0 ∷ 9 ∷ [])
    ≡ read no_foreign (at (text_value (97 ∷ 98 ∷ []) ∷ []) State.type [] 14 0) (0 ∷ 9 ∷ [])
read-serialize_tlv_example =
    read-serialize_tlv no_foreign [] 14 0 0 (97 ∷ 98 ∷ []) (0 ∷ 9 ∷ []) (text_value (97 ∷ 98 ∷ []))
      (omega arith) (omega arith) text_kept

-- A library that keeps the bytes.
abbrev kept : ℕ → List ℕ → Result Value
kept tag bytes = ok (other_value tag bytes)

read-IsTyped_example :
    IsTyped kept
      (λ tag bytes. refl)
      (record {
        state = State.type;
        buffer = [];
        type = 14;
        length = 0;
        delivered = text_value (97 ∷ 98 ∷ []) ∷ [];
      })
unfolding read put_in put_type put_length put_value set_length length_of size_of_length_field
    deliver deserialize exact_size make_object to_numeric from_bytes
read-IsTyped_example = read-IsTyped kept (λ tag bytes. refl) (0 ∷ 14 ∷ 2 ∷ 97 ∷ 98 ∷ []) refl
