-- ===== src/Binary/Parser/Unread.antt =====
-- What the parser does not read, though include/cyng/obj/tag.hpp or the length field has room for it.
use cyng.Base.{
  ℕ, ◌+◌, ◌-◌, ◌^◌, ◌≤◌, ◌<◌, false, List, [], ◌∷◌, ◌≡◌, refl, arith, ltb, length, Bool-cases, inl,
  inr, ◌==◌,
}
use cyng.Base.Result.{Result, err, assertion, length_error}
use cyng.Vm.Value.{Value}
use cyng.Binary.Tag.{tc_color_16, exact_size}
use cyng.Binary.Parser.{
  State, deserialize, make_object, put_in, put_length, size_of_length_field, set_length, length_of,
  read,
}
use cyng.Binary.Parser.Framing.{at}

module _ (make_foreign : ℕ → List ℕ → Result Value) where
  -- A colour of four 16-bit numbers is never read: whatever its bytes are, an assertion fails.
  deserialize-color_16 :
      (bytes : List ℕ) → deserialize make_foreign tc_color_16 bytes ≡ err assertion
  unfolding deserialize exact_size make_object
  deserialize-color_16 bytes = elim (Bool-cases (length bytes == 8)) [
    | inl e ↦ rw e refl
    | inr e ↦ rw e refl
  ]

  -- A length of one byte from 128 on is taken for a negative number, and the parser throws before it
  -- reads the value.
  read-negative_length :
      (d : List Value) (tag n c : ℕ) (rest : List ℕ)
      → 128 ≤ c
      → c < 256
      → read make_foreign (at d State.length [] tag n) (c ∷ rest) ≡ err length_error
  unfolding read put_in put_length size_of_length_field set_length length_of
  read-negative_length d tag n c rest h k =
      let plain : (c == 126) ≡ false = ground arith in
      let long : (c == 127) ≡ false = ground arith in
      let negative : ltb c 128 ≡ false = ground arith in
      let huge : ltb (c + 2 ^ 64 - 256) (2 ^ 63) ≡ false = ground arith in
      rw (plain, long, negative, huge) refl
