-- ===== src/Binary/Parser/Length.antt =====
-- The length field, as the serializer writes it and as the parser reads it.
use cyng.Base.{ℕ, ◌^◌, ◌≤◌, ◌<◌, [], ◌∷◌, ◌≡◌, arith}
use cyng.Binary.Number.{to_buffer, to_numeric-to_buffer, Fits}
use cyng.Binary.Parser.{length_of, size_of_length_field}
use cyng.Binary.Serializer.{serialize_length}

eight_bytes : (n : ℕ) → n < 2 ^ 64 → Fits 8 n
eight_bytes n h = omega arith

pub serialize_length-one : (n : ℕ) → n < 0x7e → serialize_length n ≡ n ∷ []
unfolding serialize_length to_buffer
serialize_length-one n h = ground arith

pub serialize_length-three :
    (n : ℕ) → 0x7e ≤ n → n < 0xFFFF → serialize_length n ≡ 0x7e ∷ to_buffer 2 n
unfolding serialize_length
serialize_length-three n h k = ground arith

pub serialize_length-nine : (n : ℕ) → 0xFFFF ≤ n → serialize_length n ≡ 0x7f ∷ to_buffer 8 n
unfolding serialize_length
serialize_length-nine n h = ground arith

pub size_of_length_field-one : (n : ℕ) → n < 0x7e → size_of_length_field n ≡ 1
unfolding size_of_length_field
size_of_length_field-one n h = ground arith

pub length_of-one : (n : ℕ) → n < 0x7e → length_of 1 (n ∷ []) ≡ n
unfolding length_of
length_of-one n h = ground arith

pub length_of-three : (n : ℕ) → n < 0xFFFF → length_of 3 (0x7e ∷ to_buffer 2 n) ≡ n
unfolding length_of
length_of-three n h = to_numeric-to_buffer 2 n (omega arith)

pub length_of-nine : (n : ℕ) → n < 2 ^ 63 → length_of 9 (0x7f ∷ to_buffer 8 n) ≡ n
unfolding length_of
length_of-nine n h = to_numeric-to_buffer 8 n (omega arith)
