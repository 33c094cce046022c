-- ===== src/Json/Tokenizer/Escape.antt =====
-- The escape of a code point: a backslash, `u` and four hexadecimal digits.
use cyng.Base.{
  ℕ, ◌<◌, List, [], ◌∷◌, ◌++◌, ◌≡◌, ◌∙◌, true, arith, length, length-append, append_assoc,
}
use cyng.Base.Result.{ok}
use cyng.Csv.Tokenizer.{Conversion, is_hex, read_hex}
use cyng.Csv.Tokenizer.Escape.{
  find_last_of_marker, take_left, drop_left, no_marker, HasNoMarker, IsHex,
}
use cyng.Json.Tokenizer.{State, Tokenizer, put_in, convert_to_unicode, stay}

-- Fewer than four digits wait for more.
convert_short :
    (b ds : List ℕ)
    → HasNoMarker ds
    → length ds < 4
    → let t : Tokenizer = record { state = State.unicode; buffer = b ++ 1 ∷ ds } in
      convert_to_unicode t ≡ ok (stay t)
unfolding convert_to_unicode
convert_short b ds h lt = ground (arith, find_last_of_marker b ds h, length-append b (1 ∷ ds))

convert_four :
    (b ds : List ℕ)
    → HasNoMarker ds
    → length ds ≡ 4
    → convert_to_unicode (record { state = State.unicode; buffer = b ++ 1 ∷ ds })
      ≡ ok (stay (record { state = State.string; buffer = b ++ read_hex 0 ds ∷ [] }))
unfolding convert_to_unicode
convert_four b ds h four = ground (
  arith,
  find_last_of_marker b ds h,
  length-append b (1 ∷ ds),
  take_left b (1 ∷ ds),
  drop_left b ds 1,
)

module _ (u32_to_u8 : List ℕ → Conversion) where
  put_hex :
      (b : List ℕ) (d : ℕ)
      → is_hex d ≡ true
      → put_in u32_to_u8 State.unicode (record { state = State.unicode; buffer = b }) d
        ≡ convert_to_unicode (record { state = State.unicode; buffer = b ++ d ∷ [] })
  unfolding put_in
  put_hex b d h = rw h

  -- Behind the marker, a digit is kept until there are four.
  pub put_digit :
      (b ds : List ℕ) (d : ℕ)
      → IsHex (ds ++ d ∷ [])
      → is_hex d ≡ true
      → length ds < 3
      → put_in u32_to_u8 State.unicode (record { state = State.unicode; buffer = b ++ 1 ∷ ds }) d
        ≡ ok (stay (record { state = State.unicode; buffer = b ++ 1 ∷ (ds ++ d ∷ []) }))
  put_digit b ds d h hex lt =
      put_hex (b ++ 1 ∷ ds) d hex
      ∙ rw append_assoc (
          convert_short b (ds ++ d ∷ []) (no_marker (ds ++ d ∷ []) h)
            (omega (arith, length-append ds (d ∷ []))))

  -- The fourth digit replaces the marker and the digits by their value.
  pub put_last_digit :
      (b ds : List ℕ) (d : ℕ)
      → IsHex (ds ++ d ∷ [])
      → is_hex d ≡ true
      → length ds ≡ 3
      → put_in u32_to_u8 State.unicode (record { state = State.unicode; buffer = b ++ 1 ∷ ds }) d
        ≡ ok (stay (record { state = State.string; buffer = b ++ read_hex 0 (ds ++ d ∷ []) ∷ [] }))
  put_last_digit b ds d h hex e =
      put_hex (b ++ 1 ∷ ds) d hex
      ∙ rw append_assoc (
          convert_four b (ds ++ d ∷ []) (no_marker (ds ++ d ∷ []) h)
            (omega (arith, length-append ds (d ∷ []))))
