-- ===== src/Csv/Tokenizer/Escape.antt =====
-- The escape of a code point: a backslash, `u` and four hexadecimal digits.
use cyng.Base.{
  ℕ, suc, ◌+◌, ◌*◌, ◌<◌, List, [], ◌∷◌, ◌++◌, some, none, ◌≡◌, refl, ap, ◌∙◌, true, false, arith,
  ◌==◌, length, take, drop, length-append, append_assoc, All,
}
use cyng.Base.Result.{ok}
use cyng.Csv.Tokenizer.Validity.{is_hex-ne-one}
use cyng.Csv.Tokenizer.{
  State, Tokenizer, Conversion, put_in, find_last_of, hex_digit, is_hex, read_hex,
  convert_to_unicode, stay,
}

abbrev pub HasNoMarker : List ℕ → Type 0
HasNoMarker = All (λ c. (c == 1) ≡ false)

find_last_of-none : (ds : List ℕ) → HasNoMarker ds → find_last_of 1 ds ≡ none
unfolding find_last_of
find_last_of-none [] h = refl
find_last_of-none (d ∷ ds) h = rw (find_last_of-none ds h.1, h.0)

pub find_last_of_marker :
    (b ds : List ℕ) → HasNoMarker ds → find_last_of 1 (b ++ 1 ∷ ds) ≡ some (length b)
unfolding find_last_of
find_last_of_marker [] ds h = rw (find_last_of-none ds h)
find_last_of_marker (x ∷ b) ds h = rw (find_last_of_marker b ds h)

pub take_left : (b ds : List ℕ) → take (length b) (b ++ ds) ≡ b
take_left [] ds = refl
take_left (x ∷ b) ds = ap (◌∷◌ x) (take_left b ds)

suc_one : (n : ℕ) → suc n + 1 ≡ suc (n + 1)
suc_one n = omega arith

pub drop_left : (b ds : List ℕ) (x : ℕ) → drop (length b + 1) (b ++ x ∷ ds) ≡ ds
drop_left [] ds x = refl
drop_left (y ∷ b) ds x =
    ap (λ n. drop n (y ∷ (b ++ x ∷ ds))) (suc_one (length b)) ∙ drop_left b ds x

-- Fewer than four digits wait for more.
convert_short :
    (t : Tokenizer) (b ds : List ℕ)
    → HasNoMarker ds
    → length ds < 4
    → convert_to_unicode (record t { buffer = b ++ 1 ∷ ds })
      ≡ ok (stay (record t { buffer = b ++ 1 ∷ ds }))
unfolding convert_to_unicode
convert_short t b ds h lt = ground (arith, find_last_of_marker b ds h, length-append b (1 ∷ ds))

convert_four :
    (t : Tokenizer) (b ds : List ℕ)
    → HasNoMarker ds
    → length ds ≡ 4
    → convert_to_unicode (record t { buffer = b ++ 1 ∷ ds })
      ≡ ok (stay (record t { buffer = b ++ read_hex 0 ds ∷ []; state = State.string }))
unfolding convert_to_unicode
convert_four t b ds h four = ground (
  arith,
  find_last_of_marker b ds h,
  length-append b (1 ∷ ds),
  take_left b (1 ∷ ds),
  drop_left b ds 1,
)

abbrev pub IsHex : List ℕ → Type 0
IsHex = All (λ c. is_hex c ≡ true)

pub no_marker : (ds : List ℕ) → IsHex ds → HasNoMarker ds
no_marker [] h = tt
no_marker (d ∷ ds) h = (is_hex-ne-one d h.0, no_marker ds h.1)

module _ (u32_to_u8 : List ℕ → Conversion) where
  put_hex :
      (t : Tokenizer) (b : List ℕ) (d : ℕ)
      → is_hex d ≡ true
      → put_in u32_to_u8 State.unicode (record t { buffer = b }) d
        ≡ convert_to_unicode (record t { buffer = b ++ d ∷ [] })
  unfolding put_in
  put_hex t b d h = rw h

  -- Behind the marker, a digit is kept until there are four.
  pub put_digit :
      (t : Tokenizer) (b ds : List ℕ) (d : ℕ)
      → IsHex (ds ++ d ∷ [])
      → is_hex d ≡ true
      → length ds < 3
      → put_in u32_to_u8 State.unicode (record t { buffer = b ++ 1 ∷ ds }) d
        ≡ ok (stay (record t { buffer = b ++ 1 ∷ (ds ++ d ∷ []) }))
  put_digit t b ds d h hex lt =
      put_hex t (b ++ 1 ∷ ds) d hex
      ∙ rw append_assoc (
          convert_short t b (ds ++ d ∷ []) (no_marker (ds ++ d ∷ []) h)
            (omega (arith, length-append ds (d ∷ []))))

  -- The fourth digit replaces the marker and the digits by their value.
  pub put_last_digit :
      (t : Tokenizer) (b ds : List ℕ) (d : ℕ)
      → IsHex (ds ++ d ∷ [])
      → is_hex d ≡ true
      → length ds ≡ 3
      → put_in u32_to_u8 State.unicode (record t { buffer = b ++ 1 ∷ ds }) d
        ≡ ok
            (stay (record t { buffer = b ++ read_hex 0 (ds ++ d ∷ []) ∷ []; state = State.string }))
  put_last_digit t b ds d h hex e =
      put_hex t (b ++ 1 ∷ ds) d hex
      ∙ rw append_assoc (
          convert_four t b (ds ++ d ∷ []) (no_marker (ds ++ d ∷ []) h)
            (omega (arith, length-append ds (d ∷ []))))

read_hex_step :
    (n c d : ℕ) (cs : List ℕ)
    → hex_digit c ≡ some d
    → read_hex n (c ∷ cs) ≡ read_hex (n * 16 + d) cs
unfolding read_hex
read_hex_step n c d cs e = rw (e, read_hex)

pub read_hex_four :
    (d1 d2 d3 d4 v1 v2 v3 v4 : ℕ)
    → hex_digit d1 ≡ some v1
    → hex_digit d2 ≡ some v2
    → hex_digit d3 ≡ some v3
    → hex_digit d4 ≡ some v4
    → read_hex 0 (d1 ∷ d2 ∷ d3 ∷ d4 ∷ []) ≡ v1 * 4096 + v2 * 256 + v3 * 16 + v4
read_hex_four d1 d2 d3 d4 v1 v2 v3 v4 e1 e2 e3 e4 =
    read_hex_step 0 d1 v1 (d2 ∷ d3 ∷ d4 ∷ []) e1
    ∙ read_hex_step _ d2 v2 (d3 ∷ d4 ∷ []) e2
    ∙ read_hex_step _ d3 v3 (d4 ∷ []) e3
    ∙ read_hex_step _ d4 v4 [] e4
    ∙ unfold read_hex in omega arith
