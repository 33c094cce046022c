-- ===== src/Csv/Tokenizer/Validity.antt =====
-- The buffer of the tokenizer in each of its states.
use cyng.Base.{
  ℕ, ◌+◌, ◌-◌, ◌≤◌, List, [], ◌∷◌, ◌++◌, some, ◌≡◌, ◌≢◌, refl, true, false, arith, ◌==◌,
  if◌then◌else◌, length, length-append, Bool-cases, inl, inr, ◌∙◌, ◌⊎◌, ltb,
}
use cyng.Base.Result.{Result, ok, err, assertion, exception, length_error, out_of_range, undefined}
use cyng.Csv.Tokenizer.{
  State, Tokenizer, Step, Conversion, put_in, put, find_last_of, hex_digit, is_hex,
  convert_to_unicode, state_unicode, state_escape,
}

abbrev pub BufferIs : State → List ℕ → Type 0
BufferIs State.start b = b ≡ []
BufferIs State.separator b = b ≡ []
BufferIs State.eol b = b ≡ []
BufferIs State.literal b = b ≢ []
BufferIs State.unicode b = (pos : ℕ) × (find_last_of 1 b ≡ some pos) × (length b ≤ pos + 4)
BufferIs State.string b = Unit
BufferIs State.escape b = Unit
BufferIs State.error b = Unit

abbrev pub IsValid : Tokenizer → Type 0
IsValid t = BufferIs t.state t.buffer

-- A step goes well, or the conversion of the buffer throws.
abbrev pub GoesWell : Result Step → Type 0
GoesWell (ok st) = IsValid st.next
GoesWell (err (exception what)) = Unit
GoesWell (err assertion) = ⊥
GoesWell (err length_error) = ⊥
GoesWell (err out_of_range) = ⊥
GoesWell (err undefined) = ⊥

pub find_last_of-concat :
    (v x : ℕ) (xs : List ℕ)
    → find_last_of v (xs ++ x ∷ []) ≡ (if x == v then some (length xs) else find_last_of v xs)
unfolding find_last_of
find_last_of-concat v x [] = ground arith
find_last_of-concat v x (y ∷ xs) = ground (arith, find_last_of-concat v x xs)

concat-ne-nil : (xs : List ℕ) (x : ℕ) → xs ++ x ∷ [] ≢ []
concat-ne-nil [] x = λ e. cc
concat-ne-nil (y ∷ xs) x = λ e. cc

pub is_hex-ne-one : (c : ℕ) → is_hex c ≡ true → (c == 1) ≡ false
unfolding hex_digit
is_hex-ne-one c h = ground arith

convert-GoesWell :
    (t : Tokenizer) (pos : ℕ)
    → t.state ≡ State.unicode
    → find_last_of 1 t.buffer ≡ some pos
    → GoesWell (convert_to_unicode t)
unfolding convert_to_unicode
convert-GoesWell t pos s e =
    rw (e, convert_to_unicode)
      (elim (Bool-cases (ltb 4 (length t.buffer - pos))) [
        | inl long ↦ rw long tt
        | inr short ↦ rw (short, s) (pos, e, ground arith)
      ])

convert-ne-error :
    (t : Tokenizer) (st : Step)
    → t.state ≡ State.unicode
    → convert_to_unicode t ≡ ok st
    → st.next.state ≢ State.error
unfolding convert_to_unicode
convert-ne-error t st s e = ground arith

escape_next :
    (t : Tokenizer) (cp : ℕ)
    → ((state_escape t cp).next.state ≡ State.string)
      ⊎ ((state_escape t cp).next ≡ record t { buffer = t.buffer ++ 1 ∷ []; state = State.unicode })
unfolding state_escape
escape_next t cp = ground arith

module _ (u32_to_u8 : List ℕ → Conversion) where
  put_in-GoesWell :
      (s : State) (t : Tokenizer) (cp : ℕ)
      → t.state ≡ s
      → BufferIs s t.buffer
      → s ≢ State.error
      → GoesWell (put_in u32_to_u8 s t cp)
  unfolding put_in
  put_in-GoesWell State.start t cp e v ne = ground (arith, concat-ne-nil t.buffer cp)
  put_in-GoesWell State.literal t cp e v ne = ground (arith, concat-ne-nil t.buffer cp)
  put_in-GoesWell State.unicode t cp e v ne = elim (Bool-cases (is_hex cp)) [
    | inl hex ↦
        let (pos, found, near) = v in
        rw (hex, state_unicode)
          (convert-GoesWell (record t { buffer = t.buffer ++ cp ∷ [] }) pos e
            (find_last_of-concat 1 cp t.buffer ∙ rw (is_hex-ne-one cp hex) found))
    | inr other ↦ rw (other, state_unicode) tt
  ]
  put_in-GoesWell State.escape t cp e v ne = elim (escape_next t cp) [
    | inl text ↦ rw text tt
    | inr marker ↦ rw marker (
      length t.buffer,
      find_last_of-concat 1 1 t.buffer,
      omega (arith, length-append t.buffer (1 ∷ [])),
    )
  ]
  put_in-GoesWell State.error t cp e v ne = absurd (ne refl)
  put_in-GoesWell State.string t cp e v ne = ground arith
  put_in-GoesWell State.separator t cp e v ne = ground arith
  put_in-GoesWell State.eol t cp e v ne = ground arith

  -- From a valid tokenizer that is not in its error state, every code point leads to a valid
  -- tokenizer, or the conversion of a buffer throws; no assertion fails.
  pub put-GoesWell :
      (t : Tokenizer) (cp : ℕ) → IsValid t → t.state ≢ State.error → GoesWell (put u32_to_u8 t cp)
  put-GoesWell t cp v ne = put_in-GoesWell t.state t cp refl v ne

  put_in_error :
      (s : State) (t : Tokenizer) (cp : ℕ) (st : Step)
      → t.state ≡ s
      → put_in u32_to_u8 s t cp ≡ ok st
      → st.next.state ≡ State.error
      → (s ≡ State.unicode) × (is_hex cp ≡ false)
  unfolding put_in
  put_in_error State.unicode t cp st q e h =
      ground (arith, convert-ne-error (record t { buffer = t.buffer ++ cp ∷ [] }) st q)
  put_in_error State.escape t cp st q e h = ground (arith, escape_next t cp)
  put_in_error State.string t cp st q e h = ground arith
  put_in_error s t cp st q e h = ground arith

  -- The error state is entered only by a character that is no hexadecimal digit, behind `\u`.
  put_error :
      (t : Tokenizer) (cp : ℕ) (st : Step)
      → put u32_to_u8 t cp ≡ ok st
      → st.next.state ≡ State.error
      → (t.state ≡ State.unicode) × (is_hex cp ≡ false)
  put_error t cp st e h = put_in_error t.state t cp st refl e h
