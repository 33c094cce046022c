-- ===== src/Csv/Tokenizer/Progress.antt =====
-- The tokenizer refuses a code point at most once.
use cyng.Base.{ℕ, List, [], ◌∷◌, ◌++◌, ◌≡◌, true, false, arith}
use cyng.Base.Result.{ok}
use cyng.Csv.Tokenizer.{
  State, Tokenizer, Step, Conversion, put_in, put, state_start, convert_to_unicode,
}

module _ (u32_to_u8 : List ℕ → Conversion) where
  start_accepts : (t : Tokenizer) (cp : ℕ) → (state_start t cp).advance ≡ true
  unfolding state_start
  start_accepts t cp = ground arith

  convert_accepts : (t : Tokenizer) (st : Step) → convert_to_unicode t ≡ ok st → st.advance ≡ true
  unfolding convert_to_unicode
  convert_accepts t st e = ground arith

  refusal-start :
      (s : State) (t : Tokenizer) (cp : ℕ) (st : Step)
      → put_in u32_to_u8 s t cp ≡ ok st
      → st.advance ≡ false
      → st.next.state ≡ State.start
  unfolding put_in
  refusal-start State.unicode t cp st e f =
      ground (arith, convert_accepts (record t { buffer = t.buffer ++ cp ∷ [] }) st)
  refusal-start State.string t cp st e f = ground (arith)
  refusal-start s t cp st e f = ground (arith)

  -- A code point that is refused leaves the tokenizer at the start of a token, where the same code
  -- point is accepted.
  pub put-put :
      (t : Tokenizer) (cp : ℕ) (st : Step)
      → put u32_to_u8 t cp ≡ ok st
      → st.advance ≡ false
      → (again : Step) × (put u32_to_u8 st.next cp ≡ ok again) × (again.advance ≡ true)
  unfolding put_in
  put-put t cp st e f = (
    state_start st.next cp,
    rw (refusal-start t.state t cp st e f, put_in),
    start_accepts st.next cp,
  )
