-- ===== src/Json/Tokenizer/Progress.antt =====
-- The tokenizer refuses a code point at most twice.
use cyng.Base.{ℕ, ◌<◌, List, [], ◌∷◌, ◌++◌, ◌≡◌, true, false, arith}
use cyng.Base.Result.{ok}
use cyng.Csv.Tokenizer.{Conversion}
use cyng.Json.Tokenizer.{State, Tokenizer, Step, put_in, convert_to_unicode}

-- How often a code point can be refused from a state.
abbrev pub refusals : State → ℕ
refusals State.exponent = 2
refusals State.digits = 1
refusals State.number = 1
refusals State.fraction = 1
refusals State.literal = 1
refusals _ = 0

convert_accepts : (t : Tokenizer) (st : Step) → convert_to_unicode t ≡ ok st → st.advance ≡ true
unfolding convert_to_unicode
convert_accepts t st e = ground arith

module _ (u32_to_u8 : List ℕ → Conversion) where
  -- A refusal leads to a state with fewer refusals left.
  pub refusals_fall :
      (s : State) (t : Tokenizer) (cp : ℕ) (st : Step)
      → put_in u32_to_u8 s t cp ≡ ok st
      → st.advance ≡ false
      → refusals st.next.state < refusals s
  unfolding put_in
  refusals_fall State.unicode t cp st e f =
      ground (arith, convert_accepts (record t { buffer = t.buffer ++ cp ∷ [] }) st)
  refusals_fall State.string t cp st e f = ground arith
  refusals_fall s t cp st e f = ground arith
