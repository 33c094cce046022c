-- ===== src/Utf8/Encode.antt =====
-- The bytes that the encoder writes for a code point of each width.
use cyng.Base.{ℕ, ◌+◌, ◌/◌, ◌%◌, ◌≤◌, ◌<◌, ◌≡◌, [], ◌∷◌, some, none, arith}
use cyng.Base.Bits.{bit_or-one, bit_or-two, bit_or-three, bit_or-four, bit_or-continuation}
use cyng.Utf8.{encode}

pub encode_one : (c : ℕ) → c < 0x80 → encode c ≡ some (c ∷ [])
unfolding encode
encode_one c h = ground (arith, bit_or-one c)

pub encode_two :
    (c : ℕ) → 0x80 ≤ c → c < 0x800 → encode c ≡ some ((c / 64 + 0xC0) ∷ (c % 64 + 0x80) ∷ [])
unfolding encode
encode_two c h h' = ground (arith, bit_or-two (c / 64), bit_or-continuation (c % 64))

pub encode_three :
    (c : ℕ)
    → 0x800 ≤ c
    → c < 0x10000
    → encode c ≡ some ((c / 64 / 64 + 0xE0) ∷ (c / 64 % 64 + 0x80) ∷ (c % 64 + 0x80) ∷ [])
unfolding encode
encode_three c h h' = ground (
  arith,
  bit_or-three (c / 64 / 64),
  bit_or-continuation (c % 64),
  bit_or-continuation (c / 64 % 64),
)

pub encode_four :
    (c : ℕ)
    → 0x10000 ≤ c
    → c < 0x200000
    → encode c
      ≡ some (
          (c / 64 / 64 / 64 + 0xF0)
          ∷ (c / 64 / 64 % 64 + 0x80)
          ∷ (c / 64 % 64 + 0x80)
          ∷ (c % 64 + 0x80)
          ∷ [])
unfolding encode
encode_four c h h' = ground (
  arith,
  bit_or-four (c / 64 / 64 / 64),
  bit_or-continuation (c % 64),
  bit_or-continuation (c / 64 % 64),
  bit_or-continuation (c / 64 / 64 % 64),
)

-- The assertion of the encoder holds exactly below 0x200000.
pub encode_refuses : (c : ℕ) → c < 0x80000000 → 0x200000 ≤ c → encode c ≡ none
unfolding encode
encode_refuses c h h' = ground arith
