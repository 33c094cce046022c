-- ===== src/Utf8/Tests.antt =====
-- The UTF-8 codec at concrete texts.
use cyng.Base.{ℕ, ◌<◌, ◌≡◌, refl, List, [], ◌∷◌, some, arith, length}
use cyng.Utf8.{init, put, encode, encode_all, sanitize, state_after, write_index}
use cyng.Utf8.Bounds.{write_index-lt}
use cyng.Utf8.RoundTrip.{sanitize-encode_all, sanitize-encode_lost}

-- "Aé€" and a code point of four bytes.
abbrev text : List ℕ
text = 0x41 ∷ 0xE9 ∷ 0x20AC ∷ 0x1F600 ∷ []

abbrev bytes : List ℕ
bytes = 0x41 ∷ 0xC3 ∷ 0xA9 ∷ 0xE2 ∷ 0x82 ∷ 0xAC ∷ 0xF0 ∷ 0x9F ∷ 0x98 ∷ 0x80 ∷ []

encode_text : encode_all text ≡ some bytes
unfolding encode_all encode
encode_text = refl

-- The letter with code point 0x416, which Cyrillic texts use, is read as two other characters.
zhe : sanitize init (0xD0 ∷ 0x96 ∷ []) ≡ 0x50 ∷ 0x16 ∷ []
unfolding sanitize put
zhe = refl

sanitize-encode_all_example :
    (bs : List ℕ) × (encode_all text ≡ some bs) × (sanitize init bs ≡ text)
sanitize-encode_all_example = sanitize-encode_all text (omega arith)

sanitize-encode_lost_example :
    (bs : List ℕ) × (encode 0x416 ≡ some bs) × (sanitize init bs ≡ 0x50 ∷ 0x16 ∷ [])
sanitize-encode_lost_example = sanitize-encode_lost 0x416 (omega arith) (omega arith)

write_index-lt_example :
    write_index (state_after init (0xE2 ∷ 0x82 ∷ []))
    < length (state_after init (0xE2 ∷ 0x82 ∷ [])).chars
write_index-lt_example =
    write_index-lt (0xE2 ∷ 0x82 ∷ []) init
      (record { four = refl; size_le = omega arith; pos_lt = λ h. absurd (h refl) }) (omega arith)
