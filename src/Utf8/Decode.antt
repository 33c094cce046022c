-- ===== src/Utf8/Decode.antt =====
-- What the decoder makes of a lead byte and the bytes behind it.
use cyng.Base.{
  ℕ, ◌+◌, ◌*◌, ◌%◌, ◌≤◌, ◌<◌, ◌≡◌, refl, ◌∙◌, List, [], ◌∷◌, ◌++◌, ◌⊎◌, arith, length, set, true,
  false,
}
use cyng.Utf8.{U8ToU32, utf8_byte_count, sign_extend, glyph, put, sanitize}

-- The decoder is between two glyphs.
pub record IsIdle (s : U8ToU32) : Type 0 where
  pub between : s.size ≡ 0
  pub four : length s.chars ≡ 4

four_cells :
    (xs : List ℕ)
    → length xs ≡ 4
    → (a : ℕ) × (b : ℕ) × (c : ℕ) × (d : ℕ) × (xs ≡ a ∷ b ∷ c ∷ d ∷ [])
four_cells (a ∷ b ∷ c ∷ d ∷ []) h = (a, b, c, d, refl)
four_cells [] h = absurd (omega arith)
four_cells (a ∷ []) h = absurd (omega arith)
four_cells (a ∷ b ∷ []) h = absurd (omega arith)
four_cells (a ∷ b ∷ c ∷ []) h = absurd (omega arith)
four_cells (a ∷ b ∷ c ∷ d ∷ e ∷ r) h = absurd (omega arith)

-- The code points read from `bytes ++ rest` are `vs`, and then those of `rest` from an idle decoder.
abbrev pub Emits : U8ToU32 → List ℕ → List ℕ → List ℕ → Type 0
Emits s text vs rest = (t : U8ToU32) × IsIdle t × (sanitize s text ≡ vs ++ sanitize t rest)

module _ (s : U8ToU32) (idle : IsIdle s) (rest : List ℕ) where
  pub sanitize_one : (x : ℕ) → x < 0x80 → Emits s (x ∷ rest) (x ∷ []) rest
  unfolding sanitize put
  sanitize_one x h =
      let (a, b, c, d, e) = four_cells s.chars idle.four in
      (record s { value = x }, record { between = idle.between; four = idle.four }, ground arith)

  -- A byte from 0x80 to 0xBF or from 0xD0 to 0xDF, where a glyph begins.
  pub sanitize_lone :
      (x : ℕ)
      → 0x80 ≤ x
      → x < 0xE0
      → (x < 0xC0) ⊎ (0xD0 ≤ x)
      → Emits s (x ∷ rest) (x % 128 ∷ []) rest
  unfolding sanitize put
  sanitize_lone x h h' k =
      let (a, b, c, d, e) = four_cells s.chars idle.four in
      (
        record { chars = x ∷ b ∷ c ∷ d ∷ []; pos = 1; size = 0; value = x % 128 },
        record { between = refl; four = refl },
        ground arith,
      )

  pub sanitize_two :
      (x y : ℕ) → 0xC0 ≤ x → x < 0xD0 → Emits s (x ∷ y ∷ rest) (((x % 32) * 64 + y % 64) ∷ []) rest
  unfolding sanitize put
  sanitize_two x y h h' =
      let (a, b, c, d, e) = four_cells s.chars idle.four in
      (
        record { chars = x ∷ y ∷ c ∷ d ∷ []; pos = 2; size = 0; value = (x % 32) * 64 + y % 64 },
        record { between = refl; four = refl },
        ground arith,
      )

-- One byte of a longer glyph at a time.
sanitize_pending :
    (s t : U8ToU32) (c v : ℕ) (rest : List ℕ)
    → put s c ≡ (t, v, false)
    → sanitize s (c ∷ rest) ≡ sanitize t rest
unfolding sanitize
sanitize_pending s t c v rest e = rw e

sanitize_complete :
    (s t : U8ToU32) (c v : ℕ) (rest : List ℕ)
    → put s c ≡ (t, v, true)
    → sanitize s (c ∷ rest) ≡ v ∷ sanitize t rest
unfolding sanitize
sanitize_complete s t c v rest e = rw e

abbrev pub partly : List ℕ → ℕ → ℕ → ℕ → U8ToU32
partly chars pos size value = record { chars = chars; pos = pos; size = size; value = value }

pub put_lead :
    (s : U8ToU32) (x size a b c d : ℕ)
    → IsIdle s
    → s.chars ≡ a ∷ b ∷ c ∷ d ∷ []
    → 0x80 ≤ x
    → utf8_byte_count x ≡ size
    → 1 < size
    → put s x ≡ (partly (x ∷ b ∷ c ∷ d ∷ []) 1 size s.value, sign_extend x, false)
unfolding put
put_lead s x size a b c d idle e h k l = ground arith

pub put_next :
    (chars : List ℕ) (pos size value c : ℕ)
    → pos + 1 < size
    → put (partly chars pos size value) c
      ≡ (partly (set chars pos c) (pos + 1) size value, sign_extend c, false)
unfolding put
put_next chars pos size value c h = ground arith

pub put_last :
    (chars : List ℕ) (pos size value c : ℕ)
    → pos + 1 ≡ size
    → let v = glyph size (set chars pos c) in
      put (partly chars pos size value) c ≡ (partly (set chars pos c) size 0 v, v, true)
unfolding put
put_last chars pos size value c h = ground arith

pub glyph_three :
    (x y z d : ℕ)
    → x < 256
    → glyph 3 (x ∷ y ∷ z ∷ d ∷ []) ≡ (x % 16) * 4096 + (y % 64) * 64 + z % 64
unfolding glyph
glyph_three x y z d h = omega arith

pub glyph_four :
    (x y z w : ℕ)
    → x < 256
    → glyph 4 (x ∷ y ∷ z ∷ w ∷ []) ≡ (x % 8) * 262144 + (y % 64) * 4096 + (z % 64) * 64 + w % 64
unfolding glyph
glyph_four x y z w h = omega arith

module _ (s : U8ToU32) (idle : IsIdle s) (rest : List ℕ) where
  pub sanitize_three :
      (x y z : ℕ)
      → 0xE0 ≤ x
      → x < 0xF0
      → Emits s (x ∷ y ∷ z ∷ rest) (((x % 16) * 4096 + (y % 64) * 64 + z % 64) ∷ []) rest
  sanitize_three x y z h h' =
      let (a, b, c, d, e) = four_cells s.chars idle.four in
      let sized : utf8_byte_count x ≡ 3 = unfold utf8_byte_count in ground arith in
      let last = x ∷ y ∷ z ∷ d ∷ [] in
      let v = (x % 16) * 4096 + (y % 64) * 64 + z % 64 in
      let g = glyph_three x y z d (omega arith) in
      (
        partly last 3 0 v,
        record { between = refl; four = refl },
        sanitize_pending s (partly (x ∷ b ∷ c ∷ d ∷ []) 1 3 s.value) x _ _
              (put_lead s x 3 a b c d idle e (omega arith) sized (omega arith))
            ∙ sanitize_pending _ _ y _ _ (put_next (x ∷ b ∷ c ∷ d ∷ []) 1 3 s.value y (omega arith))
            ∙ sanitize_complete _ _ z _ _ (put_last (x ∷ y ∷ c ∷ d ∷ []) 2 3 s.value z refl)
            ∙ rw g,
      )

  pub sanitize_four :
      (x y z w : ℕ)
      → 0xF0 ≤ x
      → x < 0x100
      → Emits s
          (x ∷ y ∷ z ∷ w ∷ rest)
          (((x % 8) * 262144 + (y % 64) * 4096 + (z % 64) * 64 + w % 64) ∷ [])
          rest
  sanitize_four x y z w h h' =
      let (a, b, c, d, e) = four_cells s.chars idle.four in
      let sized : utf8_byte_count x ≡ 4 = unfold utf8_byte_count in ground arith in
      let v = (x % 8) * 262144 + (y % 64) * 4096 + (z % 64) * 64 + w % 64 in
      let g = glyph_four x y z w (omega arith) in
      (
        partly (x ∷ y ∷ z ∷ w ∷ []) 4 0 v,
        record { between = refl; four = refl },
        sanitize_pending s (partly (x ∷ b ∷ c ∷ d ∷ []) 1 4 s.value) x _ _
              (put_lead s x 4 a b c d idle e (omega arith) sized (omega arith))
            ∙ sanitize_pending _ _ y _ _ (put_next (x ∷ b ∷ c ∷ d ∷ []) 1 4 s.value y (omega arith))
            ∙ sanitize_pending _ _ z _ _ (put_next (x ∷ y ∷ c ∷ d ∷ []) 2 4 s.value z (omega arith))
            ∙ sanitize_complete _ _ w _ _ (put_last (x ∷ y ∷ z ∷ d ∷ []) 3 4 s.value w refl)
            ∙ rw g,
      )
