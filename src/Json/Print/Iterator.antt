-- ===== src/Json/Print/Iterator.antt =====
-- The iterator over the code points of a text, on texts that the encoder writes.
use cyng.Base.{
  ℕ, zero, suc, ◌+◌, ◌*◌, ◌/◌, ◌%◌, ◌≤◌, ◌<◌, List, [], ◌∷◌, ◌++◌, ◌≡◌, refl, ◌∙◌, sym, ap, some,
  true, false, arith, All, length, length-append, subst,
}
use cyng.Base.Result.{ok}
use mathlib.Core.Option.{some-injective}
use cyng.Utf8
use cyng.Utf8.{U8ToU32, utf8_byte_count, encode, encode_all}
use cyng.Utf8.Encode.{encode_one, encode_two, encode_three, encode_four}
use cyng.Utf8.Decode.{partly, put_lead, put_next, put_last, glyph_three, glyph_four}
use cyng.Utf8.RoundTrip.{Survives, one, two, three, four, widths, encode_all_parts, init-IsIdle}
use cyng.Json.Print.{glyph_from, starts_glyph, code_points, code_points_up_to}

glyph_pending :
    (s t : U8ToU32) (c v : ℕ) (rest : List ℕ)
    → Utf8.put s c ≡ (t, v, false)
    → glyph_from s (c ∷ rest) ≡ glyph_from t rest
unfolding glyph_from
glyph_pending s t c v rest e = rw e

glyph_complete :
    (s t : U8ToU32) (c v : ℕ) (rest : List ℕ)
    → Utf8.put s c ≡ (t, v, true)
    → glyph_from s (c ∷ rest) ≡ ok (v, rest)
unfolding glyph_from
glyph_complete s t c v rest e = rw e

put_one : (x : ℕ) → x < 0x80 → Utf8.put Utf8.init x ≡ (record Utf8.init { value = x }, x, true)
unfolding Utf8.put
put_one x h = ground arith

glyph_two : (x y : ℕ) → x < 256 → Utf8.glyph 2 (x ∷ y ∷ 0 ∷ 0 ∷ []) ≡ x % 32 * 64 + y % 64
unfolding Utf8.glyph
glyph_two x y h = omega arith

module _ (x : ℕ) (rest : List ℕ) (lead : x < 256) where
  first :
      (size : ℕ)
      → 0x80 ≤ x
      → utf8_byte_count x ≡ size
      → 1 < size
      → (cs : List ℕ)
      → glyph_from Utf8.init (x ∷ cs) ≡ glyph_from (partly (x ∷ 0 ∷ 0 ∷ 0 ∷ []) 1 size 0) cs
  first size h e k cs =
      glyph_pending _ _ x _ cs (put_lead Utf8.init x size 0 0 0 0 init-IsIdle refl h e k)

  from_two :
      (y : ℕ)
      → 0xC0 ≤ x
      → x < 0xD0
      → glyph_from Utf8.init (x ∷ y ∷ rest) ≡ ok (x % 32 * 64 + y % 64, rest)
  from_two y h k =
      let sized : utf8_byte_count x ≡ 2 = unfold utf8_byte_count in ground arith in
      first 2 (omega arith) sized (omega arith) (y ∷ rest)
      ∙ glyph_complete _ _ y _ rest (put_last (x ∷ 0 ∷ 0 ∷ 0 ∷ []) 1 2 0 y refl)
      ∙ rw (glyph_two x y lead)

  from_three :
      (y z : ℕ)
      → 0xE0 ≤ x
      → x < 0xF0
      → glyph_from Utf8.init (x ∷ y ∷ z ∷ rest) ≡ ok (x % 16 * 4096 + y % 64 * 64 + z % 64, rest)
  from_three y z h k =
      let sized : utf8_byte_count x ≡ 3 = unfold utf8_byte_count in ground arith in
      first 3 (omega arith) sized (omega arith) (y ∷ z ∷ rest)
      ∙ glyph_pending _ _ y _ _ (put_next (x ∷ 0 ∷ 0 ∷ 0 ∷ []) 1 3 0 y (omega arith))
      ∙ glyph_complete _ _ z _ rest (put_last (x ∷ y ∷ 0 ∷ 0 ∷ []) 2 3 0 z refl)
      ∙ rw (glyph_three x y z 0 lead)

  from_four :
      (y z w : ℕ)
      → 0xF0 ≤ x
      → glyph_from Utf8.init (x ∷ y ∷ z ∷ w ∷ rest)
        ≡ ok (x % 8 * 262144 + y % 64 * 4096 + z % 64 * 64 + w % 64, rest)
  from_four y z w h =
      let sized : utf8_byte_count x ≡ 4 = unfold utf8_byte_count in ground arith in
      first 4 (omega arith) sized (omega arith) (y ∷ z ∷ w ∷ rest)
      ∙ glyph_pending _ _ y _ _ (put_next (x ∷ 0 ∷ 0 ∷ 0 ∷ []) 1 4 0 y (omega arith))
      ∙ glyph_pending _ _ z _ _ (put_next (x ∷ y ∷ 0 ∷ 0 ∷ []) 2 4 0 z (omega arith))
      ∙ glyph_complete _ _ w _ rest (put_last (x ∷ y ∷ z ∷ 0 ∷ []) 3 4 0 w refl)
      ∙ rw (glyph_four x y z w lead)

-- The bytes of one code point are one glyph.
record IsGlyph (c b : ℕ) (bs : List ℕ) : Type 0 where
  written : encode c ≡ some (b ∷ bs)
  starts : starts_glyph b ≡ true
  read_back : (rest : List ℕ) → glyph_from Utf8.init (b ∷ (bs ++ rest)) ≡ ok (c, rest)

starts_low : (b : ℕ) → b < 0x80 → starts_glyph b ≡ true
unfolding starts_glyph
starts_low b h = ground arith

starts_high : (b : ℕ) → 0xC0 ≤ b → starts_glyph b ≡ true
unfolding starts_glyph
starts_high b h = ground arith

to_value :
    (cs rest : List ℕ) {v w : ℕ}
    → v ≡ w
    → glyph_from Utf8.init cs ≡ ok (v, rest)
    → glyph_from Utf8.init cs ≡ ok (w, rest)
to_value cs rest e h = rw (← e) h

IsGlyph-of : (c : ℕ) → Survives c → (b : ℕ) × (bs : List ℕ) × IsGlyph c b bs
IsGlyph-of c h = elim (widths c h) [
  | one k ↦ (
    c,
    [],
    record {
      written = encode_one c k;
      starts = starts_low c k;
      read_back = λ rest. glyph_complete _ _ c c rest (put_one c k);
    },
  )
  | two k l ↦ (
    c / 64 + 0xC0,
    (c % 64 + 0x80) ∷ [],
    record {
      written = encode_two c k (omega arith);
      starts = starts_high _ (omega arith);
      read_back = λ rest.
          to_value _ rest (omega arith) (
            from_two (c / 64 + 0xC0) rest (omega arith) (c % 64 + 0x80) (omega arith)
              (omega arith));
    },
  )
  | three k l ↦ (
    c / 64 / 64 + 0xE0,
    (c / 64 % 64 + 0x80) ∷ (c % 64 + 0x80) ∷ [],
    record {
      written = encode_three c k l;
      starts = starts_high _ (omega arith);
      read_back = λ rest. to_value _ rest (omega arith) (
          from_three (c / 64 / 64 + 0xE0) rest (omega arith) (c / 64 % 64 + 0x80) (c % 64 + 0x80)
            (omega arith) (omega arith));
    },
  )
  | four k l ↦ (
    c / 64 / 64 / 64 + 0xF0,
    (c / 64 / 64 % 64 + 0x80) ∷ (c / 64 % 64 + 0x80) ∷ (c % 64 + 0x80) ∷ [],
    record {
      written = encode_four c k l;
      starts = starts_high _ (omega arith);
      read_back = λ rest. to_value _ rest (omega arith) (
          from_four (c / 64 / 64 / 64 + 0xF0) rest (omega arith) (c / 64 / 64 % 64 + 0x80)
            (c / 64 % 64 + 0x80) (c % 64 + 0x80) (omega arith));
    },
  )
]

code_points_cons :
    (fuel c l : ℕ) (ls r cs : List ℕ)
    → IsGlyph c l ls
    → code_points_up_to fuel r ≡ ok cs
    → code_points_up_to (suc fuel) (l ∷ (ls ++ r)) ≡ ok (c ∷ cs)
unfolding code_points_up_to
code_points_cons fuel c l ls r cs g e = rw (g.starts, g.read_back r, e)

-- The text of a first code point and others.
parts :
    (c : ℕ) (cs bs : List ℕ)
    → Survives c
    → encode_all (c ∷ cs) ≡ some bs
    → (l : ℕ) × (ls : List ℕ) × (r : List ℕ) × IsGlyph c l ls
      × (encode_all cs ≡ some r)
      × (bs ≡ l ∷ (ls ++ r))
parts c cs bs h e =
    let (b, r, x, y, whole) = encode_all_parts c cs bs e in
    let (l, ls, g) = IsGlyph-of c h in
    (l, ls, r, g, y, whole ∙ ap (λ a. a ++ r) (some-injective b (l ∷ ls) (sym x ∙ g.written)))

code_points_fuel :
    (cs bs : List ℕ) (fuel : ℕ)
    → All Survives cs
    → encode_all cs ≡ some bs
    → length bs ≤ fuel
    → code_points_up_to fuel bs ≡ ok cs
unfolding code_points_up_to encode_all
code_points_fuel [] bs fuel h e k =
    subst (λ b. code_points_up_to fuel b ≡ ok []) (some-injective [] bs e) refl
code_points_fuel (c ∷ cs) bs zero h e k =
    let (l, ls, r, g, y, whole) = parts c cs bs h.0 e in absurd (omega (arith, ap length whole))
code_points_fuel (c ∷ cs) bs (suc fuel) h e k =
    let (l, ls, r, g, y, whole) = parts c cs bs h.0 e in
    let shorter : length r ≤ fuel = omega (arith, ap length whole, length-append ls r) in
    rw whole (code_points_cons fuel c l ls r cs g (code_points_fuel cs r fuel h.1 y shorter))

-- The iterator runs through exactly the code points of a text that is written as UTF-8, none of them
-- from 0x400 to 0x7FF, and never past its end.
pub code_points-encode_all :
    (cs bs : List ℕ) → All Survives cs → encode_all cs ≡ some bs → code_points bs ≡ ok cs
unfolding code_points
code_points-encode_all cs bs h e = code_points_fuel cs bs (length bs) h e (omega arith)
