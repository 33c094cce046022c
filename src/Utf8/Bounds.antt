-- ===== src/Utf8/Bounds.antt =====
-- The decoder writes inside its array of four bytes.
use cyng.Base.{ℕ, zero, suc, ◌≤◌, ◌<◌, ◌≡◌, ◌≢◌, refl, List, [], ◌∷◌, arith, length, set, All}
use cyng.Utf8.{U8ToU32, utf8_byte_count, put, state_after, write_index}

pub record IsValid (s : U8ToU32) : Type 0 where
  pub four : length s.chars ≡ 4
  pub size_le : s.size ≤ 4
  pub pos_lt : s.size ≢ 0 → s.pos < s.size

length-set : (xs : List ℕ) (i v : ℕ) → length (set xs i v) ≡ length xs
length-set [] i v = refl
length-set (x ∷ xs) zero v = refl
length-set (x ∷ xs) (suc i) v = omega (arith, length-set xs i v)

utf8_byte_count-le : (c : ℕ) → utf8_byte_count c ≤ 4
unfolding utf8_byte_count
utf8_byte_count-le c = ground arith

pub put-IsValid : (s : U8ToU32) (c : ℕ) → c < 256 → IsValid s → IsValid (put s c).0
unfolding put
put-IsValid s c h v = record {
  four = ground (arith, length-set s.chars s.pos c, length-set s.chars 0 c);
  size_le = ground arith;
  pos_lt = ground arith;
}

-- The array index of every write lies inside the array of four bytes, whatever bytes come first.
pub write_index-lt :
    (cs : List ℕ) (s : U8ToU32)
    → IsValid s
    → All (λ c. c < 256) cs
    → write_index (state_after s cs) < length (state_after s cs).chars
unfolding state_after
write_index-lt [] s v h = ground (arith, v.four)
write_index-lt (c ∷ cs) s v h = write_index-lt cs (put s c).0 (put-IsValid s c h.0 v) h.1
