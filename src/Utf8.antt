-- ===== src/Utf8.antt =====
-- src/io/src/parser/utf-8.cpp and include/cyng/io/parser/utf-8.hpp: `u8_to_u32`, `sanitizer`,
-- `u32_to_u8` and the range of bytes of `u32_to_u8_iterator`. A `char` is the number 0 to 255 of its
-- bit pattern.
pub mod Bounds
pub mod Encode
pub mod Decode
pub mod RoundTrip
mod Tests
use cyng.Base.{
  ℕ, zero, suc, ◌+◌, ◌-◌, ◌*◌, ◌/◌, ◌%◌, ◌^◌, bit_or, Bool, true, false, not, ◌||◌, ◌&&◌, List, [],
  ◌∷◌, ◌++◌, Option, none, some, ltb, leb, ◌==◌, if◌then◌else◌, set, take, ◌≡◌, refl, ap, inl, inr,
  Bool-cases, ◌>>=◌,
}

-- `c & 0xF0` selects the high four bits.
unfoldable pub utf8_byte_count : ℕ → ℕ
utf8_byte_count c =
    let high = c / 16 in
    if high == 0
    then 0
    else if high == 0xC
    then 2
    else if high == 0xE
    then 3
    else if high == 0xF
    then 4
    else 1

unfoldable pub utf8_char_size : ℕ → ℕ
utf8_char_size c =
    if ltb c 0x80
    then 1
    else if ltb c 0x800
    then 2
    else if ltb c 0x10000
    then 3
    else if ltb c 0x200000
    then 4
    else if ltb c 0x4000000
    then 5
    else if leb c 0x7FFFFFFF
    then 6
    else 0

unfoldable pub utf8_prefix : ℕ → ℕ
utf8_prefix size =
    if size == 2 then 0xC0 else if size == 3 then 0xE0 else if size == 4 then 0xF0 else 0

pub record U8ToU32 : Type 0 where
  pub chars : List ℕ
  pub pos : ℕ
  pub size : ℕ
  pub value : ℕ

abbrev pub init : U8ToU32
init = record { chars = 0 ∷ 0 ∷ 0 ∷ 0 ∷ []; pos = 0; size = 0; value = 0 }

-- `char` is signed: on the way to `std::uint32_t` it is extended by its sign.
abbrev sign_extend : ℕ → ℕ
sign_extend c = if ltb c 0x80 then c else c + 0xFFFFFF00

abbrev u32_mod : ℕ
u32_mod = 2 ^ 32

-- The body of the loop that builds a glyph.
abbrev shift_in : ℕ → ℕ → ℕ
shift_in v c = ((v * 64) % u32_mod + c % 64) % u32_mod

-- `for (idx = 1; idx < size_; ++idx)`, on the characters behind the first and the rounds left.
build : ℕ → List ℕ → ℕ → ℕ
build v cs zero = v
build v [] (suc n) = v
build v (c ∷ cs) (suc n) = build (shift_in v c) cs n

-- `value_ & masks_[size_ - 1]`
mask : ℕ → ℕ → ℕ
mask size v =
    if size == 1
    then v % 2 ^ 7
    else if size == 2
    then v % 2 ^ 11
    else if size == 3
    then v % 2 ^ 16
    else v % 2 ^ 21

unfoldable pub glyph : ℕ → List ℕ → ℕ
unfolding build mask
glyph size [] = 0
glyph size (c ∷ cs) = mask size (build c cs (size - 1))

-- The index of `char_` that the next byte of a glyph is written to.
abbrev pub write_index : U8ToU32 → ℕ
write_index s = if s.size == 0 then 0 else s.pos

-- The branch for a byte that belongs to a glyph.
unfoldable pub accumulate : U8ToU32 → ℕ → U8ToU32 × ℕ × Bool
unfolding utf8_byte_count glyph
accumulate s c =
    let start = write_index s in
    let size = if s.size == 0 then utf8_byte_count c else s.size in
    let chars = set s.chars start c in
    let v = glyph size chars in
    if start + 1 == size
    then (record { chars = chars; pos = start + 1; size = 0; value = v }, v, true)
    else (
      record { chars = chars; pos = start + 1; size = size; value = s.value },
      sign_extend c,
      false,
    )

-- `c > 0x7Fu` holds of a negative `char` too, since it is extended to an unsigned number.
unfoldable pub put : U8ToU32 → ℕ → U8ToU32 × ℕ × Bool
unfolding accumulate
put s c =
    if ltb 0x7F c || not (s.size == 0) then accumulate s c else (record s { value = c }, c, true)

-- `sanitizer::put` on each byte of a text: the code points for which the callback is called.
unfoldable pub sanitize : U8ToU32 → List ℕ → List ℕ
sanitize s [] = []
sanitize s (c ∷ cs) =
    let (s', v, complete) = put s c in if complete then v ∷ sanitize s' cs else sanitize s' cs

-- The decoder behind a text.
unfoldable pub state_after : U8ToU32 → List ℕ → U8ToU32
state_after s [] = s
state_after s (c ∷ cs) = state_after (put s c).0 cs

pub sanitize-append :
    (cs ds : List ℕ) (s : U8ToU32)
    → sanitize s (cs ++ ds) ≡ sanitize s cs ++ sanitize (state_after s cs) ds
unfolding sanitize state_after
sanitize-append [] ds s = refl
sanitize-append (c ∷ cs) ds s = elim (Bool-cases (put s c).2) [
  | inl whole ↦ rw whole (ap (◌∷◌ (put s c).1) (sanitize-append cs ds (put s c).0))
  | inr part ↦ rw part (sanitize-append cs ds (put s c).0)
]

pub state_after-append :
    (cs ds : List ℕ) (s : U8ToU32) → state_after s (cs ++ ds) ≡ state_after (state_after s cs) ds
unfolding state_after
state_after-append [] ds s = refl
state_after-append (c ∷ cs) ds s = state_after-append cs ds (put s c).0

-- `for (pos = 4; pos > 1; --pos)`, on the rounds left, with the characters behind `pos` set.
fill : ℕ → ℕ → ℕ → List ℕ → ℕ × List ℕ
fill zero size c done = (c, done)
fill (suc n) size c done =
    if leb (n + 2) size
    then fill n size (c / 64) (bit_or (c % 64) 0x80 ∷ done)
    else fill n size c (0 ∷ done)

-- `u32_to_u8::put`: the array and the size; `none` if the assertion `size < 5` fails.
unfoldable pub encode_array : ℕ → Option (List ℕ × ℕ)
unfolding fill utf8_char_size utf8_prefix
encode_array c =
    let size = utf8_char_size c in
    let (rest, done) = fill 3 size c [] in
    if ltb size 5 then some (bit_or rest (utf8_prefix size) % 256 ∷ done, size) else none

-- The bytes that `u32_to_u8_iterator` runs through for one code point.
unfoldable pub encode : ℕ → Option (List ℕ)
unfolding encode_array
encode c = elim (encode_array c) [ none ↦ none | some (chars, size) ↦ some (take size chars) ]

-- All bytes that the iterator runs through on a text of code points.
unfoldable pub encode_all : List ℕ → Option (List ℕ)
encode_all [] = some []
encode_all (c ∷ cs) = do bs ← encode c; rest ← encode_all cs; some (bs ++ rest)

unfoldable pub is_bom : ℕ → ℕ → ℕ → Bool
is_bom c1 c2 c3 = c1 == 0xEF && c2 == 0xBB && c3 == 0xBF
