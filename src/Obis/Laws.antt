-- ===== src/Obis/Laws.antt =====
-- The number of a code, and the first code of a list.
use cyng.Base.{
  ℕ, suc, ◌-◌, ◌/◌, ◌%◌, ◌<◌, List, [], ◌∷◌, ◌++◌, reverse, ◌≡◌, refl, ap, ◌∙◌, arith, true,
  Bool-cases, inl, inr, ltb, ◌==◌, length, length-reverse,
}
use mathlib.Core.List.{reverse-reverse}
use cyng.Base.Result.{ok, ◌>>=◌}
use cyng.Binary.Number.{to_buffer, from_bytes, from_bytes-append}
use cyng.Obis.{Obis, to_uint64, make_obis, depth, depth_back, descend, descend_back}

to_buffer-from_bytes :
    (k : ℕ) (cs : List ℕ) (c : ℕ)
    → c < 256
    → to_buffer k (from_bytes 0 cs) ≡ cs
    → to_buffer (suc k) (from_bytes 0 (cs ++ c ∷ [])) ≡ cs ++ c ∷ []
unfolding to_buffer
to_buffer-from_bytes k cs c h e =
    let front : from_bytes 0 (cs ++ c ∷ []) / 256 ≡ from_bytes 0 cs =
      omega (arith, from_bytes-append cs 0 c) in
    let last : from_bytes 0 (cs ++ c ∷ []) % 256 ≡ c = omega (arith, from_bytes-append cs 0 c) in
    rw (front, last, e) refl

-- A code of six bytes whose medium is not 255 has a number, and is made again from it.
pub make_obis-to_uint64 :
    (a b c d e f : ℕ)
    → a < 255
    → b < 256
    → c < 256
    → d < 256
    → e < 256
    → f < 256
    → (to_uint64 (a ∷ b ∷ c ∷ d ∷ e ∷ f ∷ []) >>= λ n. ok (make_obis n))
      ≡ ok (a ∷ b ∷ c ∷ d ∷ e ∷ f ∷ [])
unfolding to_uint64
make_obis-to_uint64 a b c d e f ha hb hc hd he hf =
    let o : Obis = a ∷ b ∷ c ∷ d ∷ e ∷ f ∷ [] in
    let small : ltb (from_bytes 0 o) 0xFFFFFFFFFFFF ≡ true = ground arith in
    let six : make_obis (from_bytes 0 o) ≡ to_buffer 6 (from_bytes 0 o) =
      unfold make_obis to_buffer in refl in
    let digits : to_buffer 6 (from_bytes 0 o) ≡ o =
      to_buffer-from_bytes 5 (a ∷ b ∷ c ∷ d ∷ e ∷ []) f hf (
        to_buffer-from_bytes 4 (a ∷ b ∷ c ∷ d ∷ []) e he (
          to_buffer-from_bytes 3 (a ∷ b ∷ c ∷ []) d hd (
            to_buffer-from_bytes 2 (a ∷ b ∷ []) c hc (
              to_buffer-from_bytes 1 (a ∷ []) b hb
                (to_buffer-from_bytes 0 [] a (omega arith) (unfold to_buffer in refl)))))) in
    rw small (ap ok (six ∙ digits))

depth-descend_back :
    (p : ℕ) (cs : List ℕ)
    → (p == 255) ≡ true
    → depth_back cs < length cs
    → depth_back (descend_back p cs) ≡ depth_back cs
unfolding depth_back descend_back
depth-descend_back p [] e h = absurd (omega (arith, h))
depth-descend_back p (c ∷ cs) e h = elim (Bool-cases (c == 255)) [
  | inl all ↦
      let inside : depth_back cs < length cs = omega (arith, rw all at h) in
      rw (all, e) (ap suc (depth-descend_back c cs all inside))
  | inr other ↦ rw other refl
]

depth-descend_reversed :
    (r : List ℕ)
    → 0 < depth_back r
    → depth_back r < length r
    → depth_back (reverse (elim r [ [] ↦ [] | p ∷ cs ↦ reverse (descend_back p cs) ]))
      ≡ depth_back r - 1
unfolding depth_back
depth-descend_reversed [] h k = absurd (omega (arith, h))
depth-descend_reversed (p ∷ cs) h k = elim (Bool-cases (p == 255)) [
  | inl all ↦
      let inside : depth_back cs < length cs = omega (arith, rw all at k) in
      rw (reverse-reverse (descend_back p cs), all)
        (depth-descend_back p cs all inside ∙ omega arith)
  | inr other ↦ absurd (omega (arith, rw other at h))
]

-- For a code with some but not all bytes 255 at its end, `descend` gives a code with one of them less.
depth-descend : (o : Obis) → 0 < depth o → depth o < length o → depth (descend o) ≡ depth o - 1
unfolding depth descend
depth-descend o h k = depth-descend_reversed (reverse o) h (omega (arith, k, length-reverse o))
