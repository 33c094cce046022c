-- ===== src/Utf8/RoundTrip.antt =====
-- The decoder reads back what the encoder writes, but for the code points whose lead byte is 0xD0
-- to 0xDF.
use cyng.Base.{
  ℕ, ◌+◌, ◌/◌, ◌%◌, ◌≤◌, ◌<◌, ◌≡◌, refl, sym, ap, ◌∙◌, ◌⊎◌, inl, inr, List, [], ◌∷◌, ◌++◌, some,
  none, append_assoc, arith, All, subst, Option-cases,
}
use mathlib.Core.Option.{some-injective}
use native.Mathlib.Decide.{dec_lt}
use cyng.Utf8.{U8ToU32, init, encode, encode_all, sanitize}
use cyng.Utf8.Encode.{encode_one, encode_two, encode_three, encode_four}
use cyng.Utf8.Decode.{
  IsIdle, Emits, sanitize_one, sanitize_two, sanitize_lone, sanitize_three, sanitize_four,
}

-- The code points that make the trip: below 0x200000, and not from 0x400 to 0x7FF.
abbrev pub Survives : ℕ → Type 0
Survives c = (c < 0x200000) × ((c < 0x400) ⊎ (0x800 ≤ c))

pub data Width (c : ℕ) : Type 0 where
  one : c < 0x80 → Width c
  two : 0x80 ≤ c → c < 0x400 → Width c
  three : 0x800 ≤ c → c < 0x10000 → Width c
  four : 0x10000 ≤ c → c < 0x200000 → Width c

pub widths : (c : ℕ) → Survives c → Width c
widths c (h, k) = elim (dec_lt c 0x80) [
  | yes p ↦ one p
  | no p ↦ elim (dec_lt c 0x400) [
    | yes q ↦ two (omega arith) q
    | no q ↦ elim (dec_lt c 0x10000) [ yes r ↦ three (omega arith) r | no r ↦ four (omega arith) h ]
  ]
]

Emits-value :
    (s : U8ToU32) (text rest : List ℕ) {v w : ℕ}
    → v ≡ w
    → Emits s text (v ∷ []) rest
    → Emits s text (w ∷ []) rest
Emits-value s text rest e h = subst (λ u. Emits s text (u ∷ []) rest) e h

pub init-IsIdle : IsIdle init
init-IsIdle = record { between = refl; four = refl }

-- Any code point that survives is written as some bytes, from which an idle decoder reads that one
-- code point, and is idle again.
pub sanitize-encode :
    (s : U8ToU32) (c : ℕ) (rest : List ℕ)
    → IsIdle s
    → Survives c
    → (bs : List ℕ) × (encode c ≡ some bs) × Emits s (bs ++ rest) (c ∷ []) rest
sanitize-encode s c rest idle h = elim (widths c h) [
  | one k ↦ (_, encode_one c k, sanitize_one s idle rest c k)
  | two k k' ↦ (
    _,
    encode_two c k (omega arith),
    Emits-value s _ rest (omega arith)
        (sanitize_two s idle rest (c / 64 + 0xC0) (c % 64 + 0x80) (omega arith) (omega arith)),
  )
  | three k k' ↦ (
    _,
    encode_three c k k',
    Emits-value s _ rest (omega arith) (
        sanitize_three s idle rest (c / 64 / 64 + 0xE0) (c / 64 % 64 + 0x80) (c % 64 + 0x80)
          (omega arith) (omega arith)),
  )
  | four k k' ↦ (
    _,
    encode_four c k k',
    Emits-value s _ rest (omega arith) (
        sanitize_four s idle rest (c / 64 / 64 / 64 + 0xF0) (c / 64 / 64 % 64 + 0x80)
          (c / 64 % 64 + 0x80) (c % 64 + 0x80) (omega arith) (omega arith)),
  )
]

pub encode_all-total : (cs : List ℕ) → All Survives cs → (bs : List ℕ) × (encode_all cs ≡ some bs)
unfolding encode_all
encode_all-total [] h = ([], refl)
encode_all-total (c ∷ cs) h =
    let (b, e, _) = sanitize-encode init c [] init-IsIdle h.0 in
    let (r, e') = encode_all-total cs h.1 in (b ++ r, rw (e, e'))

none-ne-some : (bs : List ℕ) → none ≡ some bs → ⊥
none-ne-some bs e = cc

pub encode_all_parts :
    (c : ℕ) (cs bs : List ℕ)
    → encode_all (c ∷ cs) ≡ some bs
    → (b : List ℕ) × (r : List ℕ) × (encode c ≡ some b) × (encode_all cs ≡ some r) × (bs ≡ b ++ r)
unfolding encode_all
encode_all_parts c cs bs e = elim (Option-cases (encode c)) [
  | inl x ↦ absurd (none-ne-some bs (sym (rw x) ∙ e))
  | inr (b, x) ↦ elim (Option-cases (encode_all cs)) [
    | inl y ↦ absurd (none-ne-some bs (sym (rw (x, y)) ∙ e))
    | inr (r, y) ↦ (b, r, x, y, some-injective bs (b ++ r) (sym e ∙ rw (x, y)))
  ]
]

pub encode_all-append :
    (cs ds bs es : List ℕ)
    → encode_all cs ≡ some bs
    → encode_all ds ≡ some es
    → encode_all (cs ++ ds) ≡ some (bs ++ es)
unfolding encode_all
encode_all-append [] ds bs es e f =
    subst (λ b. encode_all ds ≡ some (b ++ es)) (some-injective [] bs e) f
encode_all-append (c ∷ cs) ds bs es e f =
    let (b, r, x, y, whole) = encode_all_parts c cs bs e in
    rw (x, encode_all-append cs ds r es y f, whole) (ap some (sym (append_assoc b r es)))

-- A text that begins with an ASCII character is written with that byte first.
pub encode_all_first :
    (c : ℕ) (cs bs : List ℕ)
    → c < 0x80
    → encode_all (c ∷ cs) ≡ some bs
    → (r : List ℕ) × (bs ≡ c ∷ r)
encode_all_first c cs bs h e =
    let (b, r, x, y, whole) = encode_all_parts c cs bs e in
    (r, whole ∙ ap (λ a. a ++ r) (some-injective b (c ∷ []) (sym x ∙ encode_one c h)))

pub sanitize-encode_all_from :
    (cs bs : List ℕ) (s : U8ToU32)
    → IsIdle s
    → All Survives cs
    → encode_all cs ≡ some bs
    → sanitize s bs ≡ cs
unfolding encode_all sanitize
sanitize-encode_all_from [] bs s idle h e =
    subst (λ b. sanitize s b ≡ []) (some-injective [] bs e) refl
sanitize-encode_all_from (c ∷ cs) bs s idle h e =
    let (r, e') = encode_all-total cs h.1 in
    let (b, e'', emits) = sanitize-encode s c r idle h.0 in
    let (t, idle', reads) = emits in
    let whole : bs ≡ b ++ r = some-injective bs (b ++ r) (sym e ∙ rw (e'', e')) in
    rw whole (reads ∙ ap (◌∷◌ c) (sanitize-encode_all_from cs r t idle' h.1 e'))

-- A text of code points below 0x200000, none of them from 0x400 to 0x7FF, is written as UTF-8, and
-- the decoder reads exactly that text back.
pub sanitize-encode_all :
    (cs : List ℕ)
    → All Survives cs
    → (bs : List ℕ) × (encode_all cs ≡ some bs) × (sanitize init bs ≡ cs)
sanitize-encode_all cs h =
    let (bs, e) = encode_all-total cs h in
    (bs, e, sanitize-encode_all_from cs bs init init-IsIdle h e)

lost_pair :
    (x y : ℕ)
    → 0xD0 ≤ x
    → x < 0xE0
    → 0x80 ≤ y
    → y < 0xC0
    → sanitize init (x ∷ y ∷ []) ≡ x % 128 ∷ y % 128 ∷ []
unfolding sanitize
lost_pair x y h h' k k' =
    let (t, idle, e) = sanitize_lone init init-IsIdle (y ∷ []) x (omega arith) h' (inr h) in
    let (_, _, e') = sanitize_lone t idle [] y k (omega arith) (inl k') in e ∙ ap (◌∷◌ (x % 128)) e'

mod_eq : (c : ℕ) → (c % 64 + 0x80) % 128 ≡ c % 64
mod_eq c = omega arith

-- Each code point from 0x400 to 0x7FF is written as two bytes, which the decoder takes for two code
-- points below 0x80.
pub sanitize-encode_lost :
    (c : ℕ)
    → 0x400 ≤ c
    → c < 0x800
    → (bs : List ℕ) × (encode c ≡ some bs)
      × (sanitize init bs ≡ (c / 64 + 0xC0) % 128 ∷ c % 64 ∷ [])
sanitize-encode_lost c h h' = (
  _,
  encode_two c (omega arith) h',
  lost_pair (c / 64 + 0xC0) (c % 64 + 0x80) (omega arith) (omega arith) (omega arith) (omega arith)
      ∙ rw (mod_eq c),
)
