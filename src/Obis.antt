-- ===== src/Obis.antt =====
-- src/obj/src/intrinsics/obis.cpp: the codes of six value groups, from `VG_MEDIUM` to `VG_STORAGE`. The
-- array of bytes is the list of them, and a reverse iterator runs over the reversed list.
pub mod Laws
mod Tests
use cyng.Base.{
  ℕ, zero, suc, ◌+◌, ◌%◌, Bool, true, false, not, ◌&&◌, ◌||◌, List, [], ◌∷◌, ◌++◌, reverse, ltb,
  leb, ◌==◌, if◌then◌else◌, length, drop, get_or,
}
use cyng.Base.Result.{Result, ok, ◌>>◌, assert}
use cyng.Binary.Number.{to_buffer, from_bytes}

abbrev pub Obis : Type 0
Obis = List ℕ

unfoldable pub to_uint64 : Obis → Result ℕ
unfolding from_bytes
to_uint64 o = do assert (ltb (from_bytes 0 o) 0xFFFFFFFFFFFF); ok (from_bytes 0 o)

unfoldable pub make_obis : ℕ → Obis
unfolding to_buffer
make_obis n = drop 2 (to_buffer 8 n)

unfoldable pub is_private : Obis → Bool
is_private o =
    (leb 0x80 (get_or o 0 0) && leb (get_or o 0 0) 0xC7)
    || (leb 0x80 (get_or o 1 0) && leb (get_or o 1 0) 0xC7)
    || get_or o 2 0 == 0xF0
    || (leb 0x80 (get_or o 3 0) && leb (get_or o 3 0) 0xFE)
    || (leb 0x80 (get_or o 4 0) && leb (get_or o 4 0) 0xFE)
    || (leb 0x80 (get_or o 5 0) && leb (get_or o 5 0) 0xFE)

unfoldable pub is_nil : Obis → Bool
is_nil [] = true
is_nil (c ∷ o) = c == 0 && is_nil o

-- `std::equal` on the first sequence.
unfoldable pub starts_equal : List ℕ → List ℕ → Bool
starts_equal [] o = true
starts_equal (c ∷ seq) [] = false
starts_equal (c ∷ seq) (d ∷ o) = c == d && starts_equal seq o

unfoldable pub starts_with : List ℕ → Obis → Bool
unfolding starts_equal
starts_with seq o = if ltb (length seq) 6 then starts_equal seq o else false

unfoldable pub depth_back : List ℕ → ℕ
depth_back [] = 0
depth_back (c ∷ cs) = let n = depth_back cs in if c == 0xff then suc n else 0

unfoldable pub depth : Obis → ℕ
unfolding depth_back
depth o = depth_back (reverse o)

-- The loop of `descend` behind the last byte; `p` is what `--pos` refers to.
unfoldable pub descend_back : ℕ → List ℕ → List ℕ
descend_back p [] = p ∷ []
descend_back p (c ∷ cs) =
    let rest = descend_back c cs in if not (c == 0xff) then 1 ∷ c ∷ cs else p ∷ rest

unfoldable pub descend : Obis → Obis
unfolding descend_back
descend o = elim (reverse o) [ [] ↦ [] | p ∷ cs ↦ reverse (descend_back p cs) ]

-- The loop of `next` behind the last byte.
unfoldable pub next_back : List ℕ → List ℕ
next_back [] = []
next_back (c ∷ cs) =
    let rest = next_back cs in if not (c == 0xff) then (c + 1) % 256 ∷ cs else c ∷ rest

unfoldable pub next : Obis → Obis
unfolding next_back
next o = elim (reverse o) [ [] ↦ [] | p ∷ cs ↦ reverse (p ∷ next_back cs) ]
