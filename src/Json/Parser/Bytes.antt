-- ===== src/Json/Parser/Bytes.antt =====
-- The parser on bytes: it decodes the text, and reads its code points.
use cyng.Base.{ℕ, List, [], ◌∷◌, ◌≡◌, refl, inl, inr, Option, false, ◌&&◌, ◌==◌, Bool-cases}
use cyng.Base.Result.{Result, ok, ◌>>=◌, Result-cases}
use cyng.Utf8
use cyng.Utf8.{sanitize}
use cyng.Csv.Tokenizer.{Conversion}
use cyng.Csv.Parser.Bytes.{StartsNoMark, starts_later, no_mark}
use cyng.Json.Value.{Int64}
use cyng.Json.Parser.{
  Machine, Reader, next_code_point, put_char, read_char, read_chars, read, count,
}
use cyng.Json.Parser.Run.{run}

module _ (u32_to_u8 : List ℕ → Conversion) (to_int64 : List ℕ → Option Int64)
    (to_double : List ℕ → Option ℕ) where
  read_char-plain :
      (r : Reader) (c : ℕ)
      → r.bom ≡ false
      → (r.counter == 0 && c == 0xEF) ≡ false
      → read_char u32_to_u8 to_int64 to_double r c ≡ (
          put_char u32_to_u8 to_int64 to_double (record r { bom = false }) c >>= λ q.
          ok (count q c))
  unfolding read_char
  read_char-plain r c h k = rw (h, k)

  abbrev machine_of : Result Reader → Result Machine
  machine_of result = result >>= λ r. ok r.machine

  read_chars-run :
      (cs : List ℕ) (r : Reader)
      → r.bom ≡ false
      → StartsNoMark r.counter cs
      → machine_of (read_chars u32_to_u8 to_int64 to_double r cs)
        ≡ run u32_to_u8 to_int64 to_double r.machine (sanitize r.sanitizer cs)
  unfolding read_chars sanitize run put_char
  read_chars-run [] r h k = refl
  read_chars-run (c ∷ cs) r h k =
      let s = (Utf8.put r.sanitizer c).0 in
      let tok = (Utf8.put r.sanitizer c).1 in
      let plain = read_char-plain r c h (no_mark r.counter c k) in
      let later = starts_later r.counter cs in
      rw plain (elim (Bool-cases (Utf8.put r.sanitizer c).2) [
        | inl whole ↦
            elim (Result-cases (next_code_point u32_to_u8 to_int64 to_double r.machine tok)) [
              | inl (m, e) ↦
                  rw (whole, e)
                    (read_chars-run cs
                      (count (record r { bom = false; sanitizer = s; machine = m }) c) refl later)
              | inr (x, e) ↦ rw (whole, e) refl
            ]
        | inr part ↦
            rw part
              (read_chars-run cs (count (record r { bom = false; sanitizer = s }) c) refl later)
      ])

  -- Reading a text that does not begin with a byte order mark is running the machine on the code
  -- points that the decoder makes of its bytes.
  pub read-run :
      (cs : List ℕ) (r : Reader)
      → StartsNoMark r.counter cs
      → machine_of (read u32_to_u8 to_int64 to_double r cs)
        ≡ run u32_to_u8 to_int64 to_double r.machine (sanitize r.sanitizer cs)
  unfolding read
  read-run cs r h = read_chars-run cs (record r { bom = false; trailer = 0 ∷ 0 ∷ 0 ∷ [] }) refl h
