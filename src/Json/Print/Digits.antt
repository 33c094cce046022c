-- ===== src/Json/Print/Digits.antt =====
-- The digits of a number, in base ten and sixteen.
use cyng.Base.{
  ℕ, zero, suc, ◌+◌, ◌/◌, ◌%◌, ◌≤◌, ◌<◌, List, [], ◌∷◌, ◌++◌, ◌≡◌, refl, ◌∙◌, ap, some, arith, All,
  All-append,
}
use native.Mathlib.Decide.{dec_lt}
use cyng.Csv.Tokenizer.{hex_digit}
use cyng.Json.Print.{digit, digits, natural, pad_four}

abbrev pub IsDigit : ℕ → Type 0
IsDigit c = (b'0' ≤ c) × (c ≤ b'9')

digit-decimal : (d : ℕ) → d < 10 → digit d ≡ b'0' + d
unfolding digit
digit-decimal d h = ground arith

digits_last : (base fuel n : ℕ) → n < base → digits base (suc fuel) n ≡ digit n ∷ []
unfolding digits
digits_last base fuel n h = ground arith

digits_more :
    (base fuel n : ℕ)
    → base ≤ n
    → digits base (suc fuel) n ≡ digits base fuel (n / base) ++ digit (n % base) ∷ []
unfolding digits
digits_more base fuel n h = ground arith

-- A number that is not 0 is written with a digit from 1 to 9 first, and digits behind it.
pub decimal_parts :
    (fuel n : ℕ)
    → 0 < n
    → n < fuel
    → (c : ℕ) × (cs : List ℕ) × (digits 10 fuel n ≡ c ∷ cs)
      × ((b'1' ≤ c) × (c ≤ b'9'))
      × All IsDigit cs
decimal_parts zero n h k = elim k [ ]
decimal_parts (suc fuel) n h k = elim (dec_lt n 10) [
  | yes small ↦
      (digit n, [], digits_last 10 fuel n small, rw (digit-decimal n small) (omega arith), tt)
  | no large ↦
      (let (c, cs, e, first, rest) = decimal_parts fuel (n / 10) (omega arith) (omega arith) in
        (
          c,
          cs ++ digit (n % 10) ∷ [],
          digits_more 10 fuel n (omega arith) ∙ rw e,
          first,
          All-append IsDigit cs (digit (n % 10) ∷ []) rest
              (rw (digit-decimal (n % 10) (omega arith)) (omega arith), tt),
        ))
]

pub hex_digit-digit : (d : ℕ) → d < 16 → hex_digit (digit d) ≡ some d
unfolding hex_digit digit
hex_digit-digit d h = ground arith

more_digits :
    (base fuel n : ℕ) {ds : List ℕ}
    → base ≤ n
    → digits base fuel (n / base) ≡ ds
    → digits base (suc fuel) n ≡ ds ++ digit (n % base) ∷ []
more_digits base fuel n k e = digits_more base fuel n k ∙ ap (λ xs. xs ++ digit (n % base) ∷ []) e

abbrev pub four : ℕ → ℕ → ℕ → ℕ → List ℕ
four a b c d = digit a ∷ digit b ∷ digit c ∷ digit d ∷ []

digit_zero : b'0' ≡ digit 0
unfolding digit
digit_zero = refl

-- The four hexadecimal digits of a number.
abbrev pub hex_four : ℕ → List ℕ
hex_four n = four (n / 4096) (n / 256 % 16) (n / 16 % 16) (n % 16)

four-eq : (a b c d e f g h : ℕ) → a ≡ e → b ≡ f → c ≡ g → d ≡ h → four a b c d ≡ four e f g h
four-eq a b c d e f g h p q r s = cc

pad_one : (f n : ℕ) → n < 16 → pad_four (digits 16 (suc f) n) ≡ hex_four n
unfolding pad_four
pad_one f n h =
    rw (digits_last 16 f n h, digit_zero)
      (four-eq 0 0 0 n (n / 4096) (n / 256 % 16) (n / 16 % 16) (n % 16) (omega arith) (omega arith)
        (omega arith) (omega arith))

pad_two : (f n : ℕ) → 16 ≤ n → n < 256 → pad_four (digits 16 (suc (suc f)) n) ≡ hex_four n
unfolding pad_four
pad_two f n k h =
    let e = more_digits 16 (suc f) n k (digits_last 16 f (n / 16) (omega arith)) in
    rw (e, digit_zero)
      (four-eq 0 0 (n / 16) (n % 16) (n / 4096) (n / 256 % 16) (n / 16 % 16) (n % 16) (omega arith)
        (omega arith) (omega arith) refl)

pad_three : (f n : ℕ) → 256 ≤ n → n < 4096 → pad_four (digits 16 (suc (suc (suc f))) n) ≡ hex_four n
unfolding pad_four
pad_three f n k h =
    let e1 = digits_last 16 f (n / 16 / 16) (omega arith) in
    let e2 = more_digits 16 (suc f) (n / 16) (omega arith) e1 in
    let e3 = more_digits 16 (suc (suc f)) n (omega arith) e2 in
    rw (e3, digit_zero)
      (four-eq 0 (n / 16 / 16) (n / 16 % 16) (n % 16) (n / 4096) (n / 256 % 16) (n / 16 % 16)
        (n % 16) (omega arith) (omega arith) refl refl)

digits_full : (f n : ℕ) → 4096 ≤ n → n < 65536 → digits 16 (suc (suc (suc (suc f)))) n ≡ hex_four n
digits_full f n k h =
    let e1 = digits_last 16 f (n / 16 / 16 / 16) (omega arith) in
    let e2 = more_digits 16 (suc f) (n / 16 / 16) (omega arith) e1 in
    let e3 = more_digits 16 (suc (suc f)) (n / 16) (omega arith) e2 in
    let e4 = more_digits 16 (suc (suc (suc f))) n (omega arith) e3 in
    rw e4 (
      four-eq (n / 16 / 16 / 16) (n / 16 / 16 % 16) (n / 16 % 16) (n % 16) (n / 4096) (n / 256 % 16)
        (n / 16 % 16) (n % 16) (omega arith) (omega arith) refl refl)

pad_full :
    (f n : ℕ) → 4096 ≤ n → n < 65536 → pad_four (digits 16 (suc (suc (suc (suc f)))) n) ≡ hex_four n
unfolding pad_four
pad_full f n k h = rw (digits_full f n k h) refl

five_digits :
    (f n : ℕ)
    → 65536 ≤ n
    → n < 1048576
    → digits 16 (suc (suc (suc (suc (suc f))))) n ≡ hex_four (n / 16) ++ digit (n % 16) ∷ []
five_digits f n k h =
    more_digits 16 (suc (suc (suc (suc f)))) n (omega arith)
      (digits_full f (n / 16) (omega arith) (omega arith))

-- A number of five hexadecimal digits is written with all of them.
pub pad_four-five :
    (n : ℕ)
    → 65536 ≤ n
    → n < 1048576
    → pad_four (natural 16 n) ≡ hex_four (n / 16) ++ digit (n % 16) ∷ []
unfolding pad_four
pad_four-five (suc (suc (suc (suc n)))) k h = rw (five_digits n (suc (suc (suc (suc n)))) k h) refl
pad_four-five (suc (suc (suc zero))) k h = absurd (omega arith)
pad_four-five (suc (suc zero)) k h = absurd (omega arith)
pad_four-five (suc zero) k h = absurd (omega arith)
pad_four-five zero k h = absurd (omega arith)

pad_any : (f n : ℕ) → n < 65536 → pad_four (digits 16 (suc (suc (suc (suc f)))) n) ≡ hex_four n
pad_any f n h = elim (dec_lt n 16) [
  | yes a ↦ pad_one _ n a
  | no a ↦ elim (dec_lt n 256) [
    | yes b ↦ pad_two _ n (omega arith) b
    | no b ↦ elim (dec_lt n 4096) [
      | yes c ↦ pad_three _ n (omega arith) c
      | no c ↦ pad_full f n (omega arith) h
    ]
  ]
]

-- A number of at most four hexadecimal digits, padded to four of them.
pub pad_four-natural : (n : ℕ) → n < 65536 → pad_four (natural 16 n) ≡ hex_four n
pad_four-natural zero h = pad_one 0 0 (omega arith)
pad_four-natural (suc zero) h = pad_one 1 1 (omega arith)
pad_four-natural (suc (suc zero)) h = pad_one 2 2 (omega arith)
pad_four-natural (suc (suc (suc n))) h = pad_any n (suc (suc (suc n))) h

pub digit-lt : (d : ℕ) → d < 16 → digit d < 0x80
unfolding digit
digit-lt d h = ground arith
