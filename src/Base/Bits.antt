-- ===== src/Base/Bits.antt =====
-- Checks over all values of a small range, and the bytes that the UTF-8 encoder joins by `|`.
use cyng.Base.Tests.{◌==◌, ==_iff, if◌then◌else◌}
use Prim.Native.Nat.{ℕ, zero, suc, ◌+◌, ◌<◌, bit_or}
use mathlib.Core.Path.{◌≡◌, refl}
use mathlib.Core.Bool.{Bool, true, false}
use native.Mathlib.Omega.{arith}

-- The test at each number from `n - 1` down to 0.
holds_to : (ℕ → Bool) → ℕ → Bool
holds_to test zero = true
holds_to test (suc n) = let rest = holds_to test n in if test n then rest else false

at_each : (test : ℕ → Bool) (n x : ℕ) → x < n → holds_to test n ≡ true → test x ≡ true
unfolding holds_to
at_each test zero x below h = elim below [ ]
at_each test (suc n) x below h = ground (arith, at_each test n x)

table_continuation : holds_to (λ x. bit_or x 0x80 == x + 0x80) 64 ≡ true
unfolding holds_to
table_continuation = refl

table_two : holds_to (λ x. bit_or x 0xC0 == x + 0xC0) 32 ≡ true
unfolding holds_to
table_two = refl

table_three : holds_to (λ x. bit_or x 0xE0 == x + 0xE0) 16 ≡ true
unfolding holds_to
table_three = refl

table_four : holds_to (λ x. bit_or x 0xF0 == x + 0xF0) 8 ≡ true
unfolding holds_to
table_four = refl

table_one : holds_to (λ x. bit_or x 0 == x) 128 ≡ true
unfolding holds_to
table_one = refl

pub bit_or-continuation : (x : ℕ) → x < 64 → bit_or x 0x80 ≡ x + 0x80
bit_or-continuation x h = (==_iff _ _).0 (at_each _ 64 x h table_continuation)

pub bit_or-two : (x : ℕ) → x < 32 → bit_or x 0xC0 ≡ x + 0xC0
bit_or-two x h = (==_iff _ _).0 (at_each _ 32 x h table_two)

pub bit_or-three : (x : ℕ) → x < 16 → bit_or x 0xE0 ≡ x + 0xE0
bit_or-three x h = (==_iff _ _).0 (at_each _ 16 x h table_three)

pub bit_or-four : (x : ℕ) → x < 8 → bit_or x 0xF0 ≡ x + 0xF0
bit_or-four x h = (==_iff _ _).0 (at_each _ 8 x h table_four)

pub bit_or-one : (x : ℕ) → x < 128 → bit_or x 0 ≡ x
bit_or-one x h = (==_iff _ _).0 (at_each _ 128 x h table_one)
