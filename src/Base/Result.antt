-- ===== src/Base/Result.antt =====
-- What an operation gives where it may fail: a `BOOST_ASSERT` that does not hold, an exception, or
-- behaviour that the language leaves undefined.
use cyng.Base.{ℕ, List, ◌≡◌, subst, refl, ◌⊎◌, inl, inr, Bool, true, false}

pub data Fault : Type 0 where
  assertion : Fault
  exception : List ℕ → Fault
  length_error : Fault
  out_of_range : Fault
  undefined : Fault

pub data Result {ℓ} (T : Type ℓ) : Type ℓ where
  err : Fault → Result T
  ok : T → Result T

infixl 5 ◌>>=◌
abbrev pub ◌>>=◌ {i j} : {S : Type i} {T : Type j} → Result S → (S → Result T) → Result T
err fault >>= next = err fault
ok value >>= next = next value

-- `BOOST_ASSERT(test)`
abbrev pub assert : Bool → Result (Unit {0})
assert false = err assertion
assert true = ok tt

-- What follows an assertion.
infixl 5 ◌>>◌
abbrev pub ◌>>◌ {j} : {T : Type j} → Result (Unit {0}) → Result T → Result T
err fault >> after = err fault
ok u >> after = after

-- Where the whole returns, so does its first part.
pub >>=-eq-ok {i j} :
    {S : Type i} {T : Type j} (first : Result S) (next : S → Result T) {value : T}
    → (first >>= next) ≡ ok value
    → (s : S) × (first ≡ ok s) × (next s ≡ ok value)
>>=-eq-ok (err fault) next returns = cc
>>=-eq-ok (ok s) next returns = (s, refl, returns)

pub Result-cases {ℓ} :
    {A : Type ℓ} (m : Result A) → ((a : A) × (m ≡ ok a)) ⊎ ((e : Fault) × (m ≡ err e))
Result-cases (ok a) = inl (a, refl)
Result-cases (err e) = inr (e, refl)

-- The value, where there is one, has the property.
abbrev pub Ensures {ℓ κ} : {A : Type ℓ} → (A → Type κ) → Result A → Type κ
Ensures P (ok a) = P a
Ensures P (err e) = Unit

pub Ensures->>= {ℓ κ μ ν} :
    {A : Type ℓ} {B : Type κ} (P : A → Type μ) (Q : B → Type ν) (m : Result A) (f : A → Result B)
    → Ensures P m
    → ((a : A) → P a → Ensures Q (f a))
    → Ensures Q (m >>= f)
Ensures->>= P Q (ok a) f h k = k a h
Ensures->>= P Q (err e) f h k = tt

pub Ensures_ok {ℓ κ} :
    {A : Type ℓ} (P : A → Type κ) (m : Result A) (a : A) → Ensures P m → m ≡ ok a → P a
Ensures_ok P m a h e = subst (Ensures P) e h
