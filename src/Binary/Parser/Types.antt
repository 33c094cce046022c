-- ===== src/Binary/Parser/Types.antt =====
-- The types of the objects that the parser delivers.
use cyng.Base.{
  ℕ, ◌≡◌, refl, ap, sym, ◌∙◌, Bool, true, false, Bool-cases, inl, inr, List, [], ◌∷◌, ◌++◌, arith,
  ◌<◌, ◌≢◌, ◌⊎◌, get_or, ◌+◌, ◌-◌, ◌^◌, All, All-append, ◌==◌, ltb, leb, ◌&&◌, ◌||◌, ◌%◌,
  if◌then◌else◌,
}
use cyng.Base
use cyng.Base.Result.{Result, ok, err, ◌>>◌, assert, Ensures, Ensures->>=, Ensures_ok}
use cyng.Vm.Value.{
  Value, size_value, text_value, op_value, attr_value, param_value, tuple_value, vector_value,
  deque_value, other_value,
}
use cyng.Binary.Tag.{tc_bool, tc_uint64, tc_string, tc_op, tc_color_16, exact_size}
use cyng.Binary.Parser.{
  State, Parser, make_object, deserialize, deliver, put_in, read, init, put_type, put_length,
  put_value, set_length, length_of, size_of_length_field, is_refused, is_foreign, has_size,
}

abbrev pub tag_of : Value → ℕ
tag_of (size_value n) = 9
tag_of (text_value s) = 14
tag_of (op_value c) = 26
tag_of (attr_value n v) = 49
tag_of (param_value s v) = 51
tag_of (tuple_value vs) = 45
tag_of (vector_value vs) = 46
tag_of (deque_value vs) = 47
tag_of (other_value n bytes) = n

Ensures-if {ℓ κ} :
    {A : Type ℓ} (P : A → Type κ) (b : Bool) (x y : Result A)
    → (b ≡ true → Ensures P x)
    → (b ≡ false → Ensures P y)
    → Ensures P (if b then x else y)
Ensures-if P true x y h k = h refl
Ensures-if P false x y h k = k refl

Ensures_assert {ℓ κ} :
    {A : Type ℓ} (P : A → Type κ) (b : Bool) (x : Result A)
    → Ensures P x
    → Ensures P (assert b >> x)
Ensures_assert P true x h = h
Ensures_assert P false x h = tt

Ensures-weaken {ℓ κ} :
    {A : Type ℓ} (P Q : A → Type κ) (m : Result A)
    → ((a : A) → P a → Q a)
    → Ensures P m
    → Ensures Q m
Ensures-weaken P Q (ok a) f h = f a h
Ensures-weaken P Q (err e) f h = tt

-- No attribute, parameter or container, no `object`, and a type that has a tag.
abbrev pub IsPlain : Value → Type 0
IsPlain (size_value n) = Unit
IsPlain (text_value s) = Unit
IsPlain (op_value c) = Unit
IsPlain (other_value n bytes) = (n < 62) × (n ≢ 43) × (n < 45 ⊎ 54 < n)
IsPlain _ = ⊥

plain_lem : (v : Value) → is_refused (tag_of v) ≡ false → IsPlain v
plain_lem (size_value n) h = tt
plain_lem (text_value s) h = tt
plain_lem (op_value c) h = tt
plain_lem (other_value n bytes) h = (
  ground (arith, h),
  λ e. ground (arith, h, e),
  elim (Bool-cases (leb 45 n)) [
    | inl e ↦ inr (ground (arith, h, e))
    | inr e ↦ inl (ground (arith, h, e))
  ],
)
plain_lem (attr_value n v) h = cc
plain_lem (param_value s v) h = cc
plain_lem (tuple_value vs) h = cc
plain_lem (vector_value vs) h = cc
plain_lem (deque_value vs) h = cc

module _ (make_foreign : ℕ → List ℕ → Result Value)
    (keeps : (tag : ℕ) (bytes : List ℕ)
      → Ensures (λ v. tag_of v ≡ tag) (make_foreign tag bytes)) where
  make_object-tag :
      (tag : ℕ) (bytes : List ℕ)
      → Ensures (λ v. tag_of v ≡ tag) (make_object make_foreign tag bytes)
  unfolding make_object
  make_object-tag tag bytes =
      let P = λ (v : Value). tag_of v ≡ tag in
      Ensures-if P (tag == tc_bool) _ _ (λ h. refl)
        λ h.
          Ensures-if P (tag == tc_uint64) _ _ (λ h. ground (arith, h))
            λ h.
              Ensures-if P (tag == tc_string) _ _ (λ h. ground (arith, h))
                λ h.
                  Ensures-if P (tag == tc_op) _ _ (λ h. ground (arith, h))
                    λ h.
                      Ensures-if P (tag == tc_color_16) _ _ (λ h. tt)
                        λ h.
                          Ensures-if P (tag == 24) _ _ (λ h. refl)
                            λ h.
                              Ensures-if P (tag == 25) _ _ (λ h. refl)
                                λ h.
                                  Ensures-if P (tag == 32) _ _
                                    (λ h. Ensures_assert P (Base.length bytes % 6 == 0) _ refl)
                                    λ h.
                                      Ensures-if P (tag == 44) _ _
                                        (λ h. Ensures_assert P (ltb 2 (Base.length bytes)) _ refl)
                                        λ h.
                                          Ensures-if P (tag == 56) _ _ (λ h. refl)
                                            λ h.
                                              Ensures-if P (is_foreign tag) _ _
                                                (λ h. keeps tag bytes) λ h. refl

  deserialize-IsPlain :
      (tag : ℕ) (bytes : List ℕ) → Ensures IsPlain (deserialize make_foreign tag bytes)
  unfolding deserialize
  deserialize-IsPlain tag bytes =
      Ensures-if IsPlain (is_refused tag) _ _ (λ h. tt)
        (λ h. Ensures_assert IsPlain (has_size (exact_size tag) bytes) _ (
          Ensures-weaken (λ v. tag_of v ≡ tag) IsPlain (make_object make_foreign tag bytes)
            (λ v e. plain_lem v (ap is_refused e ∙ h)) (make_object-tag tag bytes)))

  -- Every object that was delivered has such a type.
  abbrev pub IsTyped : Parser → Type 0
  IsTyped p = All IsPlain p.delivered

  deliver-IsTyped : (p : Parser) → IsTyped p → Ensures IsTyped (deliver make_foreign p)
  unfolding deliver
  deliver-IsTyped p h =
      Ensures->>= IsPlain IsTyped (deserialize make_foreign p.type p.buffer) _
        (deserialize-IsPlain p.type p.buffer)
        (λ v k. All-append IsPlain p.delivered (v ∷ []) h (k, tt))

  put_type-IsTyped : (p : Parser) (c : ℕ) → IsTyped p → IsTyped (put_type make_foreign p c)
  unfolding put_type
  put_type-IsTyped p c h = elim (Bool-cases (Base.length (p.buffer ++ c ∷ []) == 2)) [
    | inl full ↦ rw full h
    | inr more ↦ rw more h
  ]

  set_length-IsTyped : (size : ℕ) (p : Parser) → IsTyped p → Ensures IsTyped (set_length size p)
  unfolding set_length
  set_length-IsTyped size p h =
      Ensures-if IsTyped (ltb (length_of size p.buffer) (2 ^ 63)) _ _ (λ k. h) (λ k. tt)

  put_in-IsTyped :
      (s : State) (p : Parser) (c : ℕ) → IsTyped p → Ensures IsTyped (put_in make_foreign s p c)
  unfolding put_in put_length put_value
  put_in-IsTyped State.failure p c h = tt
  put_in-IsTyped State.type p c h = put_type-IsTyped p c h
  put_in-IsTyped State.length p c h =
      let buffer = p.buffer ++ c ∷ [] in
      let size = size_of_length_field (get_or buffer 0 0) in
      Ensures-if IsTyped (size == Base.length buffer) _ _
        (λ k.
          Ensures->>= IsTyped IsTyped (set_length size (record p { buffer = buffer })) _
            (set_length-IsTyped size (record p { buffer = buffer }) h)
            (λ q t. Ensures-if IsTyped (q.length == 0) _ _ (λ z. deliver-IsTyped q t) (λ z. t)))
        (λ k. h)
  put_in-IsTyped State.value p c h =
      let n = (p.length + 2 ^ 64 - 1) % 2 ^ 64 in
      let q = record p { buffer = p.buffer ++ c ∷ []; length = n } in
      Ensures-if IsTyped (n == 0) _ _ (λ z. deliver-IsTyped q h) (λ z. h)

  read-Ensures : (p : Parser) (cs : List ℕ) → IsTyped p → Ensures IsTyped (read make_foreign p cs)
  unfolding read
  read-Ensures p [] h = h
  read-Ensures p (c ∷ cs) h =
      Ensures->>= IsTyped IsTyped (put_in make_foreign p.state p c) _ (put_in-IsTyped p.state p c h)
        (λ q t. read-Ensures q cs t)

  -- Whatever the bytes are, where the parser returns, no object that it delivered is an attribute, a
  -- parameter, a container or an `object`, and the type of each has a tag. The functions of other
  -- libraries, where they make an object, make one of the type that is asked for.
  pub read-IsTyped : (bytes : List ℕ) {p : Parser} → read make_foreign init bytes ≡ ok p → IsTyped p
  read-IsTyped bytes {p} e =
      Ensures_ok IsTyped (read make_foreign init bytes) p (read-Ensures init bytes tt) e
