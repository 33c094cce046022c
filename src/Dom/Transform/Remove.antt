-- ===== src/Dom/Transform/Remove.antt =====
-- A callback that removes the objects of some types.
use cyng.Base.{
  ℕ, ◌+◌, ◌≡◌, refl, ap, subst, Bool, true, false, Bool-cases, inl, inr, if◌then◌else◌, arith,
}
use cyng.Dom.{
  Tag, sequence_tag, map_tag, plain_tag, Object, sequence, map_of, pair, plain, Objects, nil, cons,
  Key, Pairs, end, entry, tag,
}
use cyng.Dom.Transform.{
  Action, none, remove, transform, transform_all, transform_pairs, transform_object,
}

module _ (p : Tag → Bool) where
  -- Remove what has one of the types.
  abbrev pub removing : Object → ℕ → Tag → Object × Action
  removing o depth t = (o, if p t then remove else none)

  -- An attribute, a parameter or a property that stands by itself is not given to the callback.
  abbrev pub Stays : Object → Type 0
  Stays (pair k o) = Unit
  Stays o = p (tag o) ≡ false

  -- No element of a sequence and no value of a map has one of the types; only the object of a pair
  -- that stands by itself can have one.
  abbrev mutual
    pub Without : Object → Type 0
    Without (sequence s os) = WithoutAll os
    Without (map_of k ps) = WithoutPairs ps
    Without (pair k o) = Stays o → Without o
    Without (plain n bytes) = Unit

    pub WithoutAll : Objects → Type 0
    WithoutAll nil = Unit
    WithoutAll (cons o os) = Stays o × Without o × WithoutAll os

    pub WithoutPairs : Pairs → Type 0
    WithoutPairs end = Unit
    WithoutPairs (entry k o ps) = Stays o × Without o × WithoutPairs ps

  -- An object that is erased has one of the types; another is without them afterwards.
  abbrev Cleans : Object → Object × Bool → Type 0
  Cleans o (r, true) = (r ≡ o) × (Stays o → ⊥)
  Cleans o (r, false) = Stays r × Without r

  element-Without :
      (o : Object) (os : Objects) (x : Object × Bool)
      → Cleans o x
      → WithoutAll os
      → WithoutAll (if x.1 then os else cons x.0 os)
  element-Without o os (r, true) c h = h
  element-Without o os (r, false) c h = (c.0, c.1, h)

  value-Without :
      (k : Key) (o : Object) (ps : Pairs) (x : Object × Bool)
      → Cleans o x
      → WithoutPairs ps
      → WithoutPairs (if x.1 then ps else entry k x.0 ps)
  value-Without k o ps (r, true) c h = h
  value-Without k o ps (r, false) c h = (c.0, c.1, h)

  inside-Without : (o : Object) (x : Object × Bool) → Cleans o x → Stays x.0 → Without x.0
  inside-Without o (r, true) (e, n) h = absurd (n (subst Stays e h))
  inside-Without o (r, false) c h = c.1

  mutual
    unfolding transform

    transform-Cleans : (o : Object) (depth : ℕ) → Cleans o (transform removing o depth)
    transform-Cleans (sequence s os) depth = elim (Bool-cases (p (sequence_tag s))) [
      | inl out ↦ rw out (refl, λ h. ground (arith, out, h))
      | inr stay ↦ rw stay (stay, transform_all-Without os depth)
    ]
    transform-Cleans (map_of k ps) depth = elim (Bool-cases (p (map_tag k))) [
      | inl out ↦ rw out (refl, λ h. ground (arith, out, h))
      | inr stay ↦ rw stay (stay, transform_pairs-Without ps depth)
    ]
    transform-Cleans (pair k o) depth =
        (tt, inside-Without o (transform removing o depth) (transform-Cleans o depth))
    transform-Cleans (plain n bytes) depth = elim (Bool-cases (p (plain_tag n))) [
      | inl out ↦ rw out (refl, λ h. ground (arith, out, h))
      | inr stay ↦ rw stay (stay, tt)
    ]

    transform_all-Without :
        (os : Objects) (depth : ℕ) → WithoutAll (transform_all removing os depth)
    transform_all-Without nil depth = tt
    transform_all-Without (cons o os) depth =
        element-Without o (transform_all removing os depth) (transform removing o (depth + 1))
          (transform-Cleans o (depth + 1)) (transform_all-Without os depth)

    transform_pairs-Without :
        (ps : Pairs) (depth : ℕ) → WithoutPairs (transform_pairs removing ps depth)
    transform_pairs-Without end depth = tt
    transform_pairs-Without (entry k o ps) depth =
        value-Without k o (transform_pairs removing ps depth) (transform removing o (depth + 1))
          (transform-Cleans o (depth + 1)) (transform_pairs-Without ps depth)

  root-Without : (o : Object) (x : Object × Bool) → Cleans o x → Stays o → Without x.0
  root-Without o (r, true) (e, n) h = absurd (n h)
  root-Without o (r, false) c h = c.1

  transform-Stays : (o : Object) (depth : ℕ) → Stays o → (transform removing o depth).1 ≡ false
  unfolding transform
  transform-Stays (sequence s os) depth h = rw h refl
  transform-Stays (map_of k ps) depth h = rw h refl
  transform-Stays (pair k o) depth h = refl
  transform-Stays (plain n bytes) depth h = rw h refl

  mutual
    unfolding transform

    transform-fixed :
        (o : Object) (depth : ℕ) → (Stays o → Without o) → (transform removing o depth).0 ≡ o
    transform-fixed (sequence s os) depth h = elim (Bool-cases (p (sequence_tag s))) [
      | inl out ↦ rw out refl
      | inr stay ↦ rw stay (ap (sequence s) (transform_all-fixed os depth (h stay)))
    ]
    transform-fixed (map_of k ps) depth h = elim (Bool-cases (p (map_tag k))) [
      | inl out ↦ rw out refl
      | inr stay ↦ rw stay (ap (map_of k) (transform_pairs-fixed ps depth (h stay)))
    ]
    transform-fixed (pair k o) depth h = ap (pair k) (transform-fixed o depth (h tt))
    transform-fixed (plain n bytes) depth h = elim (Bool-cases (p (plain_tag n))) [
      | inl out ↦ rw out refl
      | inr stay ↦ rw stay refl
    ]

    transform_all-fixed :
        (os : Objects) (depth : ℕ) → WithoutAll os → transform_all removing os depth ≡ os
    transform_all-fixed nil depth h = refl
    transform_all-fixed (cons o os) depth (s, w, h) =
        rw
          (
            transform-Stays o (depth + 1) s,
            transform-fixed o (depth + 1) (λ s. w),
            transform_all-fixed os depth h,
          )
          refl

    transform_pairs-fixed :
        (ps : Pairs) (depth : ℕ) → WithoutPairs ps → transform_pairs removing ps depth ≡ ps
    transform_pairs-fixed end depth h = refl
    transform_pairs-fixed (entry k o ps) depth (s, w, h) =
        rw
          (
            transform-Stays o (depth + 1) s,
            transform-fixed o (depth + 1) (λ s. w),
            transform_pairs-fixed ps depth h,
          )
          refl

  -- Behind a transformation that removes the objects of some types, no element of a sequence and no
  -- value of a map has one of them, at any depth of an object that has none of the types itself; but
  -- for the object of an attribute, a parameter or a property that stands by itself, of which nothing
  -- is said if it has one. An object that is without them already is not changed.
  pub transform_object-Without :
      (o : Object)
      → Stays o
      → Without (transform_object removing o) × (Without o → transform_object removing o ≡ o)
  unfolding transform_object
  transform_object-Without o h =
      (root-Without o _ (transform-Cleans o 0) h, λ w. transform-fixed o 0 (λ s. w))
