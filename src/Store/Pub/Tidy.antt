-- ===== src/Store/Pub/Tidy.antt =====
-- Which slots are left behind a signal.
use cyng.Base.{
  ℕ, ◌+◌, ◌-◌, ◌≡◌, refl, ◌∙◌, sym, ap, Bool, false, Bool-cases, inl, inr, List, [], ◌∷◌, ◌==◌,
  if◌then◌else◌, arith,
}
use cyng.Store.Pub.{Event, Pub, disconnect_slot, tidy, signal, slot_forward, forward}

abbrev pub count : ℕ → List ℕ → ℕ
count s [] = 0
count s (x ∷ xs) = (if x == s then 1 else 0) + count s xs

-- The slots whose channel is there.
abbrev pub living : (ℕ → Bool) → List ℕ → List ℕ
living alive [] = []
living alive (s ∷ slots) = if alive s then s ∷ living alive slots else living alive slots

count-disconnect_slot :
    (s x : ℕ) (vec : List ℕ)
    → count s (disconnect_slot vec x).0 ≡ count s vec - (if x == s then 1 else 0)
unfolding disconnect_slot
count-disconnect_slot s x [] = ground arith
count-disconnect_slot s x (y ∷ vec) = ground (arith, count-disconnect_slot s x vec)

living-disconnect_slot :
    (alive : ℕ → Bool) (x : ℕ) (vec : List ℕ)
    → alive x ≡ false
    → living alive (disconnect_slot vec x).0 ≡ living alive vec
unfolding disconnect_slot
living-disconnect_slot alive x [] h = refl
living-disconnect_slot alive x (y ∷ vec) h = ground (arith, living-disconnect_slot alive x vec)

count-tidy :
    (s : ℕ) (vec expired : List ℕ) → count s (tidy vec expired) ≡ count s vec - count s expired
unfolding tidy
count-tidy s vec [] = omega arith
count-tidy s vec (x ∷ expired) =
    ground (arith, count-tidy s (disconnect_slot vec x).0 expired, count-disconnect_slot s x vec)

-- Every slot of the list is one that failed.
abbrev AllDead : (ℕ → Bool) → List ℕ → Type 0
AllDead alive [] = Unit {0}
AllDead alive (s ∷ slots) = (alive s ≡ false) × AllDead alive slots

living-tidy :
    (alive : ℕ → Bool) (vec expired : List ℕ)
    → AllDead alive expired
    → living alive (tidy vec expired) ≡ living alive vec
unfolding tidy
living-tidy alive vec [] h = refl
living-tidy alive vec (x ∷ expired) h =
    living-tidy alive (disconnect_slot vec x).0 expired h.1 ∙ living-disconnect_slot alive x vec h.0

-- A list in which no slot that failed occurs.
living_self :
    (alive : ℕ → Bool) (vec : List ℕ)
    → ((s : ℕ) → alive s ≡ false → count s vec ≡ 0)
    → living alive vec ≡ vec
living_self alive [] h = refl
living_self alive (x ∷ vec) h = elim (Bool-cases (alive x)) [
  | inl up ↦ rw up (ap (◌∷◌ x) (living_self alive vec (λ s d. ground (arith, h s d))))
  | inr down ↦ absurd (ground (arith, h x down))
]

module _ {Obj : Type 0} (alive : ℕ → Bool) (e : Event Obj) where
  expire-AllDead :
      (s : ℕ) (expired : List ℕ)
      → AllDead alive expired
      → AllDead alive (if alive s then expired else s ∷ expired)
  expire-AllDead s expired h = elim (Bool-cases (alive s)) [
    | inl up ↦ rw (up, AllDead) h
    | inr down ↦ rw (down, AllDead) (down, h)
  ]

  count-expire :
      (s x : ℕ) (expired : List ℕ)
      → alive s ≡ false
      → count s (if alive x then expired else x ∷ expired)
        ≡ (if x == s then 1 else 0) + count s expired
  count-expire s x expired h = ground arith

  signal-AllDead :
      (slots : List ℕ) (sent : List (ℕ × Event Obj)) (expired : List ℕ)
      → AllDead alive expired
      → AllDead alive (signal alive e slots sent expired).1
  unfolding signal
  signal-AllDead [] sent expired h = h
  signal-AllDead (s ∷ slots) sent expired h =
      signal-AllDead slots _ (if alive s then expired else s ∷ expired) (expire-AllDead s expired h)

  count-signal :
      (s : ℕ) (slots : List ℕ) (sent : List (ℕ × Event Obj)) (expired : List ℕ)
      → alive s ≡ false
      → count s (signal alive e slots sent expired).1 ≡ count s slots + count s expired
  unfolding signal
  count-signal s [] sent expired h = omega arith
  count-signal s (x ∷ slots) sent expired h =
      let rest = if alive x then expired else x ∷ expired in
      omega (
        arith,
        count-signal s slots (slot_forward alive x e sent) rest h,
        count-expire s x expired h,
      )

  -- The slots of a table behind an event are those whose channel is there, in the same order.
  pub slots-forward : (p : Pub Obj) → (forward alive e p).slots_insert ≡ living alive p.slots_insert
  unfolding forward
  slots-forward p =
      let expired = (signal alive e p.slots_insert p.sent []).1 in
      let dead = signal-AllDead p.slots_insert p.sent [] tt in
      sym (
        living_self alive (tidy p.slots_insert expired) (λ s d.
          omega (
            arith,
            count-tidy s p.slots_insert expired,
            count-signal s p.slots_insert p.sent [] d,
          )))
      ∙ living-tidy alive p.slots_insert expired dead
