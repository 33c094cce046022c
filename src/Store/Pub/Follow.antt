-- ===== src/Store/Pub/Follow.antt =====
-- What one slot receives, and the copy of a table that a listener keeps from it.
use cyng.Base.{
  ℕ, zero, suc, ◌+◌, ◌≡◌, refl, ◌∙◌, sym, ap, Bool, true, Bool-cases, inl, inr, List, [], ◌∷◌,
  ==_iff, ◌++◌, ◌==◌, if◌then◌else◌, arith, append_assoc, append-nil, Option, none, some, set,
}
use mathlib.Core.Path.{fun_ext}
use cyng.Store.Pub.{
  Event, inserted, modified, removed, cleared, transaction, Pub, signal, slot_forward, forward,
}
use cyng.Store.Pub.Tidy.{count, living, slots-forward}

-- What a listener knows of a table: the body for each key.
abbrev pub View : Type 0 → Type 0
View Obj = List Obj → Option (List Obj)

module _ {Obj : Type 0} where
  abbrev pub received : ℕ → List (ℕ × Event Obj) → List (Event Obj)
  received s [] = []
  received s ((t, e) ∷ sent) = if t == s then e ∷ received s sent else received s sent

  abbrev pub set_in : ℕ → Obj → Option (List Obj) → Option (List Obj)
  set_in i v none = none
  set_in i v (some body) = some (set body i v)

  abbrev times : ℕ → Event Obj → List (Event Obj)
  times zero e = []
  times (suc n) e = e ∷ times n e

  pub received-append :
      (s : ℕ) (xs ys : List (ℕ × Event Obj))
      → received s (xs ++ ys) ≡ received s xs ++ received s ys
  received-append s [] ys = refl
  received-append s ((t, e) ∷ xs) ys = ground (arith, received-append s xs ys)

  module _ (same_key : List Obj → List Obj → Bool) where
    -- The event, carried out on the copy.
    abbrev pub replay : Event Obj → View Obj → View Obj
    replay (inserted key body gen tag) v j = if same_key key j then some body else v j
    replay (modified key i x body gen tag) v j = if same_key key j then set_in i x (v j) else v j
    replay (removed key body tag) v j = if same_key key j then none else v j
    replay (cleared tag) v j = none
    replay (transaction b) v j = v j

    -- The events in their order, from the empty copy.
    abbrev pub replays : List (Event Obj) → View Obj → View Obj
    replays [] v = v
    replays (e ∷ es) v = replays es (replay e v)

    replays-append :
        (es : List (Event Obj)) (e : Event Obj) (v : View Obj)
        → replays (es ++ e ∷ []) v ≡ replay e (replays es v)
    replays-append [] e v = refl
    replays-append (d ∷ es) e v = replays-append es e (replay d v)

    -- The slot is connected once, and its copy is `v`.
    pub record Follows (s : ℕ) (p : Pub Obj) (v : View Obj) : Type 0 where
      pub once : count s p.slots_insert ≡ 1
      pub copy : (j : List Obj) → replays (received s p.sent) (λ k. none) j ≡ v j

    module _ (alive : ℕ → Bool) (s : ℕ) (up : alive s ≡ true) where
      count-living : (slots : List ℕ) → count s (living alive slots) ≡ count s slots
      count-living [] = refl
      count-living (x ∷ slots) = elim (Bool-cases (alive x)) [
        | inl a ↦ rw a (ground (arith, count-living slots))
        | inr d ↦ rw d (ground (arith, count-living slots))
      ]

      received-slot_forward :
          (e : Event Obj) (x : ℕ) (sent : List (ℕ × Event Obj))
          → received s (slot_forward alive x e sent)
            ≡ received s sent ++ times (if x == s then 1 else 0) e
      unfolding slot_forward
      received-slot_forward e x sent = elim (Bool-cases (x == s)) [
        | inl same ↦
            let there : alive x ≡ true = ap alive ((==_iff x s).0 same) ∙ up in
            rw (there, same) (received-append s sent ((x, e) ∷ []) ∙ rw same)
        | inr other ↦ rw other (elim (Bool-cases (alive x)) [
          | inl a ↦ rw a (received-append s sent ((x, e) ∷ []) ∙ rw other)
          | inr d ↦ rw d (sym (append-nil (received s sent)))
        ])
      ]

      times-append : (m n : ℕ) (e : Event Obj) → times m e ++ times n e ≡ times (m + n) e
      times-append zero n e = ap (λ k. times k e) (let r : n ≡ 0 + n = omega arith in r)
      times-append (suc m) n e =
          let r : suc (m + n) ≡ suc m + n = omega arith in
          ap (◌∷◌ e) (times-append m n e) ∙ ap (λ k. times k e) r

      received-signal :
          (e : Event Obj) (slots : List ℕ) (sent : List (ℕ × Event Obj)) (expired : List ℕ)
          → received s (signal alive e slots sent expired).0
            ≡ received s sent ++ times (count s slots) e
      unfolding signal
      received-signal e [] sent expired = sym (append-nil (received s sent))
      received-signal e (x ∷ slots) sent expired =
          let one : ℕ = if x == s then 1 else 0 in
          received-signal e slots (slot_forward alive x e sent)
            (if alive x then expired else x ∷ expired)
          ∙ ap (λ l. l ++ times (count s slots) e) (received-slot_forward e x sent)
          ∙ append_assoc (received s sent) (times one e) (times (count s slots) e)
          ∙ ap (λ l. received s sent ++ l) (times-append one (count s slots) e)

      -- A slot that is not connected for inserts receives no event, whichever of the other three lists
      -- hold it; its channel is there.
      pub received-forward :
          (e : Event Obj) (p : Pub Obj)
          → count s p.slots_insert ≡ 0
          → received s (forward alive e p).sent ≡ received s p.sent
      unfolding forward
      received-forward e p none_there =
          received-signal e p.slots_insert p.sent []
          ∙ ap (λ n. received s p.sent ++ times n e) none_there
          ∙ append-nil (received s p.sent)

      -- A slot that is there and connected once receives each event, and its copy stays up to date.
      pub forward-Follows :
          (e : Event Obj) (p : Pub Obj) (v : View Obj)
          → Follows s p v
          → Follows s (forward alive e p) (replay e v)
      unfolding forward
      forward-Follows e p v f = record {
        once = ap (count s) (slots-forward alive e p) ∙ count-living p.slots_insert ∙ f.once;
        copy = λ j.
            ap (λ l. replays l (λ k. none) j) (received-signal e p.slots_insert p.sent [])
            ∙ ap (λ n. replays (received s p.sent ++ times n e) (λ k. none) j) f.once
            ∙ ap (λ w. w j) (replays-append (received s p.sent) e (λ k. none))
            ∙ ap (λ w. replay e w j) (fun_ext f.copy);
      }

    pub Follows-ext :
        {s : ℕ} {p : Pub Obj} (v w : View Obj)
        → Follows s p v
        → ((j : List Obj) → v j ≡ w j)
        → Follows s p w
    Follows-ext v w f h = record { once = f.once; copy = λ j. f.copy j ∙ h j }
