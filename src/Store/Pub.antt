-- ===== src/Store/Pub.antt =====
-- src/store/src/pub.cpp and src/store/src/slot.cpp. A `slot_ptr` is its number, and `alive` tells whether the
-- channel behind it can be locked. `sent` lists what the slots dispatch, in the order of the calls.
pub mod Tidy
pub mod Follow
use cyng.Base.{ℕ, Bool, true, false, List, [], ◌∷◌, ◌++◌, ◌==◌, if◌then◌else◌}

-- The messages `db.insert`, `db.modify`, `db.remove`, `db.clear` and `db.trx`: the arguments of the five
-- functions `forward` of a slot.
pub data Event (Obj : Type 0) : Type 0 where
  inserted : List Obj → List Obj → ℕ → ℕ → Event Obj
  modified : List Obj → ℕ → Obj → List Obj → ℕ → ℕ → Event Obj
  removed : List Obj → List Obj → ℕ → Event Obj
  cleared : ℕ → Event Obj
  transaction : Bool → Event Obj

pub record Pub (Obj : Type 0) : Type 0 where
  pub slots_insert : List ℕ
  pub slots_modify : List ℕ
  pub slots_remove : List ℕ
  pub slots_clear : List ℕ
  pub sent : List (ℕ × Event Obj)

-- The free function `disconnect`.
unfoldable pub disconnect_slot : List ℕ → ℕ → List ℕ × Bool
disconnect_slot [] s = ([], false)
disconnect_slot (x ∷ vec) s =
    let (rest, found) = disconnect_slot vec s in if x == s then (vec, true) else (x ∷ rest, found)

unfoldable pub tidy : List ℕ → List ℕ → List ℕ
tidy vec [] = vec
tidy vec (s ∷ expired) = tidy (disconnect_slot vec s).0 expired

module _ {Obj : Type 0} where
  unfoldable pub connect_insert : ℕ → Pub Obj → Pub Obj
  connect_insert sp p = record p { slots_insert = p.slots_insert ++ sp ∷ [] }

  unfoldable pub connect_modify : ℕ → Pub Obj → Pub Obj
  connect_modify sp p = record p { slots_modify = p.slots_modify ++ sp ∷ [] }

  unfoldable pub connect_remove : ℕ → Pub Obj → Pub Obj
  connect_remove sp p = record p { slots_remove = p.slots_remove ++ sp ∷ [] }

  unfoldable pub connect_clear : ℕ → Pub Obj → Pub Obj
  connect_clear sp p = record p { slots_clear = p.slots_clear ++ sp ∷ [] }

  unfoldable pub connect_only : ℕ → Pub Obj → Pub Obj
  unfolding connect_insert connect_modify connect_remove connect_clear
  connect_only sp p = connect_clear sp (connect_remove sp (connect_modify sp (connect_insert sp p)))

  -- True if the slot was among those for inserts.
  unfoldable pub disconnect : ℕ → Pub Obj → Pub Obj × Bool
  disconnect sp p =
      let (left, found) = disconnect_slot p.slots_insert sp in
      (
        record p {
          slots_modify = (disconnect_slot p.slots_modify sp).0;
          slots_remove = (disconnect_slot p.slots_remove sp).0;
          slots_clear = (disconnect_slot p.slots_clear sp).0;
          slots_insert = left;
        },
        found,
      )

  module _ (alive : ℕ → Bool) where
    -- `slot::forward`: what is dispatched.
    unfoldable pub slot_forward : ℕ → Event Obj → List (ℕ × Event Obj) → List (ℕ × Event Obj)
    slot_forward sp e sent = if alive sp then sent ++ (sp, e) ∷ [] else sent

    -- The loop of `pub::forward` over a list of slots, with those that failed in `expired`.
    unfoldable pub signal :
        Event Obj → List ℕ → List (ℕ × Event Obj) → List ℕ → List (ℕ × Event Obj) × List ℕ
    unfolding slot_forward
    signal e [] sent expired = (sent, expired)
    signal e (sp ∷ slots) sent expired =
        signal e slots (slot_forward sp e sent) (if alive sp then expired else sp ∷ expired)

    -- The four functions `pub::forward`: each of them runs through `slots_insert_`.
    unfoldable pub forward : Event Obj → Pub Obj → Pub Obj
    forward e p =
        let (sent, expired) = signal e p.slots_insert p.sent [] in
        record p { slots_insert = tidy p.slots_insert expired; sent = sent }
