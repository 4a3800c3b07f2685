-- ===== src/Registry/SlotTable.antt =====
-- The two image slots and `state['slots']`, a mapping in insertion order.
use sv08_mainline.Base.{
  ℕ, String, ◌≡◌, Bool, true, false, Option, none, some, List, [], ◌∷◌, arith, if◌then◌else◌,
}

pub data Slot : Type 0 where
  slot_a slot_b : Slot

abbrev pub slot_eq : Slot → Slot → Bool
slot_eq slot_a slot_a = true
slot_eq slot_b slot_b = true
slot_eq _ _ = false

-- `'B' if slot == 'A' else 'A'`
abbrev pub other_slot : Slot → Slot
other_slot slot_a = slot_b
other_slot slot_b = slot_a

pub record SlotRecord : Type 0 where
  pub release : String
  pub generation : String
  pub schema : ℕ
  pub customized : Bool
  pub parent_generation : Option String
  pub release_revision : Option ℕ

abbrev pub Slots : Type 0
Slots = List (Slot × SlotRecord)

-- `slots.get(slot)`
abbrev pub find_slot : Slot → Slots → Option SlotRecord
find_slot k [] = none
find_slot k ((j, r) ∷ rest) = if slot_eq k j then some r else find_slot k rest

-- `slots[slot] = record`
abbrev pub put_slot : Slot → SlotRecord → Slots → Slots
put_slot k r [] = (k, r) ∷ []
put_slot k r ((j, q) ∷ rest) = if slot_eq k j then (k, r) ∷ rest else (j, q) ∷ put_slot k r rest

pub find_slot-put_slot :
    (k j : Slot) (r : SlotRecord) (slots : Slots)
    → find_slot j (put_slot k r slots) ≡ (if slot_eq j k then some r else find_slot j slots)
find_slot-put_slot k j r [] = ground arith
find_slot-put_slot k j r ((i, q) ∷ rest) = ground (arith, find_slot-put_slot k j r rest)
