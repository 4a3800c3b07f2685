-- ===== src/Transaction/Linked.antt =====
-- The invariant of the durable records: a pending trial belongs to the journaled transaction.
use sv08_mainline.Base.{◌≡◌, true, Option, none, some, arith}
use sv08_mainline.Registry.{Pending}
use sv08_mainline.Update.Interfaces.{World, Journal}
use sv08_mainline.Transaction.Checks.{is_announced}

-- The pending trial, if there is one, is the trial of this transaction.
abbrev pub IsFor : Option Pending → Journal → Type 0
IsFor none tx = Unit
IsFor (some p) tx =
    (p.id ≡ tx.id)
    × (p.slot ≡ tx.slot)
    × (p.release ≡ tx.release)
    × (p.previous_slot ≡ tx.previous_slot)

-- A pending trial has a journal that announces it.
abbrev pub IsLinked : Option Pending → Option Journal → Type 0
IsLinked none j = Unit
IsLinked (some p) none = ⊥
IsLinked (some p) (some tx) = IsFor (some p) tx × (is_announced tx.phase ≡ true)

pub record IsConsistent {E : Type 0} (w : World E) : Type 0 where
  pub linked : IsLinked w.registry.pending w.journal

-- In a consistent world the pending trial is the journal's.
pub linked-IsFor :
    (p : Option Pending) (j : Option Journal) (tx : Journal)
    → IsLinked p j
    → j ≡ some tx
    → IsFor p tx
linked-IsFor none j tx h e = tt
linked-IsFor (some p) none tx h e = absurd h
linked-IsFor (some p) (some t) tx h e = ground arith
