-- ===== src/Update/Boot/Generation.antt =====
-- The statements of `prepare_boot` before it saves the registry: what each establishes.
use sv08_mainline.Base.{
  ℕ, String, ◌≡◌, refl, List, Bool, Option, none, some, ok, arith, str_eq, eq_iff, if◌then◌else◌,
}
use sv08_mainline.Base.Exec.{
  Outcome, Reads, at_read, at_then, then-Reads, bind_read, then_read, at_pure, weaken,
}
use sv08_mainline.Policy.{UpdatePolicy}
use sv08_mainline.Registry.{
  Slot, slot_a, slot_b, slot_eq, SlotRecord, find_slot, put_slot, find_slot-put_slot, State,
  Pending, trial, is_writable, load, other_slot,
}
use sv08_mainline.Update.Interfaces.{World, Journal, Platform, then_durable}
use sv08_mainline.Update.Generations.{generation_path, generation_name, current_record, revised}
use sv08_mainline.Update.Boot.{copyable, new_generation, new_record, slot_record, checked_revision}
use sv08_mainline.Update.Boot.Copying.{
  IsStored, IsExtended, as_it_was, powered, copying-IsExtended, make_directory-Outcome,
  copy_or_remove-Outcome,
}

pub generation_path-ok :
    (r : SlotRecord) (generations : List String) (g : String)
    → generation_path r generations ≡ ok g
    → (g ≡ r.generation) × IsStored r.generation generations
unfolding sv08_mainline.Registry.identifier
generation_path-ok r generations g h = ground arith

pub revised-ok :
    (f : UpdatePolicy → String) (started : Bool) (p : Option Pending) (j : Option Journal)
    (r : SlotRecord) (n : Option ℕ) (r' : SlotRecord)
    → revised f started p j r n ≡ ok r'
    → (r'.release ≡ r.release) × (r'.generation ≡ r.generation) × (r'.customized ≡ r.customized)
unfolding revised
revised-ok f started p none r none r' h = ground arith
revised-ok f started p (some tx) r none r' h = ground arith
revised-ok f started p j r (some n) r' h = ground arith

current_record-release :
    (state : State) (slot : Slot) (release : String) (r : SlotRecord)
    → current_record state slot release ≡ some r
    → r.release ≡ release
current_record-release state slot release r h = go (find_slot slot state.slots) h
  where
    go :
        (found : Option SlotRecord)
        → (elim found [ none ↦ none | some q ↦ if str_eq q.release release then some q else none ])
          ≡ some r
        → r.release ≡ release
    go none h = ground arith
    go (some q) h = ground (arith, eq_iff q.release release)

module _ {E : Type 0} (platform : Platform) where
  copyable-Reads :
      (source : SlotRecord) (schema : ℕ) (w : World E)
      → Reads (λ _. Unit {0}) w (copyable platform source schema w)
  unfolding copyable
  copyable-Reads source schema w =
      then_read _ _ _ refl λ _ _. then_read _ _ _ refl λ _ _. at_read _ _ refl (λ _ _. (refl, tt))

  new_generation-Outcome :
      (source : Option SlotRecord) (schema : ℕ) (g : String) (w : World E)
      → Outcome
          (λ _ v. IsExtended g w v)
          (IsExtended g w)
          (new_generation platform source schema g w)
  unfolding new_generation
  new_generation-Outcome none schema g w = then_read _ _ _ (as_it_was g w) λ _ _. at_then _ _ _ (
      weaken (make_directory-Outcome platform g w)
        (λ _ v h.
          let e : IsExtended g w v = copying-IsExtended g w v h in
          then_durable _ _ _ e λ n. at_read _ _ (powered g w v n e) (λ _ _. powered g w v n e))
        (λ v h. copying-IsExtended g w v h))
  new_generation-Outcome (some source) schema g w =
      then-Reads _ _ _ (copyable-Reads source schema w) (as_it_was g w)
        λ _ _. copy_or_remove-Outcome platform g w

  new_record-Outcome :
      (state : State) (started : Bool) (release : String) (schema : ℕ) (w : World E)
      → Outcome
          (λ r w'.
            (r.release ≡ release) × IsExtended (generation_name release platform.fresh_id) w w')
          (IsExtended (generation_name release platform.fresh_id) w)
          (new_record platform state started release schema w)
  unfolding new_record
  new_record-Outcome state started release schema w =
      let g : String = generation_name release platform.fresh_id in
      bind_read _ _ _ (as_it_was g w) λ source _. at_then _ _ _ (
        weaken (new_generation-Outcome source schema g w)
          (λ _ v e. then_read _ _ _ e λ _ _. at_pure _ _ (refl, e)) (λ _ e. e))

  pub slot_record-Outcome :
      (state : State) (slot : Slot) (started : Bool) (release : String) (schema : ℕ) (w : World E)
      → Outcome
          (λ r w'.
            (r.release ≡ release) × IsExtended (generation_name release platform.fresh_id) w w')
          (IsExtended (generation_name release platform.fresh_id) w)
          (slot_record platform state started (current_record state slot release) release schema w)
  slot_record-Outcome state slot started release schema w =
      go (current_record state slot release) (current_record-release state slot release)
    where
      go :
          (found : Option SlotRecord)
          → ((r : SlotRecord) → found ≡ some r → r.release ≡ release)
          → Outcome
              (λ r w'.
                (r.release ≡ release) × IsExtended (generation_name release platform.fresh_id) w w')
              (IsExtended (generation_name release platform.fresh_id) w)
              (slot_record platform state started found release schema w)
      go none h = new_record-Outcome state started release schema w
      go (some r) h = at_pure _ _ (h r refl, as_it_was _ w)

  pub checked_revision-Reads :
      (n : Option ℕ) (w : World E) → Reads (λ _. Unit {0}) w (checked_revision platform n w)
  checked_revision-Reads none w = at_pure _ _ (refl, tt)
  checked_revision-Reads (some n) w = bind_read _ _ _ refl λ _ _. at_pure _ _ (refl, tt)
