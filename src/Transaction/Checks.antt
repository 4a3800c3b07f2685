-- ===== src/Transaction/Checks.antt =====
-- The tests of runtime/sv08_transaction.py that read and do not write.
use sv08_mainline.Base.{
  String, Bool, true, false, ◌&&◌, ◌||◌, not, Option, none, some, [], ◌∷◌, str_eq,
}
use sv08_mainline.Policy.{Options, UpdatePolicy, to_options}
use sv08_mainline.Registry.{Slot, slot_eq, Slots, SlotRecord, State, Boot, Pending, is_trial}
use sv08_mainline.Update.Interfaces.{Journal, Phase, staged, arming, armed, confirming}

-- the options of a policy that may be missing
abbrev pub policy_options : Option UpdatePolicy → Option Options
policy_options none = none
policy_options (some p) = some (to_options p)

-- `primary() == slot`
abbrev pub primary_is : Option Slot → Slot → Bool
primary_is none slot = false
primary_is (some p) slot = slot_eq p slot

-- `any(record['release'] == release for record in state['slots'].values())`
abbrev pub release_known : Slots → String → Bool
release_known [] release = false
release_known ((k, r) ∷ rest) release = str_eq r.release release || release_known rest release

abbrev pub can_arm : Phase → Bool
can_arm staged = true
can_arm arming = true
can_arm armed = true
can_arm _ = false

abbrev pub is_arming : Phase → Bool
is_arming arming = true
is_arming _ = false

abbrev pub is_armed : Phase → Bool
is_armed armed = true
is_armed _ = false

abbrev pub is_confirming : Phase → Bool
is_confirming confirming = true
is_confirming _ = false

abbrev pub is_announced : Phase → Bool
is_announced arming = true
is_announced armed = true
is_announced confirming = true
is_announced _ = false

abbrev pub can_confirm : Phase → Bool
can_confirm armed = true
can_confirm confirming = true
can_confirm _ = false

-- the running system is the one that staged: slot and release
abbrev pub is_source : Journal → Boot → Bool
is_source tx boot = slot_eq boot.slot tx.previous_slot && str_eq boot.release tx.previous_release

-- the running system is the target of the transaction
abbrev pub is_target : Journal → Boot → Bool
is_target tx boot = slot_eq boot.slot tx.slot && str_eq boot.release tx.release

-- `arm`: another trial is pending
abbrev pub pending_conflicts : Option Pending → Journal → Bool
pending_conflicts none tx = false
pending_conflicts (some p) tx =
    not (str_eq p.id tx.id)
    || is_trial p.phase
    || not (slot_eq p.slot tx.slot)
    || not (str_eq p.release tx.release)

-- `cancel`: the trial of this transaction has started, or it is another one
abbrev pub pending_started : Option Pending → Journal → Bool
pending_started none tx = false
pending_started (some p) tx = not (str_eq p.id tx.id) || is_trial p.phase

-- `reconcile`: the pending trial is not the journal's
abbrev pub pending_disagrees : Option Pending → Journal → Bool
pending_disagrees none tx = false
pending_disagrees (some p) tx =
    not (str_eq p.id tx.id)
    || not (slot_eq p.slot tx.slot)
    || not (str_eq p.release tx.release)
    || not (slot_eq p.previous_slot tx.previous_slot)

-- `confirm`: the pending trial is not a prepared trial of this transaction
abbrev pub pending_unprepared : Option Pending → Journal → Bool
pending_unprepared none tx = false
pending_unprepared (some p) tx = not (str_eq p.id tx.id) || not (is_trial p.phase)

-- `state.get('last_failed_trial', {}).get('id') == tx['id']`
abbrev pub failed_trial : Option Pending → Journal → Bool
failed_trial none tx = false
failed_trial (some p) tx = str_eq p.id tx.id

-- `dict(slot=tx['slot'], ..., phase='armed', id=tx['id'])`
abbrev pub armed_pending : Journal → Pending
armed_pending tx = record {
  slot = tx.slot;
  release = tx.release;
  previous_slot = tx.previous_slot;
  phase = sv08_mainline.Registry.armed;
  id = tx.id;
}
