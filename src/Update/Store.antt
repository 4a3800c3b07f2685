-- ===== src/Update/Store.antt =====
-- The operations of `Store` (runtime/sv08_state.py) that change the state registry. Each runs under
-- the state lock, so that no other operation of the coordinator comes between its steps.
pub mod Policies
use sv08_mainline.Base.{
  String, Bool, true, false, ◌||◌, not, Option, none, some, Result, ok, or_key_error, str_eq,
  is_some, if◌then◌else◌,
}
use mathlib.Core.Option
use sv08_mainline.Base.Exec.{Exec, pure, lift, query, require_not, ◌>>=◌, ◌>>◌}
use sv08_mainline.Policy.{Options, effective, to_options}
use sv08_mainline.Registry.{
  Slot, slot_eq, find_slot, SlotRecord, State, Pending, armed, is_trial, Mode, is_writable,
  identifier, load,
}
use sv08_mainline.Update.Interfaces.{World, Platform, save_registry}
use sv08_mainline.Update.Journals.{outstanding}

abbrev pub pending_is_trial : Option Pending → Bool
pending_is_trial none = false
pending_is_trial (some p) = is_trial p.phase

-- `pending['slot'] != slot or pending['release'] != release`
abbrev pending_differs : Option Pending → Slot → String → Bool
pending_differs none slot release = true
pending_differs (some p) slot release = not (slot_eq p.slot slot) || not (str_eq p.release release)

abbrev change_automatic : State → Option Bool → State
change_automatic state none = state
change_automatic state (some b) = record state { auto_update = b }

-- `state['requested_mode'] == 'writable' or state['slots'][previous_slot]['customized']`
abbrev customized_source : State → Slot → Result Bool
customized_source state slot =
    if is_writable state.requested_mode
    then ok true
    else or_key_error (Option.map (λ (r : SlotRecord). r.customized) (find_slot slot state.slots))
        "slot"

module _ {E : Type 0} (platform : Platform) where
  -- `self.load()`
  abbrev pub load_registry : Exec (World E) State
  load_registry = query (λ w. load w.registry)

  -- `require_mode_change` and the new mode. It reads the journal without validating it.
  change_mode : State → Option Mode → Exec (World E) State
  change_mode state none = pure state
  change_mode state (some mode) = do
    w ← query ok
    require_not (is_some state.pending || outstanding w.journal)
        "Finish or cancel the pending image transaction before changing mode"
    lift platform.jobs_idle
    pure (record state { requested_mode = mode })

  change_policy : State → Option Options → Exec (World E) State
  change_policy state none = pure state
  change_policy state (some options) = do
    p ← lift (effective (some options) true)
    pure (record state { update_policy = some (to_options p) })

  abbrev pub when : Bool → Exec (World E) (Unit {0}) → Exec (World E) (Unit {0})
  when true m = m
  when false m = pure tt

  -- `Store.policy`
  unfoldable pub policy : Option Mode → Option Bool → Option Options → Exec (World E) State
  unfolding change_mode change_policy
  policy mode automatic options = do
    let changes = is_some mode || is_some automatic || is_some options
    when changes (lift platform.running)
    state ← load_registry
    moded ← change_mode state mode
    optioned ← change_policy moded options
    let result = change_automatic optioned automatic
    when changes (save_registry result)
    pure result

  -- `Store.confirm`
  unfoldable pub confirm : Slot → String → Exec (World E) State
  confirm slot release = do
    state ← load_registry
    require_not (not (pending_is_trial state.pending) || pending_differs state.pending slot release)
        "No matching prepared trial"
    save_registry (record state { pending = none })
    pure (record state { pending = none })

  -- `Store.expect_trial`; the other slot's record is read unless the requested mode is writable
  unfoldable pub expect_trial : Slot → String → Slot → Exec (World E) State
  expect_trial slot release previous_slot = do
    lift (identifier release)
    lift platform.running
    state ← load_registry
    require_not (slot_eq slot previous_slot) "Trial must target the other slot"
    require_not (is_some state.pending) "Another image transaction is pending"
    customized ← lift (customized_source state previous_slot)
    require_not customized
        "Customized/writable system needs explicit reconciliation; update blocked"
    let result = record state {
      pending = some (record {
        slot = slot;
        release = release;
        previous_slot = previous_slot;
        phase = armed;
        id = platform.fresh_id;
      });
    }
    save_registry result
    pure result

  -- `Store.cancel_trial`
  unfoldable pub cancel_trial : Exec (World E) State
  cancel_trial = do
    lift platform.running
    state ← load_registry
    require_not (pending_is_trial state.pending) "Trial has started; use explicit rollback"
    save_registry (record state { pending = none })
    pure (record state { pending = none })
