-- ===== src/Restart.antt =====
-- runtime/sv08_restart.py: whether the machine may restart now, and the restart under a shutdown
-- barrier whose callbacks keep a durable receipt (runtime/sv08_auto_reboot.py).
pub mod Receipts
pub mod Eligibility
use sv08_mainline.Base.{
  String, Bool, true, false, ◌&&◌, ◌||◌, not, Option, none, some, Result, ok, err, value_error,
  refuse_if, str_eq, is_some,
}
use sv08_mainline.Base.Outcome.{◌>>=◌, ◌>>◌}
use sv08_mainline.Policy.{UpdatePolicy, defaults}
use sv08_mainline.Registry.{
  Slot, slot_eq, SlotRecord, find_slot, State, Boot, Pending, is_trial, is_writable,
}
use sv08_mainline.Admission.{any_customized}
use sv08_mainline.Update.Interfaces.{Journal, Phase, staged, armed}
use sv08_mainline.Update.Journals.{outstanding, is_settled, or_defaults}
use sv08_mainline.Transaction.Checks.{is_armed}

abbrev pub is_ready : Phase → Bool
is_ready staged = true
is_ready armed = true
is_ready _ = false

-- the transaction belongs to an earlier boot
abbrev pub is_earlier : Option Journal → String → Bool
is_earlier none boot_id = false
is_earlier (some tx) boot_id = outstanding (some tx) && not (str_eq tx.boot_id boot_id)

abbrev pub source_differs : Journal → Option SlotRecord → Bool
source_differs tx none = true
source_differs tx (some r) = not (str_eq r.release tx.previous_release)

-- `boot.json`, if it is there, is not the boot that staged
abbrev pub boot_differs : Journal → Option Boot → Bool
boot_differs tx none = false
boot_differs tx (some boot) =
    not (slot_eq boot.slot tx.previous_slot)
    || not (str_eq boot.release tx.previous_release)
    || not (str_eq boot.boot_id tx.boot_id)
    || is_writable boot.mode

abbrev check_ready : State → Journal → Option Boot → Result (Unit {0})
check_ready state tx boot = do
  refuse_if (source_differs tx (find_slot tx.previous_slot state.slots))
      "Image source state requires reconciliation before restarting"
  refuse_if (boot_differs tx boot)
      "Running boot and image transaction disagree; reconcile before restarting"

-- `pending != expected`
abbrev pub trial_differs : Option Pending → Journal → Bool
trial_differs none tx = true
trial_differs (some p) tx =
    not (slot_eq p.slot tx.slot)
    || not (str_eq p.release tx.release)
    || not (slot_eq p.previous_slot tx.previous_slot)
    || is_trial p.phase
    || not (str_eq p.id tx.id)

abbrev armed_differs : State → Journal → Bool
armed_differs state tx =
    trial_differs state.pending tx
    || is_writable state.requested_mode
    || (or_defaults tx.update_policy).check_customization && any_customized state.slots

abbrev check_phase : State → Journal → Result (Unit {0})
check_phase state tx = elim (is_armed tx.phase) [
  | true ↦
      refuse_if (armed_differs state tx)
        "Armed image state requires reconciliation before restarting"
  | false ↦
      refuse_if (is_some state.pending || not (is_ready tx.phase || is_settled tx.phase))
        "Image transaction is transitional or uncertain; reconcile before restarting"
]

abbrev check_ready_if : Bool → State → Journal → Option Boot → Result (Unit {0})
check_ready_if true state tx boot = check_ready state tx boot
check_ready_if false state tx boot = ok tt

check_journal : State → Option Journal → Option Boot → Result (Unit {0})
check_journal state none boot =
    refuse_if (is_some state.pending)
      "Image transaction is transitional or uncertain; reconcile before restarting"
check_journal state (some tx) boot = do
  check_ready_if (is_ready tx.phase) state tx boot
  check_phase state tx

-- `jobs_idle` is the outcome of `require_jobs_idle`, `boot` is `boot.json`
unfoldable pub require_restart :
    Result (Unit {0}) → State → Option Journal → String → Option Boot → Result (Unit {0})
unfolding check_journal
require_restart jobs_idle state journal boot_id boot = do
  jobs_idle
  refuse_if (is_earlier journal boot_id)
      "Image transaction belongs to an earlier boot; reconcile before restarting"
  check_journal state journal boot
