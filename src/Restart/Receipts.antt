-- ===== src/Restart/Receipts.antt =====
-- The receipt of an automatic restart (runtime/sv08_auto_reboot.py), the shutdown barrier, and
-- `controlled_restart` (runtime/sv08_restart.py) with the callbacks that `AutoReboot.run` gives it.
use sv08_mainline.Base.{
  ℕ, zero, suc, ◌+◌, String, Bool, false, ◌&&◌, not, Option, none, some, Result, ok, err,
  value_error, os_error, power_loss, str_eq,
}
use sv08_mainline.Base.Exec.{Exec, Outcome, Ends, raise, lift, query, require_not, ◌>>=◌, ◌>>◌}
use sv08_mainline.Registry.{Slot}

pub data ReceiptState : Type 0 where
  ready dispatching queued uncertain suppressed observed retired : ReceiptState

-- `automatic-reboot.json`
pub record Receipt : Type 0 where
  pub id : String
  pub boot_id : String
  pub slot : Slot
  pub release : String
  pub policy_revision : String
  pub state : ReceiptState
  pub shutdown_id : String

-- `shutdown.json`
pub record Intent : Type 0 where
  pub boot_id : String
  pub id : String

-- The durable receipt, the volatile barrier, and the reboot requests of this boot that can have
-- reached systemd. `power` is the number of file replacements that still go through.
pub record Machine : Type 0 where
  pub receipt : Option Receipt
  pub barrier : Option Intent
  pub requests : ℕ
  pub power : ℕ

-- How `systemctl --no-block reboot` ends: it was acknowledged, it could not be launched, or its
-- acknowledgment was lost.
pub data Dispatch : Type 0 where
  acknowledged not_launched unacknowledged : Dispatch

-- What `controlled_restart` is told: the service barrier, the state of the legacy service, a fresh
-- identity, and the end of the command.
pub record Restarting : Type 0 where
  pub boot_id : String
  pub admission : Result (Unit {0})
  pub legacy_stopped : Bool
  pub fresh_id : String
  pub dispatch : Dispatch

abbrev pub replace_at : (Machine → Machine) → Machine → ℕ → Result (Unit {0}) × Machine
replace_at f m zero = (err power_loss, m)
replace_at f m (suc n) = (ok tt, f (record m { power = n }))

-- an atomic replacement or removal of a file
unfoldable pub replace : (Machine → Machine) → Exec Machine (Unit {0})
replace f m = replace_at f m m.power

-- `AutoReboot.save` without an intent
abbrev pub save_receipt : Receipt → ReceiptState → Exec Machine (Unit {0})
save_receipt r s = replace (λ m. record m { receipt = some (record r { state = s }) })

-- `AutoReboot.save` with an intent
abbrev pub save_intent : Receipt → ReceiptState → String → Exec Machine (Unit {0})
save_intent r s id =
    replace (λ m. record m { receipt = some (record r { state = s; shutdown_id = id }) })

-- `intent`: the barrier of this boot
abbrev pub is_closed : Option Intent → String → Bool
is_closed none boot_id = false
is_closed (some i) boot_id = str_eq i.boot_id boot_id

-- `intent(...) == expected`
abbrev pub barrier_is : Option Intent → String → String → Bool
barrier_is none boot_id id = false
barrier_is (some i) boot_id id = str_eq i.boot_id boot_id && str_eq i.id id

-- `require_running`
unfoldable pub require_running : String → Exec Machine (Unit {0})
require_running boot_id = do
  m ← query ok
  require_not (is_closed m.barrier boot_id)
      "Controlled restart is queued; shutdown admission is closed"

-- the request can have reached systemd
abbrev pub request_sent : Exec Machine (Unit {0})
request_sent m = (ok tt, record m { requests = m.requests + 1 })

-- the command, and what its end calls back
unfoldable pub request : Restarting → Receipt → Dispatch → Exec Machine (Unit {0})
request r receipt acknowledged = do request_sent; save_intent receipt queued r.fresh_id
request r receipt not_launched = do
  m ← query ok
  require_not (not (barrier_is m.barrier r.boot_id r.fresh_id))
      "Shutdown intent changed; administrator inspection required"
  replace (λ m. record m { barrier = none })
  save_receipt receipt ready
  raise (os_error "systemctl")
request r receipt unacknowledged = do
  request_sent
  save_intent receipt uncertain r.fresh_id
  raise (
      value_error
        "Restart acknowledgment is uncertain; admission remains closed until the next boot")

unfoldable pub controlled_restart : Restarting → Receipt → Exec Machine (Unit {0})
controlled_restart r receipt = do
  lift r.admission
  require_not (not r.legacy_stopped) "Legacy Klipper prevents controlled restart"
  require_running r.boot_id
  replace (λ m. record m { barrier = some (record { boot_id = r.boot_id; id = r.fresh_id }) })
  save_intent receipt dispatching r.fresh_id
  request r receipt r.dispatch

module _ {Q : Unit {0} → Machine → Type 0} {R : Machine → Type 0} where
  pub at_replace :
      (f : Machine → Machine) (m : Machine)
      → R m
      → ((n : ℕ) → Q tt (f (record m { power = n })))
      → Outcome Q R (replace f m)
  unfolding replace
  at_replace f m h k = record { holds = go m.power }
    where
      go : (n : ℕ) → Ends Q R (replace_at f m n)
      go zero = h
      go (suc n) = k n
