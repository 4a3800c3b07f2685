-- ===== src/Barrier.antt =====
-- The service barrier of an image operation: `Admission` of runtime/sv08_admission.py, and `intent`
-- and `require_running` of runtime/sv08_restart.py. systemd, the sockets and the locks are a `Host`.

pub mod Quiet
pub mod Restoring
use sv08_mainline.Base.{
  ℕ, String, Bool, true, false, ◌&&◌, ◌||◌, not, Option, none, some, List, [], ◌∷◌, ◌++◌, Result,
  ok, err, value_error, refuse_if, str_eq, is_some, if◌then◌else◌, length, codes, all_codes, is_hex,
  append_text, leb, ◌==◌,
}
use sv08_mainline.Base.Exec.{Exec, pure, query, require_not, ◌>>=◌, ◌>>◌}
use sv08_mainline.Admission.{is_true}

abbrev pub klipper : String
klipper = "sv08-klipper.service"

abbrev pub moonraker : String
moonraker = "sv08-moonraker.service"

pub record Intent : Type 0 where
  pub format_version : ℕ
  pub boot_id : String
  pub id : String

-- `shutdown.json`; `malformed` is text that is no object with the three keys
pub data ShutdownFile : Type 0 where
  missing symbolic_link malformed : ShutdownFile
  written : Intent → ShutdownFile

abbrev intent_invalid : Intent → Bool
intent_invalid i =
    not (i.format_version == 1)
    || length (codes i.boot_id) == 0
    || not (leb (length (codes i.boot_id)) 80)
    || not (length (codes i.id) == 32)
    || not (all_codes is_hex (codes i.id))

-- an intent of another boot does not count
unfoldable pub intent : ShutdownFile → String → Result (Option Intent)
intent missing boot_id = ok none
intent symbolic_link boot_id = err (value_error "Invalid shutdown intent")
intent malformed boot_id = err (value_error "Invalid shutdown intent")
intent (written i) boot_id =
    if intent_invalid i
    then err (value_error "Invalid shutdown intent")
    else ok (if str_eq i.boot_id boot_id then some i else none)

abbrev refuse_queued : Result (Option Intent) → Result (Unit {0})
refuse_queued (err e) = err e
refuse_queued (ok queued) =
    refuse_if (is_some queued) "Controlled restart is queued; shutdown admission is closed"

unfoldable pub require_running : ShutdownFile → String → Result (Unit {0})
require_running file boot_id = refuse_queued (intent file boot_id)

-- what the Klipper extension answers, once its JSON is read
pub record Answer : Type 0 where
  pub accepted : Option Bool
  pub wait_for_service_exit : Option Bool
  pub reason : String

pub record Packet : Type 0 where
  pub truncated : Bool
  pub payload : Result Answer

-- `systemctl show`, `stop` and `start`, the request to Klipper, and `admission.lock`
pub record Host (W : Type 0) : Type 1 where
  pub is_root : W → Bool
  pub open_lock : Exec W (Unit {0})
  pub take_lock : Exec W (Unit {0})
  pub close_lock : W → W
  pub shutdown : W → ShutdownFile
  pub boot_id : W → String
  pub active_state : W → String → Result String
  pub systemctl_stop : String → Exec W (Unit {0})
  pub systemctl_start : String → Exec W (Unit {0})
  pub send_quiesce : Exec W Packet

abbrev pub is_stopped_state : String → Bool
is_stopped_state s = str_eq s "inactive" || str_eq s "failed"

abbrev pub is_settled_state : String → Bool
is_settled_state s = str_eq s "active" || is_stopped_state s

abbrev refuses : Answer → Bool
refuses a = not (is_true a.accepted) || not (is_true a.wait_for_service_exit)

module _ {W : Type 0} (host : Host W) where
  abbrev service_state : String → Exec W String
  service_state name = query (λ w. host.active_state w name)

  -- the answer is not used further
  quiesce : Exec W (Unit {0})
  quiesce = do
    packet ← host.send_quiesce
    require_not packet.truncated "Oversized idle admission response"
    answer ← query (λ _. packet.payload)
    require_not (refuses answer) (append_text "Idle admission refused: " answer.reason)

  -- `Systemd.stop`
  stop : String → Exec W (Unit {0})
  stop name = do
    host.systemctl_stop name
    s ← service_state name
    require_not (not (is_stopped_state s)) (append_text "Service did not stop: " name)

  stop_klipper : String → Exec W (List String)
  unfolding quiesce stop
  stop_klipper s =
      if str_eq s "active" then (do quiesce; stop klipper; pure (klipper ∷ [])) else pure []

  stop_moonraker : String → Exec W (List String)
  unfolding stop
  stop_moonraker s =
      if str_eq s "active" then (do stop moonraker; pure (moonraker ∷ [])) else pure []

  -- from the lock to `entered = True`: the services to restore
  pub enter : Exec W (List String)
  unfolding stop_klipper stop_moonraker
  enter = do
    host.take_lock
    query (λ w. require_running (host.shutdown w) (host.boot_id w))
    k ← service_state klipper
    m ← service_state moonraker
    require_not (not (is_settled_state k && is_settled_state m))
        "Printer services are transitioning; retry after they settle"
    first ← stop_klipper k
    second ← stop_moonraker m
    pure (first ++ second)

  start_all : List String → Exec W (Unit {0})
  start_all [] = pure tt
  start_all (name ∷ names) = do host.systemctl_start name; start_all names

  -- `finally`, after the lock is closed
  pub restore_services : List String → Bool → Exec W (Unit {0})
  unfolding start_all
  restore_services names true = pure tt
  restore_services names false = do
    queued ← query (λ w. intent (host.shutdown w) (host.boot_id w))
    if is_some queued then pure tt else start_all names

-- how the block under the barrier ended, and whether it asked to keep the printers stopped
pub record Lease (A : Type 0) : Type 0 where
  pub result : Result A
  pub keep_stopped : Bool

-- an exception in `finally` replaces how the block ended
abbrev pub after_restoring {ℓ} : {A : Type ℓ} → Result (Unit {0}) → Result A → Result A
after_restoring (err e) r = err e
after_restoring (ok _) r = r

module _ {W A : Type 0} (host : Host W) (body : W → Lease A × W) where
  abbrev leave : List String → Lease A × W → Result A × W
  leave names (lease, w) =
      let (restored, w') = restore_services host names lease.keep_stopped (host.close_lock w) in
      (after_restoring restored lease.result, w')

  abbrev pub under_lock : Result (List String) × W → Result A × W
  under_lock (err e, w) = (err e, host.close_lock w)
  under_lock (ok names, w) = leave names (body w)

  abbrev entered : Exec W A
  entered w = under_lock (enter host w)

  -- `Admission.__call__` around a body
  unfoldable pub call : Exec W A
  unfolding enter restore_services
  call = do
    query (λ w. refuse_if (not (host.is_root w)) "Service admission requires root")
    host.open_lock
    entered
