-- ===== src/Examples/Services.antt =====
-- An image operation under the service barrier while Klipper is idle and Moonraker runs.
use sv08_mainline.Base.{String, ◌≡◌, refl, true, false, some, ok, str_eq, if◌then◌else◌}
use sv08_mainline.Base.Exec.{◌>>=◌, ◌>>◌}
use sv08_mainline.Barrier.{intent, require_running, Host, Packet, missing, Lease, klipper, call}
use sv08_mainline.Barrier.Quiet.{IsApart, IsQuiet}
use sv08_mainline.Barrier.Restoring.{Returned, call-Returned}

record Services : Type 0 where
  printer : String
  web : String

abbrev with_state : String → String → Services → Services
with_state s name w = record {
  printer = if str_eq name klipper then s else w.printer;
  web = if str_eq name klipper then w.web else s;
}

abbrev state_of : Services → String → String
state_of w name = if str_eq name klipper then w.printer else w.web

abbrev accepted : Packet
accepted = record {
  truncated = false;
  payload = ok (record { accepted = some true; wait_for_service_exit = some true; reason = "" });
}

abbrev host : Host Services
host = record {
  is_root = λ w. true;
  open_lock = λ w. (ok tt, w);
  take_lock = λ w. (ok tt, w);
  close_lock = λ w. w;
  shutdown = λ w. missing;
  boot_id = λ w. "first";
  active_state = λ w name. ok (state_of w name);
  systemctl_stop = λ name w. (ok tt, with_state "inactive" name w);
  systemctl_start = λ name w. (ok tt, with_state "active" name w);
  send_quiesce = λ w. (ok accepted, w);
}

abbrev services : Services
services = record { printer = "active"; web = "active" }

-- the body reads whether a printer service runs
abbrev body : Services → Lease String × Services
body w = (record { result = ok w.printer; keep_stopped = false }, w)

host-IsApart : IsApart host
host-IsApart = record {
  quiesce_moonraker = λ w. refl;
  stop_klipper_moonraker = λ w. refl;
  stop_moonraker_klipper = λ w. refl;
}

test_call : call host body services ≡ (ok "inactive", services)
unfolding call ◌>>◌ require_running intent ◌>>=◌
test_call = refl

call-Returned_example :
    (r : Returned host body "inactive" services services) × IsQuiet host services r.names r.quiet
call-Returned_example = call-Returned host body host-IsApart services services "inactive" test_call
