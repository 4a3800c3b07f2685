-- ===== src/Examples/Rebooting.antt =====
-- The automatic restart into the armed update of the example, and a second attempt at it.
use sv08_mainline.Base.{◌≤◌, ◌≡◌, refl, inl, true, false, none, some, [], ◌∷◌, ok}
use sv08_mainline.Base.Exec.{◌>>=◌, ◌>>◌}
use sv08_mainline.Policy.{effective}
use sv08_mainline.Admission.{check_source, admit}
use sv08_mainline.Update.Interfaces.{armed}
use sv08_mainline.Registry.{immutable}
use sv08_mainline.Restart.{require_restart}
use sv08_mainline.Transaction.Checks.{armed_pending}
use sv08_mainline.Restart.Eligibility.{require_restart_armed}
use sv08_mainline.Restart.Receipts.{
  Machine, Restarting, acknowledged, controlled_restart, replace, request, require_running,
}
use sv08_mainline.Reboot.{
  Surroundings, reboot_queued, run, load_receipt, with_receipt, begin, dispatch_restart,
}
use sv08_mainline.Reboot.Requests.{IsOnce}
use sv08_mainline.Reboot.Once.{run-IsOnce, runs, runs_request_once}
use sv08_mainline.Examples.{running, staged_journal, armed_world}

abbrev restarting : Restarting
restarting = record {
  boot_id = "boot-1";
  admission = ok tt;
  legacy_stopped = true;
  fresh_id = "0123456789abcdef0123456789abcdef";
  dispatch = acknowledged;
}

abbrev surroundings : Surroundings
surroundings = record {
  journal = ok (some (record staged_journal { phase = armed }));
  registry = ok armed_world.registry;
  boot = running;
  boot_context = some running;
  jobs_idle = ok tt;
  context = ok tt;
  network_pending = false;
  policy_revision = λ _. "policy";
  restarting = restarting;
}

abbrev machine : Machine
machine = record { receipt = none; barrier = none; requests = 0; power = 10 }

test_restarted : (run surroundings machine).0 ≡ ok reboot_queued
unfolding run load_receipt with_receipt begin dispatch_restart effective check_source admit
    require_restart require_running controlled_restart replace request ◌>>=◌ ◌>>◌
test_restarted = refl

test_requested : (run surroundings machine).1.requests ≡ 1
unfolding run load_receipt with_receipt begin dispatch_restart effective check_source admit
    require_restart require_running controlled_restart replace request ◌>>=◌ ◌>>◌
test_requested = refl

run-IsOnce_example : IsOnce "boot-1" (run surroundings machine).1
run-IsOnce_example = run-IsOnce surroundings machine (record { requested = inl refl })

runs_request_once_example :
    (runs "boot-1" ((surroundings, 10) ∷ (surroundings, 10) ∷ []) machine).requests ≤ 1
runs_request_once_example =
    runs_request_once "boot-1" ((surroundings, 10) ∷ (surroundings, 10) ∷ []) machine refl

test_eligible :
    require_restart
      (ok tt)
      armed_world.registry
      (some (record staged_journal { phase = armed }))
      "boot-1"
      (some running)
    ≡ ok tt
unfolding require_restart
test_eligible = refl

require_restart_armed_example :
    (running.boot_id ≡ running.boot_id)
    × (armed_world.registry.pending
        ≡ some (armed_pending (record staged_journal { phase = armed })))
    × (armed_world.registry.requested_mode ≡ immutable)
require_restart_armed_example =
    require_restart_armed (ok tt) armed_world.registry (record staged_journal { phase = armed })
      "boot-1" (some running) test_eligible refl
