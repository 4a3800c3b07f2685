-- ===== src/Examples.antt =====
-- A printer that runs release one from slot A, on which release two is staged, activated, booted and
-- confirmed, and the runs of it at which the theorems are applied.
pub mod Update
pub mod Selection
pub mod Rebooting
pub mod Jobs
pub mod Images
pub mod Uploads
pub mod Services
use sv08_mainline.Base.{
  ℕ, String, ◌≡◌, refl, ◌≢◌, ◌⊎◌, inl, inr, Bool, true, false, Option, none, some, List, [], ◌∷◌,
  Result, ok, err, arith,
}
use sv08_mainline.Policy.{UpdatePolicy, defaults, to_options, effective}
use sv08_mainline.Registry.{
  Slot, slot_a, slot_b, SlotRecord, State, Boot, Proof, Pending, immutable, PendingPhase, armed,
  trial,
}
use sv08_mainline.Bootloader.{
  Environment, Device, Operation, Action, install, set_primary, set_good, set_bad, handle, primary,
  slot_good, choose_primary, mark_state_bad, environment_valid, Reply, disarm,
}
use sv08_mainline.Update.Interfaces.{World, Journal, Backend, Platform, durable, on_env, staged}
use sv08_mainline.Rauc.{Rauc, backend, disarmed, disarm_target, boot_policy}
use sv08_mainline.Update.Boot.{Prepared}
use sv08_mainline.Rauc.Disarming.{command_of}
use sv08_mainline.Transaction.Stage.{stage, source_admitted, plan_stage, run_stage, stage_admitted}
use sv08_mainline.Base.Exec.{◌>>=◌, ◌>>◌}
use sv08_mainline.Update.Journals.{load_journal, is_sha256}
use sv08_mainline.Admission.{check_source, admit}
use sv08_mainline.Transaction.Activation.{arm, confirm}

abbrev pub digest : String
digest = "0123456789abcdef0123456789abcdef0123456789abcdef0123456789abcdef"

abbrev pub answers : Platform
answers = record {
  running = ok tt;
  jobs_idle = ok tt;
  copy_budget = ok tt;
  admission = ok tt;
  fresh_id = "0123456789abcdef";
  fingerprint = ok tt;
  copied = ok tt;
  synced = ok tt;
  installed_revision = ok none;
  policy_revision = λ _. "policy";
}

abbrev pub finished : Result Reply → Result (Unit {0})
finished (ok r) = ok tt
finished (err e) = err e

abbrev pub running : Boot
running = record { slot = slot_a; release = "one"; mode = immutable; boot_id = "boot-1" }

abbrev pub rauc : Rauc
rauc = record {
  boot_primary = λ e. ok (primary e);
  boot_status = λ s e. ok (slot_good e s);
  writer = ok tt;
  boot = some running;
  mark =
      λ op d. let (r, d') = handle (ok tt) (some op) slot_a (command_of op) d in (finished r, d');
  copies = ok tt;
  context = λ _ _. ok tt;
  bundle = λ _ _ _ _. ok tt;
  install = λ _ _ _ d. (ok tt, d);
}

abbrev pub device : Backend Device
device = backend rauc

abbrev pub first_record : SlotRecord
first_record = record {
  release = "one";
  generation = "one-0123";
  schema = 1;
  customized = false;
  parent_generation = none;
  release_revision = some 1;
}

abbrev pub registry : State
registry = record {
  requested_mode = immutable;
  auto_update = true;
  update_policy = none;
  slots = (slot_a, first_record) ∷ [];
  pending = none;
  last_failed_trial = none;
}

abbrev pub proof : Proof
proof = record {
  release = "two";
  bundle_sha256 = digest;
  release_revision = some 2;
  signer_trusted = some true;
  update_policy = some defaults;
}

abbrev pub idle_world : World Device
idle_world = record {
  registry = registry;
  journal = none;
  generations = "one-0123" ∷ [];
  env = record {
    environment = record { order = slot_a ∷ slot_b ∷ []; a_left = 3; b_left = 2 };
    writes = 10;
  };
  power = 10;
}

abbrev pub staged_journal : Journal
staged_journal = record {
  phase = staged;
  id = "0123456789abcdef";
  slot = slot_b;
  previous_slot = slot_a;
  previous_release = "one";
  release = "two";
  bundle_sha256 = digest;
  boot_id = "boot-1";
  previous_boot_policy = record { order = slot_a ∷ slot_b ∷ []; a_left = 3; b_left = 2 };
  automatic = true;
  update_policy = some defaults;
  policy_revision = some "policy";
  admission_proof = some proof;
  release_revision = some 2;
}

-- release two is written to slot B, which is disarmed
abbrev pub staged_world : World Device
staged_world = record {
  registry = registry;
  journal = some staged_journal;
  generations = "one-0123" ∷ [];
  env = record { environment = record { order = slot_a ∷ []; a_left = 3; b_left = 0 }; writes = 8 };
  power = 7;
}

abbrev pub pending_trial : PendingPhase → Pending
pending_trial phase = record {
  slot = slot_b;
  release = "two";
  previous_slot = slot_a;
  phase = phase;
  id = "0123456789abcdef";
}

-- slot B is selected for a trial boot
abbrev pub armed_world : World Device
armed_world = record {
  registry = record registry { pending = some (pending_trial armed) };
  journal = some (record staged_journal { phase = sv08_mainline.Update.Interfaces.armed });
  generations = "one-0123" ∷ [];
  env = record {
    environment = record { order = slot_b ∷ slot_a ∷ []; a_left = 3; b_left = 3 };
    writes = 6;
  };
  power = 4;
}

abbrev pub second_record : SlotRecord
second_record = record {
  release = "two";
  generation = "two-0123456789ab";
  schema = 1;
  customized = false;
  parent_generation = some "one-0123";
  release_revision = some 2;
}

abbrev pub trial_boot : Prepared
trial_boot = record {
  slot = slot_b;
  release = "two";
  mode = immutable;
  generation = "two-0123456789ab";
  trial = true;
  customized = false;
}

-- slot B has booted on a copy of the generation of slot A
abbrev pub trial_world : World Device
trial_world = record armed_world {
  registry = record registry {
    slots = (slot_a, first_record) ∷ (slot_b, second_record) ∷ [];
    pending = some (pending_trial trial);
  };
  generations = "two-0123456789ab" ∷ "one-0123" ∷ [];
  power = 2;
}

abbrev pub target : Boot
target = record { slot = slot_b; release = "two"; mode = immutable; boot_id = "boot-2" }

abbrev pub healthy : Boot → Result Bool
healthy _ = ok true

-- the running machine has power for ten more writes
abbrev pub powered : World Device → World Device
powered w = record w { power = 10 }
