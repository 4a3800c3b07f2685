-- ===== src/Examples/Selection.antt =====
-- The boot selection of the example, in single calls of the backend and of the handler, and the
-- admission of its bundle.
use sv08_mainline.Base.{
  ◌≡◌, ◌≢◌, refl, ◌⊎◌, inr, true, false, none, some, [], ◌∷◌, ok, arith, ◌&&◌, String,
}
use sv08_mainline.Base.Exec.{◌>>=◌, ◌>>◌}
use sv08_mainline.Policy.{effective, defaults, UpdatePolicy, Options, flag}
use sv08_mainline.Policy.Requests.{given, option_of, Agrees, effective-Agrees}
use sv08_mainline.Registry.{slot_a, slot_b}
use sv08_mainline.Admission.{admit}
use sv08_mainline.Admission.Laws.{admit_ordered, IsOrderedAs}
use sv08_mainline.Bootloader.{
  Environment, Device, Operation, set_primary, set_bad, environment_valid, primary, slot_good,
  handle, disarm, choose_primary, mark_state_bad, nothing,
}
use sv08_mainline.Bootloader.Commands.{handle-valid, handle_disarm-primary, handle_select-primary}
use sv08_mainline.Rauc.{
  disarm_target, mark, restore_pre_disarm, restore_policy, restored_check, boot_policy,
}
use sv08_mainline.Rauc.Restoring.{restore_keeps_source, restore_refuses, restore_returns}
use sv08_mainline.Rauc.Disarming.{
  disarm_target_keeps_source, disarm_target_returns, IsHandled, IsDisarmedFrom,
}
use sv08_mainline.Examples.{rauc, registry, running, proof, first_record}

abbrev both : Environment
both = record { order = slot_a ∷ slot_b ∷ []; a_left = 3; b_left = 2 }

abbrev device : Device
device = record { environment = both; writes = 10 }

-- one more write goes through
abbrev weak_device : Device
weak_device = record { environment = both; writes = 1 }

abbrev disarmed_device : Device
disarmed_device = record {
  environment = record { order = slot_a ∷ []; a_left = 3; b_left = 0 };
  writes = 8;
}

abbrev marked : Operation
marked = record { action = set_bad; slot = slot_b }

abbrev chosen : Operation
chosen = record { action = set_primary; slot = slot_b }

valid : environment_valid both ≡ true
unfolding environment_valid
valid = refl

selected : primary both ≡ some slot_a
unfolding primary
selected = refl

rauc-IsHandled : IsHandled rauc
rauc-IsHandled = record { handled = λ op d. inr (ok tt, slot_a, refl) }

test_disarmed : disarm_target rauc slot_b slot_a device ≡ (ok tt, disarmed_device)
unfolding disarm_target boot_policy ◌>>=◌ ◌>>◌ environment_valid primary slot_good handle disarm
    mark
test_disarmed = refl

test_restored : (restore_pre_disarm rauc both slot_b slot_a disarmed_device).0 ≡ ok tt
unfolding restore_pre_disarm restore_policy restored_check boot_policy ◌>>=◌ ◌>>◌ environment_valid
    primary slot_good
test_restored = refl

disarm_target_keeps_source_example :
    primary (disarm_target rauc slot_b slot_a weak_device).1.environment ≡ some slot_a
disarm_target_keeps_source_example =
    disarm_target_keeps_source rauc slot_b slot_a rauc-IsHandled weak_device selected

disarm_target_returns_example :
    IsDisarmedFrom rauc slot_b slot_a both (disarm_target rauc slot_b slot_a device).1.environment
disarm_target_returns_example =
    disarm_target_returns rauc slot_b slot_a device (rw test_disarmed refl)

disarmed_selected : primary disarmed_device.environment ≡ some slot_a
unfolding primary
disarmed_selected = refl

restore_keeps_source_example :
    primary (restore_pre_disarm rauc both slot_b slot_a disarmed_device).1.environment ≡ some slot_a
restore_keeps_source_example =
    restore_keeps_source rauc both slot_b slot_a disarmed_device selected disarmed_selected

restore_returns_example :
    (restore_pre_disarm rauc both slot_b slot_a disarmed_device).1.environment ≡ both
restore_returns_example =
    restore_returns rauc both slot_b slot_a disarmed_device selected disarmed_selected test_restored

-- the power failed between the two writes of the handler
abbrev half_disarmed : Device
half_disarmed = record {
  environment = record { order = slot_a ∷ []; a_left = 3; b_left = 2 };
  writes = 8;
}

restore_refuses_example :
    ((restore_pre_disarm rauc both slot_b slot_a half_disarmed).1 ≡ half_disarmed)
    × ((restore_pre_disarm rauc both slot_b slot_a half_disarmed).0 ≢ ok tt)
restore_refuses_example = restore_refuses rauc both slot_b slot_a half_disarmed refl refl

handle-valid_example :
    environment_valid
      (handle (ok tt) (some marked) slot_a (mark_state_bad slot_b) weak_device).1.environment
    ≡ true
handle-valid_example =
    handle-valid (ok tt) (some marked) slot_a (mark_state_bad slot_b) weak_device valid

handle_disarm-primary_example :
    primary (handle (ok tt) (some marked) slot_a (mark_state_bad slot_b) weak_device).1.environment
    ≡ some slot_a
handle_disarm-primary_example =
    handle_disarm-primary (ok tt) (some marked) slot_a slot_b slot_a weak_device valid
      (ground arith) selected

handle_select-primary_example :
    let e =
      (handle (ok tt) (some chosen) slot_a (choose_primary slot_b) weak_device).1.environment in
    (primary e ≡ primary both) ⊎ (primary e ≡ some slot_b)
handle_select-primary_example =
    handle_select-primary (ok tt) (some chosen) slot_a slot_b weak_device valid

test_chosen : (handle (ok tt) (some chosen) slot_a (choose_primary slot_b) device).0 ≡ ok nothing
unfolding handle ◌>>=◌ ◌>>◌ environment_valid primary slot_good
test_chosen = refl

test_admitted : admit proof registry running none true ≡ ok defaults
unfolding admit effective
test_admitted = refl

admit_ordered_example : IsOrderedAs defaults (some 1) (some 2)
admit_ordered_example =
    admit_ordered proof registry running none true defaults first_record test_admitted refl refl

-- a request to install an older release
abbrev downgrade : Options
downgrade = ("allow_downgrade", flag true) ∷ []

abbrev downgrading : UpdatePolicy
downgrading = record defaults { allow_downgrade = true }

test_downgrade : effective (some downgrade) false ≡ ok downgrading
unfolding effective
test_downgrade = refl

effective-Agrees_example :
    ((k : String) → Agrees (given k downgrade) (option_of defaults k) (option_of downgrading k))
    × ((false && downgrading.allow_untrusted_provenance) ≡ false)
effective-Agrees_example = effective-Agrees downgrade false downgrading test_downgrade
